-- ===== src/Rpc/BlockCache/Lookup.antt =====
-- What Get and GetByHash find after Add.
use mathlib.Core.Path.{subst}
use substrate_rpc_proxy.Dto.{Block}
use substrate_rpc_proxy.Prelude.{
  ℕ, ◌+◌, ◌*◌, ◌≤◌, ◌≡◌, ◌≢◌, refl, String, Bool, false, ◌&&◌, ◌||◌, List, [], ◌∷◌, Option, none,
  some, length, ltb, ◌==◌, ==_iff, str_eq, eq_iff, if◌then◌else◌, All, All-take, arith, inl, inr,
  List-cases, Bool-cases,
}
use substrate_rpc_proxy.Rpc.BlockCache.{
  BlockCache, find_hash, get_by_hash, find_number, get, trim, add,
}
use substrate_rpc_proxy.Rpc.BlockCache.Insert.{insert, add-eq-insert, add-empty, filled_of_eq}
use substrate_rpc_proxy.Rpc.BlockCache.Order.{IsBelow, IsDescending, IsValid, trim-IsDescending}

-- Some block of the list is below `n`.
abbrev pub reaches_below : ℕ → List Block → Bool
reaches_below n [] = false
reaches_below n (b ∷ bs) = ltb b.number n || reaches_below n bs

find_number_of_IsBelow :
    (n : ℕ) (m : ℕ) (bs : List Block) → IsBelow m bs → m ≤ n → find_number n bs ≡ none
unfolding find_number
find_number_of_IsBelow n m [] _ h = refl
find_number_of_IsBelow n m (b ∷ bs) (p, ps) h = ground (arith, find_number_of_IsBelow n m bs ps h)

trim_of_room : (c : BlockCache) → length c.blocks + 1 ≤ c.capacity * 2 → trim c ≡ c.blocks
unfolding trim
trim_of_room c h = ground arith

-- What a lookup by number finds once a block was offered.
abbrev pub offered : ℕ → Block → List Block → Option Block → Option Block
offered n block bs (some b) = some b
offered n block bs none = if block.number == n && reaches_below n bs then some block else none

find_number-insert :
    (n : ℕ) (block : Block) (bs : List Block)
    → IsDescending bs
    → find_number n (insert block bs) ≡ offered n block bs (find_number n bs)
unfolding find_number insert
find_number-insert n block [] _ = ground arith
find_number-insert n block (b ∷ bs) (p, ps) =
    ground (arith, find_number-insert n block bs ps, find_number_of_IsBelow n b.number bs p)

-- On a cache in order, a lookup by number after Add finds what the trimmed cache had, else the new
-- block exactly if the number is its own and some kept block has a lower one.
pub get-add :
    (c : BlockCache) (block : Block) (n : ℕ)
    → IsValid c
    → c.blocks ≢ []
    → get (add c block) n ≡ offered n block (trim c) (find_number n (trim c))
unfolding get
get-add c block n v filled =
    rw (add-eq-insert c block filled)
      (find_number-insert n block (trim c) (trim-IsDescending c v.descending))

insert_of_lowest :
    (block : Block) (bs : List Block) → reaches_below block.number bs ≡ false → insert block bs ≡ bs
unfolding insert
insert_of_lowest block [] h = refl
insert_of_lowest block (b ∷ bs) h = ground (arith, insert_of_lowest block bs)

-- A block older than all blocks of a cache with room is not kept: Add changes nothing.
pub add-lowest :
    (c : BlockCache) (block : Block)
    → c.blocks ≢ []
    → length c.blocks + 1 ≤ c.capacity * 2
    → reaches_below block.number c.blocks ≡ false
    → (add c block).blocks ≡ c.blocks
add-lowest c block filled room low =
    rw (add-eq-insert c block filled, trim_of_room c room) (insert_of_lowest block c.blocks low)

module _ (P : Block → Type 0) where
  insert-All : (block : Block) (bs : List Block) → P block → All P bs → All P (insert block bs)
  unfolding insert
  insert-All block [] h _ = tt
  insert-All block (b ∷ bs) h (p, ps) = ground (arith, insert-All block bs h ps)

  trim-All : (c : BlockCache) → All P c.blocks → All P (trim c)
  unfolding trim
  trim-All c h = ground (arith, All-take P c.capacity c.blocks h)

  -- What holds of the cached blocks and of the new one holds of all blocks after Add.
  pub add-All :
      (c : BlockCache) (block : Block) → P block → All P c.blocks → All P (add c block).blocks
  add-All c block p h = elim (List-cases c.blocks) [
    | inl e ↦ rw (add-empty c block e) (p, tt)
    | inr (b, bs, e) ↦
        rw (add-eq-insert c block (filled_of_eq e)) (insert-All block (trim c) p (trim-All c h))
  ]

  find_hash-All :
      (hash : String) (bs : List Block) {b : Block}
      → find_hash hash bs ≡ some b
      → All P bs
      → P b × (b.hash ≡ hash)
  unfolding find_hash
  find_hash-All hash [] e _ = cc
  find_hash-All hash (x ∷ bs) {b} e (p, ps) = elim (Bool-cases (str_eq x.hash hash)) [
    | inl same ↦ subst (λ y. P y × (y.hash ≡ hash)) (ground arith) (p, (eq_iff _ _).0 same)
    | inr other ↦ find_hash-All hash bs (rw (other, find_hash) at e) ps
  ]

  pub get_by_hash-All :
      (c : BlockCache) (hash : String) {b : Block}
      → get_by_hash c hash ≡ some b
      → All P c.blocks
      → P b × (b.hash ≡ hash)
  unfolding get_by_hash
  get_by_hash-All c hash e h = find_hash-All hash c.blocks e h

  find_number-All :
      (n : ℕ) (bs : List Block) {b : Block}
      → find_number n bs ≡ some b
      → All P bs
      → P b × (b.number ≡ n)
  unfolding find_number
  find_number-All n [] e _ = cc
  find_number-All n (x ∷ bs) {b} e (p, ps) = elim (Bool-cases (x.number == n)) [
    | inl same ↦ subst (λ y. P y × (y.number ≡ n)) (ground arith) (p, (==_iff _ _).0 same)
    | inr other ↦ find_number-All n bs (rw (other, find_number) at e) ps
  ]

  pub get-All :
      (c : BlockCache) (n : ℕ) {b : Block}
      → get c n ≡ some b
      → All P c.blocks
      → P b × (b.number ≡ n)
  unfolding get
  get-All c n e h = find_number-All n c.blocks e h
