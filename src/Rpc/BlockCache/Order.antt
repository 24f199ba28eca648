-- ===== src/Rpc/BlockCache/Order.antt =====
-- The invariant of the cache: numbers fall strictly, and the slice stays within twice the capacity.
use substrate_rpc_proxy.Dto.{Block}
use substrate_rpc_proxy.Prelude.{
  ℕ, zero, suc, ◌+◌, ◌*◌, ◌≤◌, ◌<◌, max, ◌≡◌, refl, List, [], ◌∷◌, take, length, length-take, All,
  All-take, arith, inl, inr, List-cases,
}
use substrate_rpc_proxy.Rpc.BlockCache.{BlockCache, trim, add}
use substrate_rpc_proxy.Rpc.BlockCache.Insert.{insert, add-eq-insert, add-empty, filled_of_eq}

-- Every block of the list is below `n`.
abbrev pub IsBelow : ℕ → List Block → Type 0
IsBelow n bs = All (λ b. b.number < n) bs

abbrev pub IsDescending : List Block → Type 0
IsDescending [] = Unit
IsDescending (b ∷ bs) = IsBelow b.number bs × IsDescending bs

pub record IsValid (c : BlockCache) : Type 0 where
  pub descending : IsDescending c.blocks
  pub bounded : length c.blocks ≤ max 1 (c.capacity * 2)

IsBelow-trans : (m n : ℕ) (bs : List Block) → m ≤ n → IsBelow m bs → IsBelow n bs
IsBelow-trans m n [] h _ = tt
IsBelow-trans m n (b ∷ bs) h (p, ps) = (omega arith, IsBelow-trans m n bs h ps)

insert-IsBelow :
    (n : ℕ) (b : Block) (bs : List Block) → b.number < n → IsBelow n bs → IsBelow n (insert b bs)
unfolding insert
insert-IsBelow n b [] h _ = tt
insert-IsBelow n b (x ∷ bs) h (p, ps) = ground (arith, insert-IsBelow n b bs h ps)

insert-IsDescending : (b : Block) (bs : List Block) → IsDescending bs → IsDescending (insert b bs)
unfolding insert
insert-IsDescending b [] _ = tt
insert-IsDescending b (x ∷ bs) (p, ps) = ground (
  arith,
  insert-IsDescending b bs ps,
  insert-IsBelow x.number b bs,
  IsBelow-trans x.number b.number bs,
)

length-insert : (b : Block) (bs : List Block) → length (insert b bs) ≤ length bs + 1
unfolding insert
length-insert b [] = omega arith
length-insert b (x ∷ bs) = ground (arith, length-insert b bs)

take-IsDescending : (n : ℕ) (bs : List Block) → IsDescending bs → IsDescending (take n bs)
take-IsDescending zero bs _ = tt
take-IsDescending (suc n) [] _ = tt
take-IsDescending (suc n) (b ∷ bs) (p, ps) =
    (All-take (λ x. x.number < b.number) n bs p, take-IsDescending n bs ps)

pub trim-IsDescending : (c : BlockCache) → IsDescending c.blocks → IsDescending (trim c)
unfolding trim
trim-IsDescending c h = ground (arith, take-IsDescending c.capacity c.blocks h)

length-trim : (c : BlockCache) → length (trim c) + 1 ≤ max 1 (c.capacity * 2)
unfolding trim
length-trim c = ground (arith, length-take c.capacity c.blocks)

pub capacity-add : (c : BlockCache) (block : Block) → (add c block).capacity ≡ c.capacity
unfolding add
capacity-add c block = refl

-- Add keeps the cache in strictly descending order of block numbers, with at most twice its capacity
-- of blocks (one, for a capacity of zero).
pub add-IsValid : (c : BlockCache) (block : Block) → IsValid c → IsValid (add c block)
add-IsValid c block v = elim (List-cases c.blocks) [
  | inl e ↦ record {
    descending = rw (add-empty c block e) (tt, tt);
    bounded = rw (add-empty c block e) (omega arith);
  }
  | inr (b, bs, e) ↦ record {
    descending =
        rw (add-eq-insert c block (filled_of_eq e))
          (insert-IsDescending block (trim c) (trim-IsDescending c v.descending));
    bounded =
        rw (add-eq-insert c block (filled_of_eq e), capacity-add c block)
          (omega (arith, length-insert block (trim c), length-trim c));
  }
]
