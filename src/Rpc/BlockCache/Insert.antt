-- ===== src/Rpc/BlockCache/Insert.antt =====
-- The index loop of BlockCache.Add against an insertion by recursion on the list.
use mathlib.Core.List.{append_assoc}
use substrate_rpc_proxy.Dto.{Block}
use substrate_rpc_proxy.Prelude.{
  ℕ, suc, ◌≡◌, refl, sym, ◌∙◌, List, [], ◌∷◌, ◌++◌, ltb, ◌==◌, if◌then◌else◌, length, length-append,
  get_elem?-append_here, take-append_here, drop-append_here, set-append_here, arith, ◌≢◌,
}
use substrate_rpc_proxy.Rpc.BlockCache.{BlockCache, insert_at, add_loop, trim, add_to, add}

-- The block goes before the first block with a lower number, and nowhere if its number is there
-- already or if no block has a lower number.
unfoldable pub insert : Block → List Block → List Block
insert block [] = []
insert block (b ∷ bs) =
    if ltb b.number block.number
    then block ∷ b ∷ bs
    else (if block.number == b.number then b ∷ bs else b ∷ insert block bs)

insert_at-append :
    (block b : Block) (pre suf : List Block)
    → insert_at (length pre) block (pre ++ b ∷ suf) ≡ pre ++ block ∷ b ∷ suf
unfolding insert_at
insert_at-append block b pre suf =
    rw (take-append_here pre suf b, drop-append_here pre (b ∷ suf), append_assoc)
      (set-append_here pre (b ∷ suf) b block)

add_loop-skip :
    (block b : Block) (n : ℕ) (pre suf : List Block)
    → add_loop n (length (pre ++ b ∷ [])) block ((pre ++ b ∷ []) ++ suf)
      ≡ add_loop n (suc (length pre)) block (pre ++ b ∷ suf)
add_loop-skip block b n pre suf =
    let e : length (pre ++ b ∷ []) ≡ suc (length pre) = omega (arith, length-append pre (b ∷ [])) in
    rw (e, append_assoc)

add_loop-eq-insert :
    (block : Block) (pre suf : List Block)
    → add_loop (length suf) (length pre) block (pre ++ suf) ≡ pre ++ insert block suf
unfolding add_loop insert
add_loop-eq-insert block pre [] = refl
add_loop-eq-insert block pre (b ∷ suf) =
    let rest =
      sym (add_loop-skip block b (length suf) pre suf)
      ∙ add_loop-eq-insert block (pre ++ b ∷ []) suf
      ∙ append_assoc pre (b ∷ []) (insert block suf) in
    rw (get_elem?-append_here pre suf b, add_loop)
      (ground (arith, insert_at-append block b pre suf, rest))

add_to-filled :
    (block : Block) (xs trimmed : List Block)
    → xs ≢ []
    → add_to block xs trimmed ≡ insert block trimmed
unfolding add_to
add_to-filled block [] trimmed filled = absurd (filled refl)
add_to-filled block (b ∷ bs) trimmed filled = add_loop-eq-insert block [] trimmed

-- On a cache with blocks, Add is: trim to `capacity` if the slice would pass twice that, and put the
-- block in its place by number.
pub add-eq-insert :
    (c : BlockCache) (block : Block) → c.blocks ≢ [] → (add c block).blocks ≡ insert block (trim c)
unfolding add
add-eq-insert c block filled = add_to-filled block c.blocks (trim c) filled

add_to-empty :
    (block : Block) (xs trimmed : List Block) → xs ≡ [] → add_to block xs trimmed ≡ block ∷ []
unfolding add_to
add_to-empty block xs trimmed e = rw (e, add_to)

pub add-empty : (c : BlockCache) (block : Block) → c.blocks ≡ [] → (add c block).blocks ≡ block ∷ []
unfolding add
add-empty c block e = add_to-empty block c.blocks (trim c) e

pub filled_of_eq : {b : Block} {bs cs : List Block} → cs ≡ b ∷ bs → cs ≢ []
filled_of_eq e f = cc
