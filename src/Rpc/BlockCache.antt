-- ===== src/Rpc/BlockCache.antt =====
-- pkg/rpc/block_cache.go. The cache is read and written by one goroutine at a time here; `append`
-- and the assignment that follows it are one write of the slice.
pub mod Insert
pub mod Order
pub mod Lookup
use substrate_rpc_proxy.Dto.{Block}
use substrate_rpc_proxy.Prelude.{
  ℕ, zero, suc, ◌+◌, ◌*◌, String, List, [], ◌∷◌, ◌++◌, Option, none, some, ltb, ◌==◌, str_eq,
  if◌then◌else◌, length, get_elem?, take, drop, set,
}

pub record BlockCache : Type 0 where
  pub blocks : List Block
  pub capacity : ℕ

unfoldable pub find_hash : String → List Block → Option Block
find_hash hash [] = none
find_hash hash (b ∷ bs) = if str_eq b.hash hash then some b else find_hash hash bs

unfoldable pub get_by_hash : BlockCache → String → Option Block
unfolding find_hash
get_by_hash cache hash = find_hash hash cache.blocks

unfoldable pub find_number : ℕ → List Block → Option Block
find_number n [] = none
find_number n (b ∷ bs) = if b.number == n then some b else find_number n bs

unfoldable pub get : BlockCache → ℕ → Option Block
unfolding find_number
get cache n = find_number n cache.blocks

-- blocks = append(blocks[:i+1], blocks[i:]...); blocks[i] = block
unfoldable pub insert_at : ℕ → Block → List Block → List Block
insert_at i block blocks = set (take (suc i) blocks ++ drop i blocks) i block

-- The loop of Add, with `rounds` indices left from `i` on.
unfoldable pub add_loop : ℕ → ℕ → Block → List Block → List Block
unfolding insert_at
add_loop zero i block blocks = blocks
add_loop (suc rounds) i block blocks = elim (get_elem? blocks i) [
  | none ↦ blocks
  | some b ↦
      if ltb b.number block.number
      then insert_at i block blocks
      else (if block.number == b.number then blocks else add_loop rounds (suc i) block blocks)
]

-- The slice before the loop: cut to `capacity` where it would pass twice that.
unfoldable pub trim : BlockCache → List Block
trim c = if ltb (c.capacity * 2) (length c.blocks + 1) then take c.capacity c.blocks else c.blocks

unfoldable pub add_to : Block → List Block → List Block → List Block
unfolding add_loop
add_to block [] trimmed = block ∷ []
add_to block (_ ∷ _) trimmed = add_loop (length trimmed) 0 block trimmed

unfoldable pub add : BlockCache → Block → BlockCache
unfolding trim add_to
add c block = record c { blocks = add_to block c.blocks (trim c) }
