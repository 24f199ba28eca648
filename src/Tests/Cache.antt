-- ===== src/Tests/Cache.antt =====
-- A cache of two blocks, with room.
use substrate_rpc_proxy.Dto.{Block}
use substrate_rpc_proxy.Prelude.{ℕ, ◌≡◌, ◌≢◌, refl, [], ◌∷◌, arith}
use substrate_rpc_proxy.Rpc.BlockCache.{BlockCache, add}
use substrate_rpc_proxy.Rpc.BlockCache.Order.{IsValid, add-IsValid}

abbrev block_at : ℕ → Block
block_at n = record { raw = ""; number = n; parent_hash = ""; hash = "0x"; extrinsics = [] }

abbrev two_blocks : BlockCache
two_blocks = record { blocks = block_at 9 ∷ block_at 5 ∷ []; capacity = 2 }

two_blocks-IsValid : IsValid two_blocks
two_blocks-IsValid = omega arith

filled : two_blocks.blocks ≢ []
filled e = cc

-- A fourth block makes the slice shrink to its capacity first.
full_run :
    (add (add (add two_blocks (block_at 7)) (block_at 8)) (block_at 6)).blocks
    ≡ block_at 9 ∷ block_at 8 ∷ []
unfolding add
full_run = refl

add-IsValid_example : IsValid (add two_blocks (block_at 7))
add-IsValid_example = add-IsValid two_blocks (block_at 7) two_blocks-IsValid
