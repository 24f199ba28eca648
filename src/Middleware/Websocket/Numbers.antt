-- ===== src/Middleware/Websocket/Numbers.antt =====
-- When two connections get the same number.
use substrate_rpc_proxy.Prelude.{
  ℕ, suc, ◌+◌, ◌%◌, ◌^◌, ◌<◌, ◌≡◌, ◌↔◌, refl, List, [], ◌∷◌, ◌++◌, arith,
}
use substrate_rpc_proxy.Middleware.Websocket.{
  Use, add_one, read_number, Counter, use_counter, use_all,
}

-- How many additions there are.
abbrev pub additions : List Use → ℕ
additions [] = 0
additions (add_one i ∷ us) = suc (additions us)
additions (read_number i ∷ us) = additions us

-- The number of the last read.
abbrev pub last_number : List (ℕ × ℕ) → ℕ
last_number [] = 0
last_number ((i, n) ∷ r) = n

reqid-use_all :
    (us : List Use) (c : Counter)
    → c.reqid < 2 ^ 64
    → (use_all us c).reqid ≡ (c.reqid + additions us) % 2 ^ 64
unfolding use_all use_counter
reqid-use_all [] c h = omega arith
reqid-use_all (add_one i ∷ us) c h =
    omega (arith, reqid-use_all us (use_counter (add_one i) c) (omega arith))
reqid-use_all (read_number i ∷ us) c h = reqid-use_all us (use_counter (read_number i) c) h

use_all-append : (us vs : List Use) (c : Counter) → use_all (us ++ vs) c ≡ use_all vs (use_all us c)
unfolding use_all
use_all-append [] vs c = refl
use_all-append (u ∷ us) vs c = use_all-append us vs (use_counter u c)

-- A connection that reads its number after another one has the same number exactly if the counter was
-- not increased between the two reads, however many requests increased it before them. It is
-- increased less than 2^64 times between.
pub use_all-same_number_iff :
    (i j : ℕ) (between : List Use) (c : Counter)
    → c.reqid < 2 ^ 64
    → additions between < 2 ^ 64
    → (last_number (use_all (between ++ read_number j ∷ []) (use_counter (read_number i) c)).numbers
        ≡ last_number (use_counter (read_number i) c).numbers)
      ↔ (additions between ≡ 0)
unfolding use_counter use_all
use_all-same_number_iff i j between c h few =
    rw (use_all-append between (read_number j ∷ []) (use_counter (read_number i) c))
      (grind (arith, reqid-use_all between (use_counter (read_number i) c) h))
