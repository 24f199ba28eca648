-- ===== src/Middleware/Websocket/Loop.antt =====
-- The loop over a client's messages ends.
use substrate_rpc_proxy.Prelude.{
  ℕ, zero, suc, ◌<◌, ◌≡◌, ◌⊎◌, inl, inr, String, Bool, true, Option, none, some, Bool-cases, arith,
}
use substrate_rpc_proxy.Middleware.Websocket.{ClientContext, read_loop}

module _ {W : Type 0} (read : W → Option String × W) (next : ClientContext → String → W → Bool × W)
    (ctx : ClientContext) where
  -- Within `k` more messages a read fails, or a handler cancels the connection.
  abbrev pub EndsWithin : ℕ → W → Type 0
  EndsWithin zero w = (read w).0 ≡ none
  EndsWithin (suc k) w =
      ((read w).0 ≡ none)
      ⊎ ((b : String) × ((read w).0 ≡ some b)
          × (((next ctx b (read w).1).0 ≡ true) ⊎ EndsWithin k (next ctx b (read w).1).1))

  -- The loop ends within `k + 1` turns if within `k` messages a read fails or a handler cancels the
  -- connection.
  pub read_loop_returns :
      (k fuel : ℕ) (w : W)
      → k < fuel
      → EndsWithin k w
      → (w' : W) × (read_loop read next ctx fuel w ≡ some w')
  unfolding read_loop
  read_loop_returns k zero w lt h = absurd (omega arith)
  read_loop_returns zero (suc fuel) w lt h = ((read w).1, rw (h, read_loop))
  read_loop_returns (suc k) (suc fuel) w lt (inl h) = ((read w).1, rw (h, read_loop))
  read_loop_returns (suc k) (suc fuel) w lt (inr (b, got, inl stop)) =
      ((next ctx b (read w).1).1, rw (got, read_loop, stop))
  read_loop_returns (suc k) (suc fuel) w lt (inr (b, got, inr later)) =
      elim (Bool-cases ((next ctx b (read w).1).0)) [
        | inl t ↦ ((next ctx b (read w).1).1, rw (got, read_loop, t))
        | inr f ↦
            let (w', e) =
              read_loop_returns k fuel ((next ctx b (read w).1).1) (omega arith) later in
            (w', rw (got, read_loop, f) e)
      ]
