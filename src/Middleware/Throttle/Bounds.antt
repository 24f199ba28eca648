-- ===== src/Middleware/Throttle/Bounds.antt =====
-- What the throttler guarantees in every state that it reaches.
use substrate_rpc_proxy.Prelude.{ℕ, ◌+◌, ◌≤◌, ◌<◌, ◌≡◌, refl, Bool, some, arith}
use substrate_rpc_proxy.Prelude.Family.{sum_below, sum_below-zero}
use substrate_rpc_proxy.Middleware.Throttle.{
  Phase, outside, running, overflow, System, advance, step, Throttler,
}
use substrate_rpc_proxy.Middleware.Throttle.Counts.{
  holds_token, holds_backlog, IsBalanced, Reached, Reached-IsBalanced, advance-split,
}

-- Requests that are being served, and requests that wait, are served or are about to leave.
abbrev pub running_count : System → ℕ → ℕ
running_count s n = sum_below holds_token s.phase n

abbrev pub inside_count : System → ℕ → ℕ
inside_count s n = sum_below holds_backlog s.phase n

token_of_backlog : (p : Phase) → holds_backlog p ≡ 0 → holds_token p ≡ 0
token_of_backlog running h = absurd (omega arith)
token_of_backlog p h = refl

module _ (limit backlog_limit n : ℕ) (is_websocket : ℕ → Bool) (s : System)
    (reached : Reached limit backlog_limit n is_websocket s) where
  balanced : IsBalanced limit backlog_limit n s
  balanced = Reached-IsBalanced limit backlog_limit n is_websocket s reached

  -- In every reachable state at most `limit` requests are being served, and at most `limit` and
  -- `backlog_limit` together have been let in and not left.
  pub throttle_bounds : (running_count s n ≤ limit) × (inside_count s n ≤ limit + backlog_limit)
  throttle_bounds = omega (arith, balanced.tokens, balanced.backlog)

  overflow-step :
      (ws : Bool) (p p' : Phase) {t' : Throttler}
      → step ws overflow s.throttler p ≡ some (p', t')
      → s.throttler.backlog_tokens ≡ 0
  unfolding step
  overflow-step ws outside p' h = ground arith
  overflow-step ws p p' h = ground arith

  -- A request is refused for lack of capacity only while `limit + backlog_limit` others are inside.
  pub overflow_full :
      (i : ℕ) (s' : System)
      → advance is_websocket i overflow s ≡ some s'
      → inside_count s n ≡ limit + backlog_limit
  overflow_full i s' h =
      let (p, t, found, same) = advance-split is_websocket i overflow s s' h in
      omega (arith, balanced.backlog, overflow-step (is_websocket i) (s.phase i) p found)

  -- When no request is inside, all tokens are back in their channels.
  pub tokens_returned :
      ((i : ℕ) → i < n → holds_backlog (s.phase i) ≡ 0)
      → (s.throttler.tokens ≡ limit) × (s.throttler.backlog_tokens ≡ limit + backlog_limit)
  tokens_returned quiet = omega (
    arith,
    balanced.tokens,
    balanced.backlog,
    sum_below-zero holds_token s.phase n (λ i lt. token_of_backlog (s.phase i) (quiet i lt)),
    sum_below-zero holds_backlog s.phase n quiet,
  )
