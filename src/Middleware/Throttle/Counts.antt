-- ===== src/Middleware/Throttle/Counts.antt =====
-- The tokens in the channels and in the hands of requests add up.
use mathlib.Core.Path.{subst}
use substrate_rpc_proxy.Prelude.{
  ℕ, ◌+◌, ◌<◌, ◌≡◌, refl, sym, Bool, List, [], ◌∷◌, some, arith, Option-cases, some_inj,
  none-ne-some, inl, inr, All,
}
use substrate_rpc_proxy.Prelude.Family.{put, sum_below, sum_below-put, sum_below-const}
use substrate_rpc_proxy.Middleware.Throttle.{
  Phase, outside, running, finished, Event, cancelled_first, Throttler, step, System, advance, run,
  start_of, new_throttler,
}

abbrev pub holds_token : Phase → ℕ
holds_token running = 1
holds_token _ = 0

abbrev pub holds_backlog : Phase → ℕ
holds_backlog outside = 0
holds_backlog (finished _) = 0
holds_backlog _ = 1

-- With `n` requests: each token is in its channel or held by a request.
pub record IsBalanced (limit backlog_limit n : ℕ) (s : System) : Type 0 where
  pub tokens : s.throttler.tokens + sum_below holds_token s.phase n ≡ limit
  pub backlog :
      s.throttler.backlog_tokens + sum_below holds_backlog s.phase n ≡ limit + backlog_limit

-- A step moves a token between the channel and the request.
step-tokens :
    (ws : Bool) (e : Event) (t t' : Throttler) (p p' : Phase)
    → step ws e t p ≡ some (p', t')
    → (t'.tokens + holds_token p' ≡ t.tokens + holds_token p)
      × (t'.backlog_tokens + holds_backlog p' ≡ t.backlog_tokens + holds_backlog p)
unfolding step
step-tokens ws cancelled_first t t' outside p' h = ground arith
step-tokens ws e t t' p p' h = ground arith

pub advance-split :
    (is_websocket : ℕ → Bool) (i : ℕ) (e : Event) (s s' : System)
    → advance is_websocket i e s ≡ some s'
    → (p : Phase) × (t : Throttler) × (step (is_websocket i) e s.throttler (s.phase i)
        ≡ some (p, t))
      × (s' ≡ record { throttler = t; phase = put s.phase i p })
unfolding advance
advance-split is_websocket i e s s' h =
    elim (Option-cases (step (is_websocket i) e s.throttler (s.phase i))) [
      | inl stuck ↦ cc (rw (stuck, advance) at h)
      | inr (q, found) ↦ (q.0, q.1, found, sym (some_inj (rw (found, advance) at h)))
    ]

module _ (limit backlog_limit n : ℕ) (is_websocket : ℕ → Bool) where
  pub advance-IsBalanced :
      (i : ℕ) (e : Event) (s s' : System)
      → i < n
      → advance is_websocket i e s ≡ some s'
      → IsBalanced limit backlog_limit n s
      → IsBalanced limit backlog_limit n s'
  advance-IsBalanced i e s s' lt h b =
      let (p, t, found, same) = advance-split is_websocket i e s s' h in
      let moves = step-tokens (is_websocket i) e s.throttler t (s.phase i) p found in
      rw same (record {
        tokens = omega (arith, b.tokens, moves.0, sum_below-put holds_token s.phase i p n lt);
        backlog = omega (arith, b.backlog, moves.1, sum_below-put holds_backlog s.phase i p n lt);
      })

  pub run-IsBalanced :
      (es : List (ℕ × Event)) (s s' : System)
      → All (λ x. x.0 < n) es
      → run is_websocket es s ≡ some s'
      → IsBalanced limit backlog_limit n s
      → IsBalanced limit backlog_limit n s'
  unfolding run
  run-IsBalanced [] s s' _ h b = subst (IsBalanced limit backlog_limit n) (some_inj h) b
  run-IsBalanced ((i, e) ∷ es) s s' (lt, lts) h b =
      elim (Option-cases (advance is_websocket i e s)) [
        | inl stuck ↦ absurd (none-ne-some (rw (stuck, run) at h))
        | inr (r, found) ↦
            run-IsBalanced es r s' lts (rw (found, run) at h)
              (advance-IsBalanced i e s r lt found b)
      ]

  pub start-IsBalanced :
      (t : Throttler)
      → new_throttler limit backlog_limit ≡ some t
      → IsBalanced limit backlog_limit n (start_of t)
  unfolding new_throttler
  start-IsBalanced t h = record {
    tokens = ground (arith, sum_below-const holds_token outside n refl);
    backlog = ground (arith, sum_below-const holds_backlog outside n refl);
  }

  -- The states that the middleware reaches with `n` requests, in any order of events.
  pub record Reached (s : System) : Type 0 where
    pub throttler : Throttler
    pub created : new_throttler limit backlog_limit ≡ some throttler
    pub events : List (ℕ × Event)
    pub numbered : All (λ x. x.0 < n) events
    pub history : run is_websocket events (start_of throttler) ≡ some s

  pub Reached-IsBalanced : (s : System) → Reached s → IsBalanced limit backlog_limit n s
  Reached-IsBalanced s r =
      run-IsBalanced r.events (start_of r.throttler) s r.numbered r.history
        (start-IsBalanced r.throttler r.created)
