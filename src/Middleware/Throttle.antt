-- ===== src/Middleware/Throttle.antt =====
-- pkg/middleware/throttle.go: `limit` tokens to be served with, and `limit + backlog_limit` tokens
-- to be let in with. Requests are numbered; each channel operation is one step of one request, and
-- the scheduler, the timer, the clients' contexts and the choice of a `select` are the events.
pub mod Counts
pub mod Bounds
use substrate_rpc_proxy.Prelude.{
  ℕ, zero, suc, ◌+◌, ◌-◌, String, Bool, true, false, List, [], ◌∷◌, Option, none, some, ltb, ◌==◌,
  if◌then◌else◌,
}
use substrate_rpc_proxy.Prelude.Family.{put}

abbrev pub err_capacity_exceeded : String
err_capacity_exceeded = "server capacity exceeded"

abbrev pub err_timed_out : String
err_timed_out = "timed out while waiting for a pending request to complete"

abbrev pub err_context_canceled : String
err_context_canceled = "context was canceled"

-- A websocket's connection is cancelled with the error, another request gets it with status 429.
pub data Reply : Type 0 where
  served : Reply
  cancel_connection : String → Reply
  too_many_requests : String → Reply

abbrev pub refuse_with : Bool → String → String → Reply
refuse_with true for_websocket for_http = cancel_connection for_websocket
refuse_with false for_websocket for_http = too_many_requests for_http

-- Where a request stands. `leaving` still owes its backlog token.
pub data Phase : Type 0 where
  outside waiting running : Phase
  leaving finished : Reply → Phase

pub data Event : Type 0 where
  cancelled_first overflow enter time_out cancelled start done leave : Event

pub record Throttler : Type 0 where
  pub tokens : ℕ
  pub backlog_tokens : ℕ

-- ThrottleWithOpts panics on a limit of 0.
unfoldable pub new_throttler : ℕ → ℕ → Option Throttler
new_throttler limit backlog_limit =
    if ltb limit 1
    then none
    else some (record { tokens = limit; backlog_tokens = limit + backlog_limit })

-- `<-t.tokens`, which blocks on an empty channel.
abbrev pub take_token : Throttler → Option Throttler
take_token t = if ltb 0 t.tokens then some (record t { tokens = t.tokens - 1 }) else none

abbrev pub take_backlog : Throttler → Option Throttler
take_backlog t =
    if ltb 0 t.backlog_tokens
    then some (record t { backlog_tokens = t.backlog_tokens - 1 })
    else none

abbrev pub moved : Phase → Option Throttler → Option (Phase × Throttler)
moved p none = none
moved p (some t) = some (p, t)

-- One step of a request; `none` where the event cannot happen.
unfoldable pub step : Bool → Event → Throttler → Phase → Option (Phase × Throttler)
step ws cancelled_first t outside =
    some (finished (refuse_with ws err_context_canceled err_context_canceled), t)
step ws overflow t outside =
    if t.backlog_tokens == 0
    then some (finished (refuse_with ws err_capacity_exceeded err_capacity_exceeded), t)
    else none
step ws enter t outside = moved waiting (take_backlog t)
step ws time_out t waiting = some (leaving (refuse_with ws err_capacity_exceeded err_timed_out), t)
step ws cancelled t waiting =
    some (leaving (refuse_with ws err_capacity_exceeded err_context_canceled), t)
step ws start t waiting = moved running (take_token t)
step ws done t running = some (leaving served, record t { tokens = t.tokens + 1 })
step ws leave t (leaving r) = some (finished r, record t { backlog_tokens = t.backlog_tokens + 1 })
step ws e t p = none

-- All requests and the channels that they share.
pub record System : Type 0 where
  pub throttler : Throttler
  pub phase : ℕ → Phase

-- The event at request `i`; `is_websocket` is fixed for each request.
unfoldable pub advance : (ℕ → Bool) → ℕ → Event → System → Option System
unfolding step
advance is_websocket i e s = elim (step (is_websocket i) e s.throttler (s.phase i)) [
  | none ↦ none
  | some (p, t) ↦ some (record { throttler = t; phase = put s.phase i p })
]

abbrev pub start_of : Throttler → System
start_of t = record { throttler = t; phase = λ i. outside }

unfoldable pub run : (ℕ → Bool) → List (ℕ × Event) → System → Option System
unfolding advance
run is_websocket [] s = some s
run is_websocket ((i, e) ∷ es) s = elim (advance is_websocket i e s) [
  | none ↦ none
  | some s' ↦ run is_websocket es s'
]
