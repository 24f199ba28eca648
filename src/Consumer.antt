-- ===== src/Consumer.antt =====
-- cmd/consumer/consumer.go: one message of the stream, followed until its extrinsic is in a block, is
-- rejected or is out of date. Sleeping has no effect here but for its length, and the
-- other goroutines that share InProgress are left out. A Go `int` that would be negative stands for 0
-- rounds of the lookup.
pub mod Progress
pub mod Verdicts
pub mod Overflow
use substrate_rpc_proxy.Dto.{RpcError, RpcFrame, Block, ExtrinsicData, StoredMessage}
use substrate_rpc_proxy.Prelude.{
  sub64, ℕ, zero, suc, ◌+◌, ◌-◌, ◌%◌, ◌^◌, String, Bool, true, false, List, [], ◌∷◌, Option, none,
  some, ltb, ◌==◌, if◌then◌else◌,
}
use substrate_rpc_proxy.Rpc.Client.Connections.{
  Failure, Result, ok, err, Network, Session, raw_request,
}
use substrate_rpc_proxy.Rpc.Client.Calls.{chain_get_block, find_extrinsics_block}

-- c.mon.ProcessEvent
pub data Metric : Type 0 where
  messages_in_progress : ℕ → Metric
  extrinsics_count resubmissions_count expired_count invalid_count already_added_count : Metric
  block_gap : ℕ → Metric

-- Durations are in seconds.
pub record Consumer : Type 0 where
  pub retry_delay : ℕ
  pub in_progress : ℕ
  pub try_resubmit : Bool

-- What the goroutine changes: the client, the number of calls of `ack`, the events, latest first.
pub record Run (W : Type 0) : Type 0 where
  pub session : Session W
  pub acks : ℕ
  pub metrics : List Metric

-- Why the loop returned.
pub data Verdict : Type 0 where
  expired : Block → Verdict
  included : Block → Verdict
  rejected : RpcError → Verdict

-- A round either goes on after a sleep or returns.
pub data Round : Type 0 where
  again : ℕ → Round
  stop : Verdict → Round

-- int(n) as a number of rounds
abbrev pub rounds_of_int : ℕ → ℕ
rounds_of_int n = if ltb n (2 ^ 63) then n else 0

abbrev pub error_delay : ℕ
error_delay = 5

abbrev pub default_lifetime : ℕ
default_lifetime = 1024

-- Immortal extrinsics get a deadline.
unfoldable pub with_lifetime : StoredMessage → StoredMessage
with_lifetime m =
    let e = m.extrinsic in
    if e.lifetime_in_blocks == 0
    then record m { extrinsic = record e { lifetime_in_blocks = default_lifetime } }
    else m

abbrev pub emit : {W : Type 0} → Metric → Run W → Run W
emit metric r = record r { metrics = metric ∷ r.metrics }

abbrev pub ack : {W : Type 0} → Run W → Run W
ack r = record r { acks = r.acks + 1 }

module _ (net : Network) (c : Consumer) (m : StoredMessage) where
  open net use {World}

  -- The response to a resubmission.
  unfoldable pub after_response : Option RpcError → Run World → Round × Run World
  after_response none r = (again c.retry_delay, emit resubmissions_count r)
  after_response (some e) r =
      (stop (rejected e), ack (emit invalid_count (emit resubmissions_count r)))

  unfoldable pub after_resubmit : Run World → Result RpcFrame × Session World → Round × Run World
  unfolding after_response
  after_resubmit r (err f, s) = (again error_delay, record r { session = s })
  after_resubmit r (ok resp, s) = after_response resp.error (record r { session = s })

  -- The result of the lookup in the chain.
  unfoldable pub after_lookup :
      Run World → Result (Option Block) × Session World → Round × Run World
  unfolding after_resubmit raw_request
  after_lookup r (err f, s) = (again error_delay, record r { session = s })
  after_lookup r (ok none, s) =
      if c.try_resubmit
      then after_resubmit (record r { session = s }) (raw_request net none m.rpc_frame.raw s)
      else (again c.retry_delay, record r { session = s })
  after_lookup r (ok (some b), s) = (
    stop (included b),
    ack (
        emit already_added_count (
          emit (block_gap (sub64 b.number m.extrinsic.first_seen_block_no))
            (record r { session = s }))),
  )

  -- The latest block, against the deadline.
  unfoldable pub after_current : Run World → Result Block × Session World → Round × Run World
  unfolding after_lookup find_extrinsics_block
  after_current r (err f, s) = (again error_delay, record r { session = s })
  after_current r (ok b, s) =
      let gap = sub64 b.number m.extrinsic.first_seen_block_no in
      if ltb m.extrinsic.lifetime_in_blocks gap
      then (stop (expired b), emit expired_count (ack (record r { session = s })))
      else (after_lookup r
          (find_extrinsics_block net none b.hash m.extrinsic.payload (rounds_of_int gap) s))

  -- One round of the loop, after its sleep.
  unfoldable pub process_round : Run World → Round × Run World
  unfolding after_current chain_get_block
  process_round r = after_current r (chain_get_block net none "" r.session)

  -- `continue` or `return` at the end of a round.
  abbrev pub follow :
      (Run World → Option Verdict × Run World) → Round × Run World → Option Verdict × Run World
  follow rest (again delay, r) = rest r
  follow rest (stop v, r) = (some v, r)

  -- At most `fuel` rounds; `none` for a loop that still goes on.
  unfoldable pub process_loop : ℕ → Run World → Option Verdict × Run World
  process_loop zero r = (none, r)
  process_loop (suc fuel) r = follow (process_loop fuel) (process_round r)

-- The deferred function, which runs only when the loop returns.
unfoldable pub finish :
    {W : Type 0} → Consumer → Option Verdict × Run W → Option Verdict × Run W × Consumer
finish busy (none, last) = (none, last, busy)
finish busy (some v, last) =
    let rested = record busy { in_progress = busy.in_progress - 1 } in
    (some v, emit (messages_in_progress rested.in_progress) last, rested)

-- ProcessMessage: the counter goes up, the loop runs, the deferred call counts down.
unfoldable pub process_message :
    (net : Network) (c : Consumer) (m : StoredMessage) (fuel : ℕ) (r : Run net.World)
    → Option Verdict × Run net.World × Consumer
unfolding process_loop with_lifetime finish
process_message net c m fuel r =
    let busy = record c { in_progress = c.in_progress + 1 } in
    let started = emit extrinsics_count (emit (messages_in_progress busy.in_progress) r) in
    finish busy (process_loop net busy (with_lifetime m) fuel started)
