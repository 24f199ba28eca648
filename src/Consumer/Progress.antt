-- ===== src/Consumer/Progress.antt =====
-- The loop of ProcessMessage as a whole: its acknowledgement, its end, and the counter.
use substrate_rpc_proxy.Dto.{Block, StoredMessage}
use substrate_rpc_proxy.Prelude.{
  sub64, ℕ, zero, suc, ◌+◌, ◌<◌, ◌≡◌, refl, arith, none, some, Option, ◌⊎◌, inl, inr,
}
use substrate_rpc_proxy.Rpc.Client.Connections.{ok, Network}
use substrate_rpc_proxy.Rpc.Client.Calls.{chain_get_block}
use substrate_rpc_proxy.Consumer.{
  Consumer, Run, Verdict, expired, Round, again, stop, process_round, process_loop, process_message,
  follow, finish, with_lifetime,
}
use substrate_rpc_proxy.Consumer.Verdicts.{Grounds, IsSettled, process_round-IsSettled}
use substrate_rpc_proxy.Consumer.Overflow.{process_round-IsExpiry}

module _ (net : Network) (c : Consumer) (m : StoredMessage) where
  open net use {World}

  -- Acknowledgements of a loop that returned, or that still goes on.
  abbrev pub IsAckedOnce : ℕ → Option Verdict × Run World → Type 0
  IsAckedOnce acks (none, r) = r.acks ≡ acks
  IsAckedOnce acks (some v, r) = r.acks ≡ acks + 1

  follow-IsAckedOnce :
      (rest : Run World → Option Verdict × Run World) (acks : ℕ) (ground : Verdict → Type 0)
      (x : Round × Run World)
      → IsSettled net c m acks ground x
      → ((r : Run World) → IsAckedOnce r.acks (rest r))
      → IsAckedOnce acks (follow net c m rest x)
  follow-IsAckedOnce rest acks ground (again d, r) h ih = rw (← h) (ih r)
  follow-IsAckedOnce rest acks ground (stop v, r) h ih = h.0

  process_loop-IsAckedOnce :
      (fuel : ℕ) (r : Run World) → IsAckedOnce r.acks (process_loop net c m fuel r)
  unfolding process_loop
  process_loop-IsAckedOnce zero r = refl
  process_loop-IsAckedOnce (suc fuel) r =
      follow-IsAckedOnce (process_loop net c m fuel) r.acks (Grounds net c m r) _
        (process_round-IsSettled net c m r) (process_loop-IsAckedOnce fuel)

  -- The latest block is past the deadline.
  abbrev pub IsLate : Run World → Type 0
  IsLate r =
      (b : Block) × ((chain_get_block net none "" r.session).0 ≡ ok b)
      × (m.extrinsic.lifetime_in_blocks < sub64 b.number m.extrinsic.first_seen_block_no)

  -- The latest block is past the deadline now, or after at most `k` more rounds.
  abbrev pub IsLateWithin : ℕ → Run World → Type 0
  IsLateWithin zero r = IsLate r
  IsLateWithin (suc k) r = IsLate r ⊎ IsLateWithin k (process_round net c m r).1

  follow-stop :
      (rest : Run World → Option Verdict × Run World) (x : Round × Run World) {v : Verdict}
      → x.0 ≡ stop v
      → (follow net c m rest x).0 ≡ some v
  follow-stop rest (again d, r) e = cc
  follow-stop rest (stop w, r) e = cc

  follow_returns :
      (rest : Run World → Option Verdict × Run World) (x : Round × Run World)
      → (v : Verdict) × ((rest x.1).0 ≡ some v)
      → (v : Verdict) × ((follow net c m rest x).0 ≡ some v)
  follow_returns rest (again d, r) h = h
  follow_returns rest (stop w, r) h = (w, refl)

  process_loop_late :
      (fuel : ℕ) (r : Run World)
      → IsLate r
      → (v : Verdict) × ((process_loop net c m (suc fuel) r).0 ≡ some v)
  unfolding process_loop
  process_loop_late fuel r (b, e, late) =
      (expired b, follow-stop _ _ (process_round-IsExpiry net c m r b e late).verdict)

  -- The loop returns within `k + 1` rounds if the latest block is past the deadline after at most `k`
  -- rounds.
  pub process_loop_returns :
      (k fuel : ℕ) (r : Run World)
      → k < fuel
      → IsLateWithin k r
      → (v : Verdict) × ((process_loop net c m fuel r).0 ≡ some v)
  unfolding process_loop
  process_loop_returns k zero r lt h = absurd (omega arith)
  process_loop_returns zero (suc fuel) r lt h = process_loop_late fuel r h
  process_loop_returns (suc k) (suc fuel) r lt (inl now) = process_loop_late fuel r now
  process_loop_returns (suc k) (suc fuel) r lt (inr later) =
      follow_returns (process_loop net c m fuel) (process_round net c m r)
        (process_loop_returns k fuel _ (omega arith) later)

-- After ProcessMessage: the message is acknowledged once and the counter is as before, or the loop
-- still goes on, nothing is acknowledged, and the counter is one higher.
abbrev pub IsBalanced : {W : Type 0} → Consumer → Run W → Option Verdict × Run W × Consumer → Type 0
IsBalanced c r (none, r', c') = (r'.acks ≡ r.acks) × (c'.in_progress ≡ c.in_progress + 1)
IsBalanced c r (some v, r', c') = (r'.acks ≡ r.acks + 1) × (c'.in_progress ≡ c.in_progress)

finish-IsBalanced :
    (net : Network) (m : StoredMessage) (c : Consumer) (r : Run net.World)
    (x : Option Verdict × Run net.World)
    → IsAckedOnce net (record c { in_progress = c.in_progress + 1 }) m r.acks x
    → IsBalanced c r (finish (record c { in_progress = c.in_progress + 1 }) x)
unfolding finish
finish-IsBalanced net m c r (none, last) h = (h, refl)
finish-IsBalanced net m c r (some v, last) h = (h, omega arith)

-- ProcessMessage acknowledges its message exactly once if it returns, and not at all while it goes
-- on; InProgress is back at its value when it returns.
pub process_message-IsBalanced :
    (net : Network) (c : Consumer) (m : StoredMessage) (fuel : ℕ) (r : Run net.World)
    → IsBalanced c r (process_message net c m fuel r)
unfolding process_message
process_message-IsBalanced net c m fuel r =
    finish-IsBalanced net m c r _ (process_loop-IsAckedOnce net _ (with_lifetime m) fuel _)
