-- ===== src/Consumer/Verdicts.antt =====
-- When the consumer stops following an extrinsic, and that it acknowledges the message then.
use substrate_rpc_proxy.Dto.{RpcError, RpcFrame, Block, StoredMessage}
use substrate_rpc_proxy.Prelude.{
  sub64, ℕ, zero, suc, ◌+◌, ◌<◌, ◌≡◌, refl, ap, String, true, Option, none, some, ltb, ltb→lt,
  if◌then◌else◌, inl, inr, Bool-cases,
}
use substrate_rpc_proxy.Rpc.Client.Connections.{
  Result, ok, err, Network, Session, return, raw_request,
}
use substrate_rpc_proxy.Rpc.Client.Calls.{chain_get_block, contains, walk, find_extrinsics_block}
use substrate_rpc_proxy.Rpc.Client.Search.{Ensures, continue-Ensures}
use substrate_rpc_proxy.Consumer.{
  Consumer, Run, Verdict, expired, included, rejected, Round, again, stop, after_response,
  after_resubmit, after_lookup, after_current, process_round,
}

abbrev Holds : {W : Type 0} → String → Option Block → Session W → Type 0
Holds extrinsic none s = Unit
Holds extrinsic (some b) s = contains extrinsic b.extrinsics ≡ true

module _ (net : Network) where
  open net use {World}

  abbrev Nothing : {A : Type 0} → A → Session World → Type 0
  Nothing a s = Unit

  trivially : {A : Type 0} (x : Result A × Session World) → Ensures Nothing (λ s. Unit) x
  trivially (ok a, s) = tt
  trivially (err e, s) = tt

  -- A block that the walk returns holds the extrinsic.
  walk-Holds :
      (name : Option String) (rounds : ℕ) (hash extrinsic : String) (s : Session World)
      → Ensures (Holds extrinsic) (λ s'. Unit) (walk net name rounds hash extrinsic s)
  unfolding walk
  walk-Holds name zero hash extrinsic s = tt
  walk-Holds name (suc rounds) hash extrinsic s =
      continue-Ensures Nothing (Holds extrinsic) (λ s'. Unit) _ _
        (trivially (chain_get_block net name hash s))
        (λ b s' h. choose b s' (walk-Holds name rounds b.parent_hash extrinsic s'))
    where
      choose :
          (b : Block) (s' : Session World)
          → Ensures (Holds extrinsic) (λ s'. Unit) (walk net name rounds b.parent_hash extrinsic s')
          → Ensures
              (Holds extrinsic)
              (λ s'. Unit)
              ((if contains extrinsic b.extrinsics
                  then return (some b)
                  else walk net name rounds b.parent_hash extrinsic)
                s')
      choose b s' later = elim (Bool-cases (contains extrinsic b.extrinsics)) [
        | inl here ↦ rw here here
        | inr other ↦ rw other later
      ]

  module _ (c : Consumer) (m : StoredMessage) where
    -- The grounds on which a round may give up the message.
    abbrev pub Grounds : Run World → Verdict → Type 0
    Grounds r (expired b) =
        ((chain_get_block net none "" r.session).0 ≡ ok b)
        × (m.extrinsic.lifetime_in_blocks < sub64 b.number m.extrinsic.first_seen_block_no)
    Grounds r (included b) = contains m.extrinsic.payload b.extrinsics ≡ true
    Grounds r (rejected e) =
        (c.try_resubmit ≡ true)
        × (s : Session World) × (resp : RpcFrame) × ((raw_request net none m.rpc_frame.raw s).0
            ≡ ok resp)
        × (resp.error ≡ some e)

    -- What a round has done: it stopped on some ground and acknowledged once, or it goes on, and has
    -- not acknowledged.
    abbrev pub IsSettled : ℕ → (Verdict → Type 0) → Round × Run World → Type 0
    IsSettled acks ground (again d, r') = r'.acks ≡ acks
    IsSettled acks ground (stop v, r') = (r'.acks ≡ acks + 1) × ground v

    module _ (ground : Verdict → Type 0) where
      after_response-IsSettled :
          (o : Option RpcError) (r : Run World)
          → ((e : RpcError) → o ≡ some e → ground (rejected e))
          → IsSettled r.acks ground (after_response net c m o r)
      unfolding after_response
      after_response-IsSettled none r h = refl
      after_response-IsSettled (some e) r h = (refl, h e refl)

      after_resubmit-IsSettled :
          (r : Run World) (x : Result RpcFrame × Session World)
          → ((resp : RpcFrame) (e : RpcError)
              → x.0 ≡ ok resp
              → resp.error ≡ some e
              → ground (rejected e))
          → IsSettled r.acks ground (after_resubmit net c m r x)
      unfolding after_resubmit
      after_resubmit-IsSettled r (err f, s) h = refl
      after_resubmit-IsSettled r (ok resp, s) h =
          after_response-IsSettled resp.error (record r { session = s }) (λ e. h resp e refl)

      after_lookup-IsSettled :
          (r : Run World) (x : Result (Option Block) × Session World)
          → Ensures (Holds m.extrinsic.payload) (λ s. Unit) x
          → ((b : Block) → contains m.extrinsic.payload b.extrinsics ≡ true → ground (included b))
          → ((s : Session World) (resp : RpcFrame) (e : RpcError)
              → c.try_resubmit ≡ true
              → (raw_request net none m.rpc_frame.raw s).0 ≡ ok resp
              → resp.error ≡ some e
              → ground (rejected e))
          → IsSettled r.acks ground (after_lookup net c m r x)
      unfolding after_lookup
      after_lookup-IsSettled r (err f, s) h inc rej = refl
      after_lookup-IsSettled r (ok (some b), s) h inc rej = (refl, inc b h)
      after_lookup-IsSettled r (ok none, s) h inc rej = elim (Bool-cases c.try_resubmit) [
        | inl try_it ↦ rw try_it (
            after_resubmit-IsSettled (record r { session = s })
              (raw_request net none m.rpc_frame.raw s) (λ resp e. rej s resp e try_it))
        | inr quiet ↦ rw quiet refl
      ]

    find-Holds :
        (hash : String) (limit : ℕ) (s : Session World)
        → Ensures
            (Holds m.extrinsic.payload)
            (λ s'. Unit)
            (find_extrinsics_block net none hash m.extrinsic.payload limit s)
    unfolding find_extrinsics_block
    find-Holds hash limit s = walk-Holds none _ hash m.extrinsic.payload s

    after_current-IsSettled :
        (r : Run World) (x : Result Block × Session World)
        → chain_get_block net none "" r.session ≡ x
        → IsSettled r.acks (Grounds r) (after_current net c m r x)
    unfolding after_current
    after_current-IsSettled r (err f, s) e = refl
    after_current-IsSettled r (ok b, s) e =
        elim (Bool-cases
          (ltb m.extrinsic.lifetime_in_blocks (sub64 b.number m.extrinsic.first_seen_block_no))) [
            | inl late ↦ rw late (refl, (ap (λ x. x.0) e, ltb→lt _ _ late))
            | inr alive ↦ rw alive (
                after_lookup-IsSettled (Grounds r) r _ (find-Holds b.hash _ s) (λ b' h. h)
                  (λ s' resp e' t q p. (t, s', resp, q, p)))
          ]

    -- A round that goes on has not acknowledged the message. A round that stops has acknowledged it
    -- once, and either the latest block is past the deadline by the uint64 difference, or the block
    -- found holds the extrinsic, or resubmitting is on and the node refused the extrinsic.
    pub process_round-IsSettled :
        (r : Run World) → IsSettled r.acks (Grounds r) (process_round net c m r)
    unfolding process_round
    process_round-IsSettled r =
        after_current-IsSettled r (chain_get_block net none "" r.session) refl
