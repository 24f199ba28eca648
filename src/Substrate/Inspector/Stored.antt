-- ===== src/Substrate/Inspector/Stored.antt =====
-- With which block number an extrinsic is stored, and what the consumer makes of it.
use substrate_rpc_proxy.Consumer.{Consumer, Run, with_lifetime, process_round}
use substrate_rpc_proxy.Consumer.Overflow.{IsExpiry, process_round-IsExpiry}
use substrate_rpc_proxy.Decoder.Extrinsic.{Extracted, extracted}
use substrate_rpc_proxy.Dto.{RpcFrame, ExtrinsicData, StoredMessage, Block}
use substrate_rpc_proxy.Dto.Mapped.{Value, Fields, empty, must_int}
use substrate_rpc_proxy.Prelude.{
  ℕ, ◌+◌, ◌^◌, ◌<◌, ◌≡◌, refl, ◌∙◌, ap, String, true, List, ◌∷◌, none, some, ltb, arith,
  if◌then◌else◌,
}
use substrate_rpc_proxy.Rpc.Client.Connections.{Failure, Result, ok, err, Network, Session}
use substrate_rpc_proxy.Rpc.Client.Calls.{chain_get_header, chain_get_block}
use substrate_rpc_proxy.Substrate.Inspector.{
  Inspector, passed_on, needs_inspection, update_header, after_header, message_of, store_extrinsic,
  inspect, log_to_db,
}

module _ (net : Network) where
  open net use {World}

  -- The header that a submission is stored with: the one of the last answer, if that is at most five
  -- seconds old or the node does not answer now, and the node's latest one otherwise.
  abbrev pub header_for : ℕ → Inspector World → Result Fields → Fields
  header_for now i (ok header) = if ltb i.header_next_update now then header else i.header_current
  header_for now i (err e) = i.header_current

  header_current-after_header :
      (now : ℕ) (i : Inspector World) (x : Result Fields × Session World)
      → (if ltb i.header_next_update now then after_header net now i x else i).header_current
        ≡ header_for now i x.0
  unfolding after_header
  header_current-after_header now i (ok header, s) = ground arith
  header_current-after_header now i (err e, s) = ground arith

  stored-after_header :
      (now : ℕ) (i : Inspector World) (x : Result Fields × Session World)
      → (if ltb i.header_next_update now then after_header net now i x else i).stored ≡ i.stored
  unfolding after_header
  stored-after_header now i (ok header, s) = ground arith
  stored-after_header now i (err e, s) = ground arith

  counted-after_header :
      (now : ℕ) (i : Inspector World) (x : Result Fields × Session World)
      → (if ltb i.header_next_update now then after_header net now i x else i).counted ≡ i.counted
  unfolding after_header
  counted-after_header now i (ok header, s) = ground arith
  counted-after_header now i (err e, s) = ground arith

  -- A request whose method is inspected and whose parameters hold an extrinsic is passed on, counted,
  -- and stored on top of the messages of before, with the block number of the header of the last
  -- answer, or of the node's latest one where that answer is more than five seconds old.
  pub log_to_db-stored :
      (fold : ℕ → ℕ) (methods : List String) (decode : Value → Extracted) (now : ℕ)
      (frame : RpcFrame) (extr : ExtrinsicData) (i : Inspector World)
      → needs_inspection fold methods frame.method ≡ true
      → decode frame.params ≡ extracted extr
      → let after = log_to_db net fold methods decode now (some frame) i in
        (after.0 ≡ passed_on)
        × (after.1.stored
            ≡ message_of net frame extr
                (header_for now i (chain_get_header net none "" i.session).0)
              ∷ i.stored)
        × (after.1.counted ≡ i.counted + 1)
  unfolding log_to_db inspect store_extrinsic update_header
  log_to_db-stored fold methods decode now frame extr i wanted found =
      let i' = record i { counted = i.counted + 1 } in
      let x = chain_get_header net none "" i.session in
      rw (wanted, log_to_db, found, inspect)
        (
          refl,
          rw (header_current-after_header now i' x, stored-after_header now i' x),
          counted-after_header now i' x,
        )

  first_seen_of :
      (frame : RpcFrame) (extr : ExtrinsicData) (h : Fields)
      → (message_of net frame extr h).extrinsic.first_seen_block_no ≡ must_int "number" h
  first_seen_of frame extr h = refl

  first_seen-with_lifetime :
      (m : StoredMessage)
      → (with_lifetime m).extrinsic.first_seen_block_no ≡ m.extrinsic.first_seen_block_no
  unfolding with_lifetime
  first_seen-with_lifetime m = ground arith

  no_number : must_int "number" empty ≡ 0
  unfolding must_int
  no_number = refl

  -- If no header was ever read and the node does not answer now either, the extrinsic is stored with
  -- block number 0, and a consumer drops it as expired in its first round, whenever the latest block's
  -- number is above the lifetime.
  pub log_to_db-blind :
      (fold : ℕ → ℕ) (methods : List String) (decode : Value → Extracted) (now : ℕ)
      (frame : RpcFrame) (extr : ExtrinsicData) (i : Inspector World) (e : Failure) (c : Consumer)
      (r : Run World) (b : Block)
      → needs_inspection fold methods frame.method ≡ true
      → decode frame.params ≡ extracted extr
      → i.header_current ≡ empty
      → (chain_get_header net none "" i.session).0 ≡ err e
      → (chain_get_block net none "" r.session).0 ≡ ok b
      → b.number < 2 ^ 64
      → (with_lifetime (message_of net frame extr empty)).extrinsic.lifetime_in_blocks < b.number
      → ((log_to_db net fold methods decode now (some frame) i).1.stored
          ≡ message_of net frame extr empty ∷ i.stored)
        × IsExpiry net c
            (with_lifetime (message_of net frame extr empty))
            r
            b
            (process_round net c (with_lifetime (message_of net frame extr empty)) r)
  log_to_db-blind fold methods decode now frame extr i e c r b wanted found never silent latest fits
        late =
      let m = message_of net frame extr empty in
      let stored = (log_to_db-stored fold methods decode now frame extr i wanted found).1 in
      let blind : header_for now i (chain_get_header net none "" i.session).0 ≡ empty =
        rw silent never in
      let zero_seen : (with_lifetime m).extrinsic.first_seen_block_no ≡ 0 =
        first_seen-with_lifetime m ∙ no_number in
      (
        stored ∙ ap (λ h. message_of net frame extr h ∷ i.stored) blind,
        process_round-IsExpiry net c (with_lifetime m) r b latest (omega (arith, zero_seen)),
      )
