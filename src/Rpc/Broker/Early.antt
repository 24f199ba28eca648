-- ===== src/Rpc/Broker/Early.antt =====
-- A response that overtakes the registration of its request.
use substrate_rpc_proxy.Dto.{RpcFrame}
use substrate_rpc_proxy.Prelude.{
  ℕ, ◌≡◌, ◌≢◌, inl, inr, refl, sym, ◌∙◌, ap, String, Bool, true, false, List, [], ◌∷◌, ◌++◌, none,
  some, ◌==◌, str_eq, arith, Option-cases,
}
use substrate_rpc_proxy.Rpc.Broker.{
  frame, Incoming, incoming, unparsed, read_error, cancelled, WsMessageBroker, load, prepare,
  register, read_loop, submit, turn, dispatch, dispatch_response, dispatch_request,
}
use substrate_rpc_proxy.Rpc.Broker.Delivery.{put-same, put-other, ==_ne_zero, register-turn}
use substrate_rpc_proxy.Rpc.Broker.Requests.{
  answered, still_waiting, first_message, wait, after_submit, ws_request,
}
use substrate_rpc_proxy.Rpc.Broker.Subscriptions.Tables.{load-delete, load-store_other}

abbrev same_id : ℕ → ℕ → Bool
same_id j k = j == k

same_id_sound : (j k : ℕ) → same_id j k ≡ true → j ≡ k
same_id_sound j k t = ground (arith, t)

same_id_itself : (k : ℕ) → same_id k k ≡ true
same_id_itself k = ground arith

module _ (init_key : ℕ → String) (id : ℕ) where
  -- Responses to other requests and to subscriptions, and texts that do not parse.
  abbrev pub IsOther : Incoming → Type 0
  IsOther (incoming g) = (g.id ≢ id) × (g.id ≢ 0)
  IsOther unparsed = Unit
  IsOther _ = ⊥

  abbrev pub AreOther : List Incoming → Type 0
  AreOther [] = Unit
  AreOther (i ∷ is) = IsOther i × AreOther is

  -- No other request waits on the channel.
  abbrev IsAlone : ℕ → WsMessageBroker → Type 0
  IsAlone c b = ((k : ℕ) → k ≢ id → load same_id k b.requests ≢ some c) × (b.err ≡ none)

  dispatch_request-IsAlone :
      (g : RpcFrame) (c : ℕ) (b : WsMessageBroker)
      → g.id ≢ id
      → IsAlone c b
      → IsAlone c (dispatch_request init_key g b)
        × ((dispatch_request init_key g b).inbox c ≡ b.inbox c)
  unfolding dispatch_request
  dispatch_request-IsAlone g c b other (apart, working) =
      elim (Option-cases (load same_id g.id b.requests)) [
        | inl unknown ↦ rw (dispatch_request, unknown) ((apart, working), refl)
        | inr (d, found) ↦
            let elsewhere : c ≢ d = λ e. apart g.id other (found ∙ ap some (sym e)) in
            rw (dispatch_request, found)
              (
                (
                  λ k n e.
                      apart k n (
                        (load-delete same_id same_id_sound same_id_itself g.id k b.requests c e).1),
                  working,
                ),
                put-other b.inbox d c (b.inbox d ++ frame g ∷ []) elsewhere,
              )
      ]

  turn-IsAlone :
      (i : Incoming) (c : ℕ) (b : WsMessageBroker)
      → IsOther i
      → IsAlone c b
      → IsAlone c (turn init_key i b) × ((turn init_key i b).inbox c ≡ b.inbox c)
  unfolding turn dispatch dispatch_response
  turn-IsAlone unparsed c b o h = (h, refl)
  turn-IsAlone (read_error e) c b o h = absurd o
  turn-IsAlone (cancelled e) c b o h = absurd o
  turn-IsAlone (incoming g) c b (other, real) h =
      elim (Option-cases (load str_eq (init_key g.id) b.subscriptions)) [
        | inl unknown ↦
            rw (turn, ==_ne_zero g.id real, dispatch, dispatch_response, unknown)
              (dispatch_request-IsAlone g c b other h)
        | inr (d, found) ↦
            rw (turn, ==_ne_zero g.id real, dispatch, dispatch_response, found) (h, refl)
      ]

  -- The channel keeps what it has.
  read_loop-inbox :
      (is : List Incoming) (c : ℕ) (b : WsMessageBroker)
      → AreOther is
      → IsAlone c b
      → (read_loop init_key is b).inbox c ≡ b.inbox c
  unfolding read_loop
  read_loop-inbox [] c b o h = refl
  read_loop-inbox (i ∷ is) c b (o, os) h =
      let (alone, kept) = turn-IsAlone i c b o h in
      rw (read_loop, h.1) (read_loop-inbox is c (turn init_key i b) os alone ∙ kept)

module _ (init_key : ℕ → String) where
  -- A request whose response has the id that the request is sent with, where no request waits under this
  -- id, no subscription waits for it and nothing waits on the channel that is made next: if the read loop
  -- handles the response after the channel is stored, the request is answered with it, and if
  -- it does so between the write and that, the request waits still, whatever responses to other requests
  -- and to subscriptions and texts that do not parse come later.
  pub ws_request-early :
      (random : ℕ) (req f : RpcFrame) (b : WsMessageBroker) (later : List Incoming)
      → f.id ≡ (prepare random req).id
      → f.id ≢ 0
      → b.err ≡ none
      → load str_eq (init_key f.id) b.subscriptions ≡ none
      → load same_id f.id b.requests ≡ none
      → ((k : ℕ) → load same_id k b.requests ≢ some b.next)
      → AreOther init_key f.id later
      → ((ws_request init_key random none none [] (incoming f ∷ later) req b).0 ≡ answered f)
        × ((ws_request init_key random none none (incoming f ∷ []) later req b).0 ≡ still_waiting)
  unfolding ws_request after_submit submit read_loop turn dispatch dispatch_response
      dispatch_request register wait
  ws_request-early random req f b later same real working free unknown fresh others =
      let dropped : turn init_key (incoming f) b ≡ b =
        rw (==_ne_zero f.id real, dispatch, free, dispatch_response, unknown, dispatch_request)
          refl in
      let idle : read_loop init_key (incoming f ∷ []) b ≡ b =
        ap (λ o. elim o [ none ↦ turn init_key (incoming f) b | some e ↦ b ]) working ∙ dropped in
      let waiting = register init_key false f.id b in
      let (got, left, ok, rest) = register-turn init_key f b real free in
      let before : IsAlone init_key f.id b.next waiting = (
        λ k n e. fresh k (
            sym (load-store_other same_id same_id_sound same_id_itself f.id k b.next b.requests n)
            ∙ e),
        working,
      ) in
      let after : IsAlone init_key f.id b.next (turn init_key (incoming f) waiting) = (
        λ k n e. fresh k (
            (load-delete same_id same_id_sound same_id_itself f.id k b.requests b.next
              (ap (load same_id k) (sym left) ∙ e)).1),
        ok ∙ working,
      ) in
      (
        ap
              (λ n. first_message (
                (read_loop init_key (incoming f ∷ later) (register init_key false n b)).inbox
                  b.next))
              (sym same)
            ∙ ap
                (λ o. first_message (
                  (elim o as (λ x. WsMessageBroker) [
                    | none ↦ read_loop init_key later (turn init_key (incoming f) waiting)
                    | some e ↦ waiting
                  ]).inbox
                    b.next))
                working
            ∙ ap first_message (
                read_loop-inbox init_key f.id later b.next (turn init_key (incoming f) waiting)
                  others after
                ∙ got),
        ap
              (λ x. first_message (
                (read_loop init_key later (register init_key false (prepare random req).id x)).inbox
                  x.next))
              idle
            ∙ ap
                (λ n.
                  first_message
                    ((read_loop init_key later (register init_key false n b)).inbox b.next))
                (sym same)
            ∙ ap first_message (
                read_loop-inbox init_key f.id later b.next waiting others before
                ∙ put-same b.inbox b.next []),
      )
