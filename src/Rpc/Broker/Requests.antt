-- ===== src/Rpc/Broker/Requests.antt =====
-- WSRequest: a request that waits for its message, and two requests with one id. `ended` is the error
-- of a context that is done while the request waits, and then wins.
use mathlib.Core.Path.{subst}
use substrate_rpc_proxy.Dto.{RpcFrame}
use substrate_rpc_proxy.Prelude.{
  ℕ, ◌≡◌, ◌≢◌, inl, inr, refl, ◌∙◌, ap, String, false, List, [], ◌∷◌, ◌++◌, Option, none, some,
  ◌==◌, str_eq, In,
}
use substrate_rpc_proxy.Rpc.Broker.{
  Message, frame, failure, Incoming, incoming, WsMessageBroker, load, delete, send, register,
  read_loop, submit, turn, send_all, channels_of, end_loop,
}
use substrate_rpc_proxy.Rpc.Broker.Delivery.{put-other, register-turn, register-turn_subscriptions}

pub data Outcome : Type 0 where
  answered : RpcFrame → Outcome
  failed : String → Outcome
  still_waiting : Outcome

abbrev pub first_message : List Message → Outcome
first_message [] = still_waiting
first_message (frame f ∷ ms) = answered f
first_message (failure e ∷ ms) = failed e

-- The select; nothing is taken out of the map of requests when the context is done.
unfoldable pub wait : ℕ → Option String → WsMessageBroker → Outcome
wait c (some e) b = failed e
wait c none b = first_message (b.inbox c)

module _ (init_key : ℕ → String) where
  -- `during` is what the read loop handles between the write and the registration, `later` what it
  -- handles while the request waits.
  unfoldable pub after_submit :
      Option String
      → Option String
      → List Incoming
      → (Option ℕ × RpcFrame) × WsMessageBroker
      → Outcome × WsMessageBroker
  unfolding wait read_loop
  after_submit (some e) ended later ((c, f), b) = (failed e, b)
  after_submit none ended later ((none, f), b) = (still_waiting, b)
  after_submit none ended later ((some c, f), b) =
      let b' = read_loop init_key later b in (wait c ended b', b')

  unfoldable pub ws_request :
      ℕ
      → Option String
      → Option String
      → List Incoming
      → List Incoming
      → RpcFrame
      → WsMessageBroker
      → Outcome × WsMessageBroker
  unfolding submit after_submit
  ws_request random refused ended during later req b =
      after_submit refused ended later (submit init_key false random refused during req b)

  send_all-other :
      (cs : List ℕ) (m : Message) (b : WsMessageBroker) (c : ℕ)
      → (In c cs → ⊥)
      → (send_all init_key cs m b).inbox c ≡ b.inbox c
  unfolding send_all
  send_all-other [] m b c n = refl
  send_all-other (d ∷ ds) m b c n =
      send_all-other ds m (send d m b) c (λ h. n (inr h))
      ∙ put-other b.inbox d c (b.inbox d ++ m ∷ []) (λ e. n (inl e))

  -- Two requests with one id: the response is for the later one, and the earlier one, whose channel is
  -- in no other entry of the maps, gets neither that response nor the error with which the read loop
  -- ends: it waits until its context is done.
  pub end_loop-forgotten :
      (f : RpcFrame) (e : String) (b : WsMessageBroker) (c : ℕ)
      → f.id ≢ 0
      → load str_eq (init_key f.id) b.subscriptions ≡ none
      → c ≢ b.next
      → b.inbox c ≡ []
      → (In c (channels_of init_key (delete (λ j k. j == k) f.id b.requests)) → ⊥)
      → (In c (channels_of init_key b.subscriptions) → ⊥)
      → let after = turn init_key (incoming f) (register init_key false f.id b) in
        (wait b.next none after ≡ answered f)
        × (wait c none after ≡ still_waiting)
        × (wait c none (end_loop init_key e after) ≡ still_waiting)
  unfolding wait end_loop
  end_loop-forgotten f e b c real free apart empty gone quiet =
      let after = turn init_key (incoming f) (register init_key false f.id b) in
      let (got, rest, kept, others) = register-turn init_key f b real free in
      let nothing : after.inbox c ≡ [] = others c apart ∙ empty in
      (
        ap first_message got,
        ap first_message nothing,
        ap first_message (
            send_all-other (channels_of init_key after.subscriptions) (failure e) _ c (λ h. quiet (
              subst (λ r. In c (channels_of init_key r))
                (register-turn_subscriptions init_key f b real free) h))
            ∙ send_all-other (channels_of init_key after.requests) (failure e)
                (record after { err = some e }) c
                (λ h. gone (subst (λ r. In c (channels_of init_key r)) rest h))
            ∙ nothing),
      )
