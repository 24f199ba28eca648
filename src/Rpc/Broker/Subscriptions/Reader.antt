-- ===== src/Rpc/Broker/Subscriptions/Reader.antt =====
-- What the reader of a new subscription gets.
use mathlib.Core.List.{append-nil, append_assoc}
use mathlib.Core.Path.{subst}
use substrate_rpc_proxy.Dto.{RpcFrame, string_result}
use substrate_rpc_proxy.Prelude.{
  ℕ, ◌≡◌, ◌≢◌, refl, sym, ap, ◌∙◌, inl, inr, String, true, false, List, [], ◌∷◌, ◌++◌, map, none,
  some, Bool-cases, ◌==◌, ◌&&◌, In, str_eq, str_eq_self,
}
use substrate_rpc_proxy.Rpc.Broker.{
  frame, Incoming, incoming, unparsed, read_error, cancelled, WsMessageBroker, load, delete, store,
  register, dispatch_response, dispatch, turn, read_loop,
}
use substrate_rpc_proxy.Rpc.Broker.Delivery.{put-same, ==_ne_zero}
use substrate_rpc_proxy.Rpc.Broker.Subscriptions.{with_frame, deliver}
use substrate_rpc_proxy.Rpc.Broker.Subscriptions.Tables.{
  load-delete, load-store_same, load-store_other,
}
use substrate_rpc_proxy.Rpc.Broker.Subscriptions.Pushes.{
  same_id, str_eq_sound, subscription_of, pushes, AreTraffic, Holds, IsKnown, confirmed-IsKnown,
  traffic-Holds,
}

deliver-frames :
    (fs : List RpcFrame)
    → deliver false (map frame fs) ≡ record { frames = fs; error = none; closed = false }
unfolding deliver
deliver-frames [] = refl
deliver-frames (f ∷ fs) = ap (with_frame f) (deliver-frames fs)

module _ (init_key : ℕ → String) (subscription : String) (others : List String)
    (keys : (n : ℕ) → init_key n ≢ subscription)
    (other_keys : (n : ℕ) (s : String) → In s others → init_key n ≢ s) where
  pushes-cons :
      (i : Incoming) (is : List Incoming)
      → pushes subscription (i ∷ is) ≡ pushes subscription (i ∷ []) ++ pushes subscription is
  unfolding pushes
  pushes-cons unparsed is = refl
  pushes-cons (read_error e) is = refl
  pushes-cons (cancelled e) is = refl
  pushes-cons (incoming f) is =
      elim (Bool-cases (f.id == 0 && str_eq (subscription_of f) subscription)) [
        | inl t ↦ rw (t)
        | inr n ↦ rw (n)
      ]

  read_loop-Holds :
      (is : List Incoming) (c : ℕ) (fs : List RpcFrame) (b : WsMessageBroker)
      → AreTraffic init_key subscription others is
      → Holds init_key subscription others c fs b
      → Holds init_key subscription others c
          (fs ++ pushes subscription is)
          (read_loop init_key is b)
  unfolding read_loop pushes
  read_loop-Holds [] c fs b t h = rw (append-nil fs) h
  read_loop-Holds (i ∷ is) c fs b (t, ts) h =
      subst (λ gs. Holds init_key subscription others c gs (read_loop init_key (i ∷ is) b))
        (append_assoc fs (pushes subscription (i ∷ [])) (pushes subscription is)
          ∙ ap (λ r. fs ++ r) (sym (pushes-cons i is)))
        (rw (read_loop, h.4)
          (read_loop-Holds is c (fs ++ pushes subscription (i ∷ [])) (turn init_key i b) ts
            (traffic-Holds init_key subscription others keys other_keys i c fs b t h)))

  confirmed-Holds :
      (f : RpcFrame) (b : WsMessageBroker)
      → f.id ≢ 0
      → string_result f ≡ subscription
      → b.err ≡ none
      → ((k : String) → load str_eq k b.subscriptions ≢ some b.next)
      → ((k : ℕ) → load same_id k b.requests ≢ some b.next)
      → IsKnown init_key subscription others b
      → Holds init_key subscription others b.next []
          (turn init_key (incoming f) (register init_key true f.id b))
  unfolding turn dispatch register dispatch_response
  confirmed-Holds f b real confirms working unused free known =
      let key = init_key f.id in
      let stored = store str_eq key b.next b.subscriptions in
      let found : load str_eq key stored ≡ some b.next =
        load-store_same str_eq str_eq_sound str_eq_self key b.next b.subscriptions in
      rw (==_ne_zero f.id real, dispatch, found, dispatch_response)
        (
          ap (λ s. load str_eq s (store str_eq (string_result f) b.next (delete str_eq key stored)))
                (sym confirms)
              ∙ load-store_same str_eq str_eq_sound str_eq_self (string_result f) b.next
                  (delete str_eq key stored),
          λ k n e.
              let (apart, h) = load-delete str_eq str_eq_sound str_eq_self key k stored b.next (
                sym (
                  load-store_other str_eq str_eq_sound str_eq_self (string_result f) k b.next
                    (delete str_eq key stored) (λ x. n (x ∙ confirms)))
                ∙ e) in
              unused k (
                sym (
                  load-store_other str_eq str_eq_sound str_eq_self key k b.next b.subscriptions
                    apart)
                ∙ h),
          free,
          put-same b.inbox b.next [],
          working,
          λ s listed.
              let (e, was) = known s listed in
              confirmed-IsKnown init_key subscription others key (string_result f) s b.next e stored
                (λ h. other_keys f.id s listed (sym h))
                (load-store_other str_eq str_eq_sound str_eq_self key s b.next b.subscriptions
                    (λ h. other_keys f.id s listed (sym h))
                  ∙ was),
        )

  -- A subscription whose channel is new, and whose confirmation is the first that the socket brings
  -- after the channel was stored: from what the socket brings then, the reader has exactly the
  -- pushes of the subscription, each once and in their order, no error and open channels, whatever
  -- pushes of other subscriptions that were confirmed before, responses to requests and to other
  -- subscriptions and broken texts come in between; none of those confirms another subscription under the same identifier, and no
  -- placeholder of a subscription that waits is equal to the identifier.
  pub deliver-pushes :
      (f : RpcFrame) (is : List Incoming) (b : WsMessageBroker)
      → f.id ≢ 0
      → string_result f ≡ subscription
      → b.err ≡ none
      → ((k : String) → load str_eq k b.subscriptions ≢ some b.next)
      → ((k : ℕ) → load same_id k b.requests ≢ some b.next)
      → IsKnown init_key subscription others b
      → AreTraffic init_key subscription others is
      → let after = read_loop init_key (incoming f ∷ is) (register init_key true f.id b) in
        deliver false (after.inbox b.next)
        ≡ record { frames = pushes subscription is; error = none; closed = false }
  unfolding read_loop register
  deliver-pushes f is b real confirms working unused free known traffic =
      let start = register init_key true f.id b in
      let loop : read_loop init_key (incoming f ∷ is) start
          ≡ read_loop init_key is (turn init_key (incoming f) start) =
        ap
          (λ o. elim o [
            | none ↦ read_loop init_key is (turn init_key (incoming f) start)
            | some e ↦ start
          ])
          working in
      let (here, alone, apart, sent, ok, still) =
        read_loop-Holds is b.next [] (turn init_key (incoming f) start) traffic
          (confirmed-Holds f b real confirms working unused free known) in
      ap (λ x. deliver false (x.inbox b.next)) loop
      ∙ ap (deliver false) sent
      ∙ deliver-frames (pushes subscription is)
