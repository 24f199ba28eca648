-- ===== src/Rpc/Broker/Delivery.antt =====
-- Which channel a response, and an error, reaches.
use mathlib.Core.Path.{subst}
use substrate_rpc_proxy.Dto.{RpcFrame}
use substrate_rpc_proxy.Prelude.{
  ℕ, ◌≡◌, ◌≢◌, ◌⊎◌, inl, inr, refl, sym, ◌∙◌, String, true, false, List, [], ◌∷◌, ◌++◌, none, some,
  ◌==◌, str_eq, arith, In, ℕ_discrete, In-append_left, In-append_right,
}
use substrate_rpc_proxy.Prelude.Family.{put}
use substrate_rpc_proxy.Rpc.Broker.{
  Message, frame, failure, WsMessageBroker, load, delete, store, send, incoming, register,
  dispatch_request, dispatch_response, dispatch, send_all, channels_of, end_loop, turn,
}

pub put-same : (f : ℕ → List Message) (c : ℕ) (a : List Message) → put f c a c ≡ a
put-same f c a = ground arith

pub put-other : (f : ℕ → List Message) (c d : ℕ) (a : List Message) → d ≢ c → put f c a d ≡ f d
put-other f c d a n = ground arith

==_self : (n : ℕ) → (n == n) ≡ true
==_self n = ground arith

pub ==_ne_zero : (n : ℕ) → n ≢ 0 → (n == 0) ≡ false
==_ne_zero n h = ground arith

send-keeps :
    (d : ℕ) (m : Message) (b : WsMessageBroker) (c : ℕ) (x : Message)
    → In x (b.inbox c)
    → In x ((send d m b).inbox c)
send-keeps d m b c x h = elim (ℕ_discrete c d) [
  | yes e ↦
      subst (λ k. In x ((send d m b).inbox k)) (sym e)
        (rw (put-same b.inbox d (b.inbox d ++ m ∷ []))
          (In-append_left x (b.inbox d) (m ∷ []) (subst (λ k. In x (b.inbox k)) e h)))
  | no n ↦ rw (put-other b.inbox d c (b.inbox d ++ m ∷ []) n) h
]

In-send : (d : ℕ) (m : Message) (b : WsMessageBroker) → In m ((send d m b).inbox d)
In-send d m b =
    rw (put-same b.inbox d (b.inbox d ++ m ∷ []))
      (In-append_right m (b.inbox d) (m ∷ []) (inl refl))

delete_twice :
    (id : ℕ) (xs : List (ℕ × ℕ))
    → delete (λ j k. j == k) id (delete (λ j k. j == k) id xs) ≡ delete (λ j k. j == k) id xs
unfolding delete
delete_twice id [] = refl
delete_twice id ((k, c) ∷ r) = ground (arith, delete_twice id r)

module _ (init_key : ℕ → String) where
  -- A response that comes after its request was registered, and whose id is not 0 and is not that of
  -- a subscription that waits: it is the one message on the channel of the request, which is no
  -- longer waiting, and the other channels have what they had.
  pub register-turn :
      (f : RpcFrame) (b : WsMessageBroker)
      → f.id ≢ 0
      → load str_eq (init_key f.id) b.subscriptions ≡ none
      → let after = turn init_key (incoming f) (register init_key false f.id b) in
        (after.inbox b.next ≡ frame f ∷ [])
        × (after.requests ≡ delete (λ j k. j == k) f.id b.requests)
        × (after.err ≡ b.err)
        × ((c : ℕ) → c ≢ b.next → after.inbox c ≡ b.inbox c)
  unfolding turn dispatch dispatch_response dispatch_request register load store delete
  register-turn f b real free =
      rw
        (
          ==_ne_zero f.id real,
          dispatch,
          free,
          dispatch_response,
          ==_self f.id,
          load,
          dispatch_request,
        )
        (
          rw (put-same (put b.inbox b.next []) b.next _, put-same b.inbox b.next []) refl,
          rw (==_self f.id) (delete_twice f.id b.requests),
          refl,
          λ c n. put-other (put b.inbox b.next []) b.next c _ n ∙ put-other b.inbox b.next c [] n,
        )

  -- The subscriptions stay as they were.
  pub register-turn_subscriptions :
      (f : RpcFrame) (b : WsMessageBroker)
      → f.id ≢ 0
      → load str_eq (init_key f.id) b.subscriptions ≡ none
      → (turn init_key (incoming f) (register init_key false f.id b)).subscriptions
        ≡ b.subscriptions
  unfolding turn dispatch dispatch_response dispatch_request register load store delete
  register-turn_subscriptions f b real free =
      rw
        (
          ==_ne_zero f.id real,
          dispatch,
          free,
          dispatch_response,
          ==_self f.id,
          load,
          dispatch_request,
        )
        refl

  send_all-keeps :
      (cs : List ℕ) (m : Message) (b : WsMessageBroker) (c : ℕ) (x : Message)
      → In x (b.inbox c)
      → In x ((send_all init_key cs m b).inbox c)
  unfolding send_all
  send_all-keeps [] m b c x h = h
  send_all-keeps (d ∷ ds) m b c x h = send_all-keeps ds m (send d m b) c x (send-keeps d m b c x h)

  In-send_all :
      (cs : List ℕ) (m : Message) (b : WsMessageBroker) (c : ℕ)
      → In c cs
      → In m ((send_all init_key cs m b).inbox c)
  unfolding send_all
  In-send_all [] m b c h = absurd h
  In-send_all (d ∷ ds) m b c (inl e) =
      send_all-keeps ds m (send d m b) c m
        (subst (λ k. In m ((send d m b).inbox k)) (sym e) (In-send d m b))
  In-send_all (d ∷ ds) m b c (inr h) = In-send_all ds m (send d m b) c h

  -- When the read loop ends with an error, every channel of a waiting request and of a subscription
  -- gets the error.
  pub end_loop-reaches :
      (e : String) (b : WsMessageBroker) (c : ℕ)
      → In c (channels_of init_key b.requests) ⊎ In c (channels_of init_key b.subscriptions)
      → In (failure e) ((end_loop init_key e b).inbox c)
  unfolding end_loop
  end_loop-reaches e b c (inl h) =
      send_all-keeps (channels_of init_key b.subscriptions) (failure e) _ c (failure e)
        (In-send_all (channels_of init_key b.requests) (failure e) (record b { err = some e }) c h)
  end_loop-reaches e b c (inr h) =
      In-send_all (channels_of init_key b.subscriptions) (failure e) _ c h
