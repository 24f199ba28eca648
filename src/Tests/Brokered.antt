-- ===== src/Tests/Brokered.antt =====
-- A broker with one request.
use substrate_rpc_proxy.Dto.{RpcFrame, string_result}
use substrate_rpc_proxy.Dto.Mapped.{str, obj, field, empty, index, must_string, must_map}
use substrate_rpc_proxy.Rpc.Broker.{Incoming, unparsed, read_loop}
use substrate_rpc_proxy.Rpc.Broker.Subscriptions.{deliver}
use substrate_rpc_proxy.Rpc.Broker.Subscriptions.Pushes.{
  subscription_of, pushes, AreTraffic, IsKnown,
}
use substrate_rpc_proxy.Rpc.Broker.Subscriptions.Reader.{deliver-pushes}
use substrate_rpc_proxy.Prelude.{
  ℕ, true, ap, In, ◌≡◌, ◌≢◌, inl, inr, List, some, refl, String, false, [], ◌∷◌, none, ◌==◌, str_eq,
  arith,
}
use substrate_rpc_proxy.Rpc.Broker.{
  WsMessageBroker, incoming, load, delete, register, turn, end_loop, prepare,
}
use substrate_rpc_proxy.Rpc.Broker.Early.{ws_request-early}
use substrate_rpc_proxy.Rpc.Broker.Requests.{
  answered, still_waiting, wait, ws_request, end_loop-forgotten,
}
use substrate_rpc_proxy.Tests.Nodes.{reply}

abbrev init_key : ℕ → String
init_key n = "init"

-- The request with id 4 waits on channel 0.
abbrev broker : WsMessageBroker
broker = record {
  requests = (4, 0) ∷ [];
  subscriptions = [];
  inbox = λ c. [];
  next = 1;
  err = none;
}

no_subscription : load str_eq (init_key reply.id) broker.subscriptions ≡ none
unfolding load
no_subscription = refl

no_request : load (λ j k. j == k) reply.id broker.requests ≡ none
unfolding load
no_request = refl

same_id : reply.id ≡ (prepare 7 reply).id
unfolding prepare
same_id = refl

none_on_next : (k : ℕ) → load (λ i j. i == j) k broker.requests ≢ some broker.next
unfolding load
none_on_next k = ground arith

ws_request-early_example :
    let later = unparsed ∷ incoming (record reply { id = 4 }) ∷ [] in
    ((ws_request init_key 7 none none [] (incoming reply ∷ later) reply broker).0 ≡ answered reply)
    × ((ws_request init_key 7 none none (incoming reply ∷ []) later reply broker).0 ≡ still_waiting)
ws_request-early_example =
    ws_request-early init_key 7 reply reply broker
      (unparsed ∷ incoming (record reply { id = 4 }) ∷ []) same_id (λ e. omega arith) refl
      no_subscription no_request none_on_next (tt, (((λ e. omega arith), (λ e. omega arith)), tt))

-- The request with id 1 waits on channel 0.
abbrev taken : WsMessageBroker
taken = record broker { requests = (1, 0) ∷ [] }

end_loop-forgotten_example :
    let after = turn init_key (incoming reply) (register init_key false reply.id taken) in
    (wait 1 none after ≡ answered reply)
    × (wait 0 none after ≡ still_waiting)
    × (wait 0 none (end_loop init_key "EOF" after) ≡ still_waiting)
unfolding delete
end_loop-forgotten_example =
    end_loop-forgotten init_key reply "EOF" taken 0 (λ e. omega arith) no_subscription
      (λ e. omega arith) refl (λ h. h) (λ h. h)

-- The confirmation of subscription "s1", a push of it, and a response to another request.
abbrev confirmation : RpcFrame
confirmation = record reply { id = 9; result = str "s1" }

abbrev push : RpcFrame
push = record reply { id = 0; params = obj (field "subscription" (str "s1") empty) }

-- A push of "s2", which has channel 5.
abbrev foreign : RpcFrame
foreign = record reply { id = 0; params = obj (field "subscription" (str "s2") empty) }

abbrev busy : WsMessageBroker
busy = record broker { subscriptions = ("s2", 5) ∷ [] }

abbrev brought : List Incoming
brought =
    incoming push
    ∷ unparsed
    ∷ incoming (record reply { id = 4 })
    ∷ incoming foreign
    ∷ incoming push
    ∷ []

confirms : string_result confirmation ≡ "s1"
unfolding string_result
confirms = refl

of_s1 : subscription_of push ≡ "s1"
unfolding must_string must_map index
of_s1 = refl

other_result : string_result (record reply { id = 4 }) ≢ "s1"
unfolding string_result
other_result = λ e. cc

other_key : (n : ℕ) → init_key n ≢ "s1"
other_key n = λ e. cc

of_s2 : subscription_of foreign ≡ "s2"
unfolding must_string must_map index
of_s2 = refl

no_other_subscription : (k : String) → load str_eq k busy.subscriptions ≢ some busy.next
unfolding load
no_other_subscription k = ground arith

not_waiting : (k : ℕ) → load (λ i j. i == j) k busy.requests ≢ some busy.next
unfolding load
not_waiting k = ground arith

known : IsKnown init_key "s1" ("s2" ∷ []) busy
unfolding load
known s (inl e) = (5, ap (λ k. load str_eq k busy.subscriptions) e)
known s (inr h) = absurd h

other_keys : (n : ℕ) (s : String) → In s ("s2" ∷ []) → init_key n ≢ s
other_keys n s (inl e) = λ h. cc
other_keys n s (inr h) = absurd h

traffic : AreTraffic init_key "s1" ("s2" ∷ []) brought
traffic = (
  inl (refl, inl of_s1),
  (
    tt,
    (
      inr ((λ e. omega arith), other_result),
      (inl (refl, inr (inl of_s2)), (inl (refl, inl of_s1), tt)),
    ),
  ),
)

deliver-pushes_example :
    deliver false (
      (read_loop init_key (incoming confirmation ∷ brought) (register init_key true 9 busy)).inbox
        1)
    ≡ record { frames = pushes "s1" brought; error = none; closed = false }
deliver-pushes_example =
    deliver-pushes init_key "s1" ("s2" ∷ []) other_key other_keys confirmation brought busy
      (λ e. omega arith) confirms refl no_other_subscription not_waiting known traffic

two_pushes : pushes "s1" brought ≡ push ∷ push ∷ []
unfolding pushes must_string must_map index
two_pushes = refl
