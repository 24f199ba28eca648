-- ===== src/Rpc/Broker.antt =====
-- pkg/rpc/wsconnbroker.go: one socket for many requests and subscriptions. A channel is a number,
-- and `inbox` holds what was sent on it: a channel of a request has room for its one response, and
-- the reader of a subscription takes each message. The key of a subscription that is not confirmed
-- yet, the text of its frame's id, is a parameter.
pub mod Delivery
pub mod Requests
pub mod Early
pub mod Subscriptions
use Prim.Native.String
use substrate_rpc_proxy.Dto.{RpcFrame, string_result}
use substrate_rpc_proxy.Dto.Mapped.{Value, arr, nil, must_map, must_string}
use substrate_rpc_proxy.Prelude.{
  ℕ, suc, ◌+◌, String, Bool, true, false, List, [], ◌∷◌, ◌++◌, Option, none, some, ◌==◌, str_eq,
  if◌then◌else◌,
}
use substrate_rpc_proxy.Prelude.Family.{put}

-- WSMessageBrokerFrame: a frame, or an error.
pub data Message : Type 0 where
  frame : RpcFrame → Message
  failure : String → Message

pub record WsMessageBroker : Type 0 where
  pub requests : List (ℕ × ℕ)
  pub subscriptions : List (String × ℕ)
  pub inbox : ℕ → List Message
  pub next : ℕ
  pub err : Option String

module _ {K : Type 0} (same : K → K → Bool) where
  unfoldable pub load : K → List (K × ℕ) → Option ℕ
  load key [] = none
  load key ((k, c) ∷ r) = let rest = load key r in if same k key then some c else rest

  unfoldable pub delete : K → List (K × ℕ) → List (K × ℕ)
  delete key [] = []
  delete key ((k, c) ∷ r) = let rest = delete key r in if same k key then rest else (k, c) ∷ rest

  unfoldable pub store : K → ℕ → List (K × ℕ) → List (K × ℕ)
  unfolding delete
  store key c r = (key, c) ∷ delete key r

abbrev pub no_params : Value → Value
no_params Value.null = arr nil
no_params params = params

-- The changes that submit makes to a frame; `random` is rand.Intn(29999).
unfoldable pub prepare : ℕ → RpcFrame → RpcFrame
prepare random f = record f {
  rpc = "2.0";
  id = if f.id == 0 then 1 + random else f.id;
  params = no_params f.params;
}

abbrev pub send : ℕ → Message → WsMessageBroker → WsMessageBroker
send c m b = record b { inbox = put b.inbox c (b.inbox c ++ m ∷ []) }

-- What the read loop meets.
pub data Incoming : Type 0 where
  read_error : String → Incoming
  unparsed : Incoming
  incoming : RpcFrame → Incoming
  cancelled : String → Incoming

module _ (init_key : ℕ → String) where
  -- The end of submit: a new channel for the request, or for the subscription.
  unfoldable pub register : Bool → ℕ → WsMessageBroker → WsMessageBroker
  unfolding store
  register is_subscription id b =
      let made = record b { inbox = put b.inbox (b.next) []; next = suc b.next } in
      if is_subscription
      then record made { subscriptions = store str_eq (init_key id) b.next b.subscriptions }
      else record made { requests = store (λ j k. j == k) id b.next b.requests }

  -- A push, for a subscription. The text is the error that ends the loop.
  unfoldable pub dispatch_push : RpcFrame → WsMessageBroker → Option String × WsMessageBroker
  unfolding load
  dispatch_push f b =
      let id = must_string "subscription" (must_map f.params) in
      elim (load str_eq id b.subscriptions) [
        | some c ↦ (none, send c (frame f) b)
        | none ↦ (some (String.◌++◌ "no response channel found for subscription " id), b)
      ]

  -- A response, for the request with its id; one that has no request is dropped.
  unfoldable pub dispatch_request : RpcFrame → WsMessageBroker → WsMessageBroker
  unfolding load delete
  dispatch_request f b = elim (load (λ j k. j == k) f.id b.requests) [
    | some c ↦ send c (frame f) (record b { requests = delete (λ j k. j == k) f.id b.requests })
    | none ↦ b
  ]

  -- A response, for a subscription that waits for its confirmation, or for a request.
  unfoldable pub dispatch_response : RpcFrame → WsMessageBroker → WsMessageBroker
  unfolding load delete store dispatch_request
  dispatch_response f b = elim (load str_eq (init_key f.id) b.subscriptions) [
    | some c ↦ record b {
      subscriptions =
          store str_eq (string_result f) c (delete str_eq (init_key f.id) b.subscriptions);
    }
    | none ↦ dispatch_request f b
  ]

  unfoldable pub dispatch : RpcFrame → WsMessageBroker → Option String × WsMessageBroker
  unfolding dispatch_push dispatch_response
  dispatch f b = if f.id == 0 then dispatch_push f b else (none, dispatch_response f b)

  -- What follows the read loop: each waiting channel gets the error.
  unfoldable pub send_all : List ℕ → Message → WsMessageBroker → WsMessageBroker
  send_all [] m b = b
  send_all (c ∷ cs) m b = send_all cs m (send c m b)

  abbrev pub channels_of : {K : Type 0} → List (K × ℕ) → List ℕ
  channels_of [] = []
  channels_of ((k, c) ∷ r) = c ∷ channels_of r

  unfoldable pub end_loop : String → WsMessageBroker → WsMessageBroker
  unfolding send_all
  end_loop e b =
      send_all (channels_of b.subscriptions) (failure e)
        (send_all (channels_of b.requests) (failure e) (record b { err = some e }))

  abbrev pub after_dispatch : Option String × WsMessageBroker → WsMessageBroker
  after_dispatch (none, b) = b
  after_dispatch (some e, b) = end_loop e b

  -- One turn of the read loop. A text that does not parse is logged.
  unfoldable pub turn : Incoming → WsMessageBroker → WsMessageBroker
  unfolding dispatch end_loop
  turn (read_error e) b = end_loop e b
  turn unparsed b = b
  turn (incoming f) b = after_dispatch (dispatch f b)
  turn (cancelled e) b = end_loop e b

  -- Nothing is read any more once the loop has ended.
  unfoldable pub read_loop : List Incoming → WsMessageBroker → WsMessageBroker
  unfolding turn
  read_loop [] b = b
  read_loop (i ∷ is) b = elim (b.err) [ none ↦ read_loop is (turn i b) | some e ↦ b ]

  -- submit: the write, and only then the new channel. `during` is what the read loop handles between
  -- the two.
  unfoldable pub submit :
      Bool
      → ℕ
      → Option String
      → List Incoming
      → RpcFrame
      → WsMessageBroker
      → (Option ℕ × RpcFrame) × WsMessageBroker
  unfolding prepare register read_loop
  submit is_subscription random (some e) during f b = ((none, prepare random f), b)
  submit is_subscription random none during f b =
      let f' = prepare random f in
      let b' = read_loop during b in ((some b'.next, f'), register is_subscription f'.id b')
