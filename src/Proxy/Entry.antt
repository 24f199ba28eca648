-- ===== src/Proxy/Entry.antt =====
-- The path of a request's body in cmd/proxy/main.go: the JSON-RPC middleware in front, and behind it,
-- for the frames of a batch one by one, the Logger, the throttle and the handlers of Proxy/Pipeline.antt;
-- HttpMetrics, which only measures, is Middleware/Calls.antt. The JSON codec, the encoding of the storage
-- extension's answers, the decisions of the throttle and the exchange of the proxy with the node are parameters.
pub mod Turns
pub mod Answers
use substrate_rpc_proxy.Decoder.Storage.{RuntimeModule}
use substrate_rpc_proxy.Dto.{RpcFrame}
use substrate_rpc_proxy.Dto.Mapped.{Value}
use substrate_rpc_proxy.Middleware.JsonRpc.{
  Codec, max_batch, Payload, batch, frame, unparsed, Outcome, cancelled, panicked, parse_payload,
  serve,
}
use substrate_rpc_proxy.Middleware.Logger.{LogRequest, Logged, silent}
use substrate_rpc_proxy.Middleware.Logger as Logger
use substrate_rpc_proxy.Middleware.Logger.Chain.{
  LoggerOption, logger, new_frame_context, log_batch_frame,
}
use substrate_rpc_proxy.Prelude.{
  ℕ, String, Bool, true, false, ◌||◌, ◌&&◌, List, [], ◌∷◌, Option, none, some, ltb, length,
  if◌then◌else◌,
}
use substrate_rpc_proxy.Proxy.Pipeline.{Routed, denied, crashed, extended, proxied, Settings, route}
use substrate_rpc_proxy.Rpc.Client.Connections.{Network}
use substrate_rpc_proxy.Substrate.Extension.{
  Scale, Served, unable_to_parse, no_such_method, get_storage_error,
}
use substrate_rpc_proxy.Substrate.Extension as Extension
use substrate_rpc_proxy.Substrate.Inspector.{Inspector}

-- What becomes of a request behind the Logger.
pub data Turn (P : Type 0) : Type 0 where
  refused : Turn P
  behind : Routed P → Turn P

module _ {P : Type 0} (turn : Option RpcFrame → Turn P)
    (logged : Option RpcFrame → Logged × Logged) where
  abbrev pub is_crashed : Turn P → Bool
  is_crashed (behind crashed) = true
  is_crashed (behind (extended Extension.crashed)) = true
  is_crashed _ = false

  abbrev pub is_panic : Logged → Bool
  is_panic Logger.panicked = true
  is_panic _ = false

  -- The handlers of a request, and its line.
  unfoldable pub breaks : Option RpcFrame → Bool
  breaks f = is_crashed (turn f) || is_panic (logged f).0

  -- The frames of a batch have a second line.
  unfoldable pub any_breaks : List RpcFrame → Bool
  unfolding breaks
  any_breaks [] = false
  any_breaks (f ∷ fs) = (breaks (some f) || is_panic (logged (some f)).1) || any_breaks fs

  -- Whether the handlers of the payload panic: that of a batch's frame runs in a goroutine, and those of
  -- a batch that is too long do not run.
  unfoldable pub crashes : Payload → Bool
  unfolding any_breaks
  crashes (batch fs) = if ltb max_batch (length fs) then false else any_breaks fs
  crashes (frame f) = breaks (some f)
  crashes unparsed = breaks none

-- A frame alone is passed on as its text, one of a batch is encoded anew.
unfoldable pub frame_body : Codec → Payload → RpcFrame → String
frame_body codec (batch fs) f = codec.encode_frame f
frame_body codec (frame g) f = f.raw
frame_body codec unparsed f = ""

-- The client's side and the node's: whether the client has a websocket, the text with which the throttle
-- refuses a request over HTTP, and the proxy's exchange with the node for a body, `none` where it cancels the
-- connection. Over a websocket that is also where the node answers with anything but a frame.
pub record Ends : Type 0 where
  pub websocket : Bool
  pub refusal : String
  pub exchange : String → Option String

module _ {P : Type 0} (codec : Codec) (write : Served P → String) (ends : Ends) where
  -- The body that a handler leaves, for the body that it gets; a panic leaves none, and neither does an
  -- exchange with the node that fails.
  unfoldable pub reply : String → Turn P → String
  reply body refused = ends.refusal
  reply body (behind (denied f)) = codec.encode_frame f
  reply body (behind crashed) = ""
  reply body (behind (extended s)) = write s
  reply body (behind proxied) = elim (ends.exchange body) [ none ↦ "" | some s ↦ s ]

  -- Whether the connection is cancelled: the throttle does so for a websocket.
  unfoldable pub is_lost : String → Turn P → Bool
  is_lost body refused = ends.websocket
  is_lost body (behind proxied) = elim (ends.exchange body) [ none ↦ true | some s ↦ false ]
  is_lost body (behind _) = false

  abbrev pub is_page : Turn P → Bool
  is_page (behind (extended unable_to_parse)) = true
  is_page (behind (extended no_such_method)) = true
  is_page (behind (extended (get_storage_error e))) = true
  is_page _ = false

  -- WriteHeader of WrapedWSWriter closes the connection before an error page is written; the writer of a
  -- batch's frame only keeps the status.
  unfoldable pub is_lost_alone : String → Turn P → Bool
  unfolding is_lost
  is_lost_alone body t = is_lost body t || (ends.websocket && is_page t)

  module _ (turn : Option RpcFrame → Turn P) (logged : Option RpcFrame → Logged × Logged) where
    unfoldable pub any_lost : List RpcFrame → Bool
    unfolding is_lost
    any_lost [] = false
    any_lost (f ∷ fs) = is_lost (codec.encode_frame f) (turn (some f)) || any_lost fs

    unfoldable pub loses : String → Payload → Bool
    unfolding any_lost is_lost_alone
    loses text (batch fs) = any_lost fs
    loses text (frame f) = is_lost_alone f.raw (turn (some f))
    loses text unparsed = is_lost_alone text (turn none)

    -- A connection that is closed has the same outcome as one that is cancelled.
    unfoldable pub entry : String → Outcome
    unfolding reply crashes frame_body loses
    entry text =
        let payload = parse_payload codec text in
        let served =
          serve codec (λ f. reply (frame_body codec payload f) (turn (some f)))
            (λ body. reply body (turn none)) text in
        if crashes turn logged payload
        then panicked
        else (if loses text payload then cancelled else served)

module _ {P : Type 0} (settings : Settings) (scale : Scale P) (net : Network)
    (find_submatch : String → Option (String × String)) (metadata : List RuntimeModule)
    (refuses : Option RpcFrame → Bool) (now : Option RpcFrame → ℕ)
    (inspector : Option RpcFrame → Inspector net.World) where
  -- The throttle, and the handlers behind it at the time and with the inspector that they meet: any, since
  -- those of other requests run in between.
  unfoldable pub turn_of : Option RpcFrame → Turn P
  unfolding route
  turn_of f =
      if refuses f
      then refused
      else behind (route settings scale net find_submatch metadata (now f) f (inspector f)).0

-- The program's log: the form of parameters and times, its options, what it reads of the request before
-- its body, the fields that the handlers add for a frame, and the times.
pub record Logging : Type 0 where
  pub show : Value → String
  pub show_duration : ℕ → String
  pub fold : ℕ → ℕ
  pub options : List LoggerOption
  pub request : LogRequest
  pub fields : RpcFrame → List (String × String)
  pub start : ℕ
  pub now : ℕ
  pub later : ℕ

-- The line of the Logger, and that of JsonRPC behind it, which only a batch's frame has.
unfoldable pub logged_of : Logging → Option RpcFrame → Logged × Logged
unfolding logger log_batch_frame new_frame_context
logged_of l none = (logger l.show l.show_duration l.fold l.options l.request l.now, silent)
logged_of l (some f) =
    log_batch_frame l.show l.show_duration l.fold l.options
      (new_frame_context f l.start (l.fields f) l.request) l.now l.later
