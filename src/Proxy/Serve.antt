-- ===== src/Proxy/Serve.antt =====
-- Proxy.ServeHTTP of cmd/proxy/handler/proxy.go. A websocket request is served in two parts, up to
-- the wait for its response and from there on; an HTTP request goes to an upstream and back. The
-- HTTP client, the URL parser and the JSON parser are parameters.
pub mod Failure
pub mod RoundTrip
use substrate_rpc_proxy.Middleware.Headers.{Header, copy_header}
use substrate_rpc_proxy.Prelude.{
  ℕ, zero, suc, String, Bool, true, false, List, [], ◌∷◌, Option, none, some, str_eq, if◌then◌else◌,
}
use substrate_rpc_proxy.Proxy.Connection.{
  ProxiedConnection, Written, written, duplicate, write_failed, upstream_write, begin_read, receive,
  abandon,
}
use substrate_rpc_proxy.Proxy.Handler.{
  Outside, Proxied, Found, found, nil_with_error, load, store, get_or_create,
}

-- How far a websocket request came: `waiting` on a channel, or the connection is cancelled. With the
-- nil pointer the field `upstream` is read, for the log.
pub data Started : Type 0 where
  waiting : ℕ → Started
  cancelled : Started
  panicked : Started

-- UpstreamRead's lookup, after UpstreamWrite.
abbrev pub lookup_channel : Option ℕ → Started
lookup_channel none = cancelled
lookup_channel (some ready) = waiting ready

unfoldable pub after_write : ℕ → Written × ProxiedConnection → Started
unfolding begin_read
after_write id (written, pc) = lookup_channel (begin_read id pc)
after_write id (duplicate, pc) = cancelled
after_write id (write_failed, pc) = cancelled

module _ (out : Outside) where
  open out use {World}

  unfoldable pub after_found :
      String
      → ℕ
      → String
      → Bool
      → (Found × List (String × Proxied)) × World
      → (Started × List (String × Proxied)) × World
  unfolding after_write upstream_write store
  after_found cid id body accepted ((nil_with_error tries, table), w) = ((panicked, table), w)
  after_found cid id body accepted ((found p, table), w) =
      let (outcome, pc) = upstream_write id body accepted p.connection in
      ((after_write id (outcome, pc), store cid (record p { connection = pc }) table), w)

  -- Up to the wait: `cid` is the client's connection, `id` and `body` are those of the frame, and
  -- `accepted` is the outcome of the write to the upstream.
  unfoldable pub start_websocket :
      String
      → ℕ
      → String
      → Bool
      → List (String × Proxied)
      → World
      → (Started × List (String × Proxied)) × World
  unfolding get_or_create after_found
  start_websocket cid id body accepted table w =
      after_found cid id body accepted (get_or_create out cid table w)

-- What happens while a request waits: its channel has something, or a context is done.
pub data Wait : Type 0 where
  ready_to_read : Wait
  context_done : Wait

-- The write to the client; a failed one cancels the connection.
pub data Finished : Type 0 where
  answered : String → Finished
  write_to_client_failed : Finished
  gave_up : Finished
  still_waiting : Finished

abbrev pub write_response : Bool → String → Finished
write_response true response = answered response
write_response false response = write_to_client_failed

unfoldable pub finish_websocket :
    ℕ → ℕ → Wait → Bool → ProxiedConnection → Finished × ProxiedConnection
unfolding receive abandon
finish_websocket id ready context_done writes pc = (gave_up, abandon id pc)
finish_websocket id ready ready_to_read writes pc = elim (receive id ready pc) [
  | none ↦ (still_waiting, pc)
  | some (response, pc') ↦ (write_response writes response, pc')
]

pub record HttpRequest : Type 0 where
  pub url : String
  pub host : String
  pub header : Header
  pub body : String

-- `none` for a body that breaks off.
pub record HttpResponse : Type 0 where
  pub header : Header
  pub body : Option String

-- The error page has the headers that are set by then.
pub data HttpReply : Type 0 where
  internal_error : Header → HttpReply
  replied : Header → String → HttpReply
  url_panicked : HttpReply

-- The handler's part after the upstream's response; `own` are the headers set so far.
unfoldable pub relay : Header → HttpResponse → HttpReply
unfolding copy_header
relay own resp = elim (resp.body) [
  | none ↦ internal_error (copy_header own resp.header)
  | some b ↦ replied (copy_header own resp.header) b
]

-- `url_host` is url.Parse, with nil for an address that does not parse; `run` is client.Do.
unfoldable pub serve_http :
    {W : Type 0}
    → (W → String × W)
    → (String → Option String)
    → (HttpRequest → W → Option HttpResponse × W)
    → Header
    → HttpRequest
    → W
    → HttpReply × W
unfolding relay copy_header
serve_http alive_endpoint url_host run own r w =
    let (server, w') = alive_endpoint w in
    elim (url_host server) [
      | none ↦ (url_panicked, w')
      | some host ↦
          let sent = record r { url = server; host = host; header = copy_header [] r.header } in
          let (answer, w'') = run sent w' in
          (elim answer [ none ↦ internal_error own | some resp ↦ relay own resp ], w'')
    ]
