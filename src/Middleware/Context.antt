-- ===== src/Middleware/Context.antt =====
-- The keys of a request's context and ErrorResponse.Render of pkg/middleware/types.go, and
-- pkg/middleware/upstreamprov.go. A context is the list of its values, the newest first; P is the type
-- of providers, and none is a panic: of Intn in the provider, or of the assertion on a value's type.
use substrate_rpc_proxy.Endpoint.{healthy}
use substrate_rpc_proxy.Endpoint.Rating.{Upstreams}
use substrate_rpc_proxy.Endpoint.Choice.{get_alive_endpoint}
use substrate_rpc_proxy.Endpoint.Choice.Everyone.{IsListed, get_endpoint-ReturnsHealthy}
use substrate_rpc_proxy.Middleware.Responses.{ErrorResponse}
use substrate_rpc_proxy.Prelude.{
  ℕ, ◌<◌, ◌≡◌, ◌≢◌, refl, ap, String, List, [], ◌∷◌, Option, none, some, str_eq, if◌then◌else◌,
}

pub data ContextKey : Type 0 where
  client_addr : ContextKey
  upstream_provider : ContextKey
  upstream_addr : ContextKey
  log_fields : ContextKey
  log_with_params : ContextKey
  log_with_ignore_methods : ContextKey
  log_request_start_time : ContextKey
  log_logger : ContextKey
  response_text : ContextKey
  rpc_payload : ContextKey
  rpc_method : ContextKey
  rpc_request_id : ContextKey
  rpc_middleware : ContextKey
  connection_type : ContextKey
  connection_parent : ContextKey
  connection_client_ws : ContextKey
  connection_client_id : ContextKey
  connection_client_cancel : ContextKey

-- The text that is the key.
unfoldable pub key_text : ContextKey → String
key_text client_addr = "ClientAddr"
key_text upstream_provider = "UpstreamProvider"
key_text upstream_addr = "UpstreamAddr"
key_text log_fields = "LogFields"
key_text log_with_params = "LogWithParams"
key_text log_with_ignore_methods = "LogWithIgnoreMethods"
key_text log_request_start_time = "LogRequestStartTime"
key_text log_logger = "LogLogger"
key_text response_text = "ResponseText"
key_text rpc_payload = "RPCPayload"
key_text rpc_method = "RPCMethod"
key_text rpc_request_id = "RPCRequestID"
key_text rpc_middleware = "RPCMiddleware"
key_text connection_type = "ConnectionType"
key_text connection_parent = "ConnectionParentContext"
key_text connection_client_ws = "ConnectionClientWS"
key_text connection_client_id = "ConnectionClientID"
key_text connection_client_cancel = "ConnectionClientCancel"

-- The values that this module reads, and the others.
pub data ContextValue (P : Type 0) : Type 0 where
  text : String → ContextValue P
  provider : P → ContextValue P
  unread : ContextValue P

abbrev pub Context : Type 0 → Type 0
Context P = List (ContextKey × ContextValue P)

module _ {P : Type 0} where
  abbrev pub with_value : ContextKey → ContextValue P → Context P → Context P
  with_value k v ctx = (k, v) ∷ ctx

  unfoldable pub value : ContextKey → Context P → Option (ContextValue P)
  unfolding key_text
  value k [] = none
  value k ((k', v) ∷ ctx) =
      let rest = value k ctx in if str_eq (key_text k') (key_text k) then some v else rest

  unfoldable pub as_text : Option (ContextValue P) → Option String
  as_text none = some ""
  as_text (some (text s)) = some s
  as_text (some (provider p)) = none
  as_text (some unread) = none

  unfoldable pub get_assigned_upstream : Context P → Option String
  unfolding value as_text
  get_assigned_upstream ctx = as_text (value upstream_addr ctx)

  -- A provider that is none is the nil interface.
  unfoldable pub as_provider : Option (ContextValue P) → Option (Option P)
  as_provider none = some none
  as_provider (some (text s)) = none
  as_provider (some (provider p)) = some (some p)
  as_provider (some unread) = none

  unfoldable pub get_endpoint_provider : Context P → Option (Option P)
  unfolding value as_provider
  get_endpoint_provider ctx = as_provider (value upstream_provider ctx)

  unfoldable pub after_alive : P → Context P → Option String → Option (Context P)
  after_alive prov ctx none = none
  after_alive prov ctx (some addr) = some (with_value upstream_provider (provider prov) ctx)

  -- The context for the next handler.
  unfoldable pub endpoint_provider :
      (P → String → ℕ → Option String) → P → Context P → Option (Context P)
  unfolding after_alive
  endpoint_provider get_alive_endpoint prov ctx =
      after_alive prov ctx (get_alive_endpoint prov "" 2)

  -- The next handler runs when the provider finds an endpoint, and then it reads this provider, and
  -- the same assigned upstream as before.
  endpoint_provider-found :
      (get_alive_endpoint : P → String → ℕ → Option String) (prov : P) (ctx : Context P)
      (addr : String)
      → get_alive_endpoint prov "" 2 ≡ some addr
      → (next : Context P) × (endpoint_provider get_alive_endpoint prov ctx ≡ some next)
        × (get_endpoint_provider next ≡ some (some prov))
        × (get_assigned_upstream next ≡ get_assigned_upstream ctx)
  unfolding endpoint_provider get_endpoint_provider get_assigned_upstream
  endpoint_provider-found alive prov ctx addr e =
      (with_value upstream_provider (provider prov) ctx, ap (after_alive prov ctx) e, refl, refl)

-- With the provider of Endpoint/Choice.antt, when some address is healthy as EndpointProvider asks:
-- the next handler runs and reads the provider.
endpoint_provider-healthy :
    (at : ℕ → Upstreams) (rand : ℕ → ℕ → ℕ)
    → ((n k : ℕ) → 0 < k → rand n k < k)
    → (a : String) → IsListed "" (at 2) a healthy
    → a ≢ ""
    → (ctx : Context Unit)
    → (next : Context Unit) × (endpoint_provider (λ p. get_alive_endpoint at rand) tt ctx
        ≡ some next)
      × (get_endpoint_provider next ≡ some (some tt))
      × (get_assigned_upstream next ≡ get_assigned_upstream ctx)
unfolding get_alive_endpoint
endpoint_provider-healthy at rand rand_lt a l other ctx =
    let (x, e, m) = get_endpoint-ReturnsHealthy at rand rand_lt "" "" 2 a l other in
    endpoint_provider-found (λ p. get_alive_endpoint at rand) tt ctx x e

-- The status that the writer of the answer reads.
unfoldable pub render : ErrorResponse → Option ℕ → Option ℕ
render e status = some e.http_status_code
