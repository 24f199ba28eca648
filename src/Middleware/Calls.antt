-- ===== src/Middleware/Calls.antt =====
-- HttpMetrics of pkg/middleware/jsonrpc_metrics.go: the duration of a request, by method and upstream.
-- `seconds` is the number of seconds as a float64, and `valid` is utf8.ValidString, with which the library
-- checks each label value: the method is the client's text as the JSON library reads it, unchecked.
use substrate_rpc_proxy.Middleware.Logger.{LogRequest, get_log_field}
use substrate_rpc_proxy.Monitoring.{PrometheusMetrics, proxy_rpc_calls, process_event}
use substrate_rpc_proxy.Prelude.{
  ℕ, ◌-◌, String, Bool, ◌&&◌, [], ◌∷◌, Option, none, some, if◌then◌else◌,
}
use substrate_rpc_proxy.Proxy.Metrics.{format_address}

-- After the next handler; `none` is the panic of the library.
unfoldable pub observe_call :
    {V : Type 0}
    → (String → Bool)
    → (ℕ → V)
    → (String → Option (String × String × String))
    → ℕ
    → LogRequest
    → PrometheusMetrics V
    → Option (PrometheusMetrics V)
unfolding process_event get_log_field format_address
observe_call valid seconds parse_url now r m = elim (r.start_time) [
  | none ↦ some m
  | some start ↦
      let upstream = format_address parse_url (get_log_field "upstream" r.log_fields) in
      let observed =
        process_event proxy_rpc_calls (seconds (now - start)) (r.rpc_method ∷ upstream ∷ []) m in
      if valid r.rpc_method && valid upstream then observed else none
]
