-- ===== src/Proxy/Metrics.antt =====
-- emitMetrics of cmd/proxy/handler/proxy.go: one tick. `parse_url` is url.Parse of an address, its host
-- name, port and path; a Go map is an association list, and the loop over it begins at its end.
pub mod Counts
pub mod Gauges
use substrate_rpc_proxy.Endpoint.Address.{format_parts}
use substrate_rpc_proxy.Monitoring.{
  PrometheusMetrics, proxy_established_connections, proxy_running_requests, process_event,
}
use substrate_rpc_proxy.Prelude.{
  ℕ, zero, suc, ◌+◌, String, List, [], ◌∷◌, Option, none, some, str_eq, if◌then◌else◌,
}
use substrate_rpc_proxy.Proxy.Connection.{RequestPayload}
use substrate_rpc_proxy.Proxy.Handler.{Proxied}

-- FormatUpstream of a text
unfoldable pub format_address : (String → Option (String × String × String)) → String → String
unfolding format_parts
format_address parse_url v = elim (parse_url v) [
  | none ↦ format_parts v "" ""
  | some parts ↦ format_parts parts.0 parts.1 parts.2
]

unfoldable pub count_of : String → List (String × ℕ) → Option ℕ
count_of host [] = none
count_of host ((h, c) ∷ counts) = if str_eq h host then some c else count_of host counts

-- `counts[host]++`
unfoldable pub increment : String → List (String × ℕ) → List (String × ℕ)
increment host [] = (host, 1) ∷ []
increment host ((h, c) ∷ counts) =
    if str_eq h host then (h, c + 1) ∷ counts else (h, c) ∷ increment host counts

-- if _, ok := counts[host]; !ok { counts[host] = 0 }
unfoldable pub ensure : String → List (String × ℕ) → List (String × ℕ)
unfolding count_of
ensure host counts = elim (count_of host counts) [ none ↦ (host, 0) ∷ counts | some c ↦ counts ]

unfoldable pub count_requests :
    String → List (ℕ × RequestPayload) → List (String × ℕ) → List (String × ℕ)
unfolding increment
count_requests host [] counts = counts
count_requests host (q ∷ qs) counts = count_requests host qs (increment host counts)

-- The loop over the connections, with connectionsCount and requestsCount.
unfoldable pub count_connections :
    (String → Option (String × String × String))
    → List (String × Proxied)
    → List (String × ℕ) × List (String × ℕ)
    → List (String × ℕ) × List (String × ℕ)
unfolding format_address increment ensure count_requests
count_connections parse_url [] counts = counts
count_connections parse_url ((id, p) ∷ table) (connections, requests) =
    let host = format_address parse_url p.upstream in
    count_connections parse_url table
      (increment host connections, count_requests host p.connection.requests (ensure host requests))

module _ {V : Type 0} (float : ℕ → V) where
  unfoldable pub emit_counts :
      String → List (String × ℕ) → PrometheusMetrics V → Option (PrometheusMetrics V)
  unfolding process_event
  emit_counts name [] m = some m
  emit_counts name ((host, c) ∷ counts) m = elim (emit_counts name counts m) [
    | none ↦ none
    | some m' ↦ process_event name (float c) (host ∷ []) m'
  ]

  unfoldable pub emit_metrics :
      (String → Option (String × String × String))
      → List (String × Proxied)
      → PrometheusMetrics V
      → Option (PrometheusMetrics V)
  unfolding count_connections emit_counts
  emit_metrics parse_url table m =
      let (connections, requests) = count_connections parse_url table ([], []) in
      elim (emit_counts proxy_established_connections connections m) [
        | none ↦ none
        | some m' ↦ emit_counts proxy_running_requests requests m'
      ]
