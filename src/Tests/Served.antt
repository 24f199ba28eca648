-- ===== src/Tests/Served.antt =====
-- Websocket clients of the proxy, with and without upstreams, and a tick of its metrics.
use substrate_rpc_proxy.Dto.{RpcFrame}
use substrate_rpc_proxy.Monitoring.{
  PrometheusMetrics, new_metrics, proxy_established_connections, proxy_running_requests,
  upstream_endpoints_status, is_made, process_event,
}
use substrate_rpc_proxy.Monitoring.Labels.{
  gauge_value, has_bar, statuses, is_reported, process_event-reported,
}
use substrate_rpc_proxy.Endpoint.Address.{format_endpoint, format_upstream}
use substrate_rpc_proxy.Endpoint.Report.{report_metrics}
use substrate_rpc_proxy.Prelude.{
  ℕ, ◌≡◌, ◌≢◌, ◌↔◌, refl, String, true, false, List, [], ◌∷◌, Option, none, some, if◌then◌else◌,
}
use substrate_rpc_proxy.Proxy.Connection.{
  ProxiedConnection, new_connection, handle_upstream_response,
}
use substrate_rpc_proxy.Proxy.Connection as Connection
use substrate_rpc_proxy.Proxy.Handler.{Outside, Proxied, load}
use substrate_rpc_proxy.Proxy.Metrics.{emit_metrics}
use substrate_rpc_proxy.Proxy.Metrics.Counts.{total, one, running}
use substrate_rpc_proxy.Proxy.Metrics.Gauges.{shown, emit_metrics-counts}
use substrate_rpc_proxy.Proxy.Serve.{
  panicked, waiting, answered, start_websocket, finish_websocket, ready_to_read,
}
use substrate_rpc_proxy.Proxy.Serve.Failure.{Refuses, start_websocket-panicked_iff}
use substrate_rpc_proxy.Proxy.Serve.RoundTrip.{start_websocket-answered}
use substrate_rpc_proxy.Tests.Nodes.{reply}
use substrate_rpc_proxy.Tests.Upstreams.{two_upstreams}

-- Every dial fails.
abbrev refusing : Outside
refusing = record {
  World = ℕ;
  alive_endpoint = λ w. ("ws://10.0.0.2:9944/", w);
  dial = λ url w. (false, w);
}

start_websocket-panicked_iff_example :
    ((start_websocket refusing "client" 1 "{}" true [] 0).0.0 ≡ panicked)
    ↔ ((load "client" [] ≡ none) × Refuses refusing 3 0)
start_websocket-panicked_iff_example =
    start_websocket-panicked_iff refusing "client" 1 "{}" true [] 0

nil_dereference-run : (start_websocket refusing "client" 1 "{}" true [] 0).0.0 ≡ panicked
unfolding start_websocket
nil_dereference-run = refl

abbrev parse : String → Option RpcFrame
parse s = some reply

abbrev proxied : Proxied
proxied = record { upstream = "node:443"; connection = new_connection }

abbrev table : List (String × Proxied)
table = ("client", proxied) ∷ []

known : load "client" table ≡ some proxied
unfolding load
known = refl

nothing_runs : Connection.load 1 [] ≡ none
unfolding Connection.load
nothing_runs = refl

start_websocket-answered_example :
    let started = start_websocket refusing "client" 1 "{}" true table 0 in
    (started.0.0 ≡ waiting 0)
    × ((q : Proxied) × (load "client" started.0.1 ≡ some q)
        × ((finish_websocket 1 0 ready_to_read true
              (handle_upstream_response parse "{\"id\":1}" true q.connection).1).0
            ≡ answered "{\"id\":1}"))
    × ((other : String) → other ≢ "client" → load other started.0.1 ≡ load other table)
start_websocket-answered_example =
    start_websocket-answered parse refusing "client" 1 "{}" "{\"id\":1}" true reply table 0 proxied
      known nothing_runs refl refl

-- Both gauges are registered; an address is its own host name.
abbrev metrics : PrometheusMetrics ℕ
metrics = record new_metrics {
  made = proxy_established_connections ∷ proxy_running_requests ∷ upstream_endpoints_status ∷ [];
}

abbrev host_only : String → Option (String × String × String)
host_only s = some (s, "", "")

connections_made : is_made proxy_established_connections metrics.made ≡ true
unfolding is_made
connections_made = refl

requests_made : is_made proxy_running_requests metrics.made ≡ true
unfolding is_made
requests_made = refl

status_made : is_made upstream_endpoints_status metrics.made ≡ true
unfolding is_made
status_made = refl

emit_metrics-counts_example :
    (m' : PrometheusMetrics ℕ) × (emit_metrics (λ n. n) host_only table metrics ≡ some m')
    × ((host : String)
        → (gauge_value proxy_established_connections (host ∷ []) m'.gauges
            ≡ shown
                (λ n. n)
                (total host_only one host table)
                (gauge_value proxy_established_connections (host ∷ []) metrics.gauges))
          × (gauge_value proxy_running_requests (host ∷ []) m'.gauges
              ≡ shown
                  (λ n. n)
                  (total host_only running host table)
                  (gauge_value proxy_running_requests (host ∷ []) metrics.gauges)))
emit_metrics-counts_example =
    emit_metrics-counts (λ n. n) host_only table metrics connections_made requests_made

process_event-reported_example :
    (p' : PrometheusMetrics ℕ) × (process_event upstream_endpoints_status 1
        (report_metrics (two_upstreams 0))
        metrics
      ≡ some p')
    × ((host label : String)
        → gauge_value upstream_endpoints_status (host ∷ label ∷ []) p'.gauges
          ≡ (if is_reported host label (statuses (two_upstreams 0)) then some 1 else none))
unfolding has_bar statuses format_endpoint format_upstream
process_event-reported_example =
    process_event-reported (two_upstreams 0) 1 metrics status_made (refl, (refl, (refl, tt)))
