-- ===== src/Endpoint/Report.antt =====
-- reportMetrics: what one turn of its loop hands to the observer.
use Prim.Native.String
use substrate_rpc_proxy.Prelude.{String, List, [], ◌∷◌, ◌++◌, if◌then◌else◌}
use substrate_rpc_proxy.Endpoint.{
  EndpointStatus, Upstream, UpstreamEndpoint, is_healthy, is_available,
}
use substrate_rpc_proxy.Endpoint.Address.{format_upstream, format_endpoint}
use substrate_rpc_proxy.Endpoint.Rating.{Upstreams}

unfoldable pub status_label : EndpointStatus → String
status_label s =
    if is_healthy s then "UpNormal" else if is_available s then "UpDegraded" else "Unavailable"

-- "%s|%s"
unfoldable pub report_line : String → EndpointStatus → String
unfolding status_label
report_line host status = String.◌++◌ host (String.◌++◌ "|" (status_label status))

unfoldable pub report_endpoints : Upstream → List UpstreamEndpoint → List String
unfolding report_line format_endpoint
report_endpoints u [] = []
report_endpoints u (e ∷ es) = report_line (format_endpoint u e) e.status ∷ report_endpoints u es

unfoldable pub report_upstream : Upstream → List String
unfolding report_line report_endpoints format_upstream
report_upstream u =
    if u.must_resolve
    then report_endpoints u u.endpoints
    else report_line (format_upstream u) u.status ∷ []

unfoldable pub report_metrics : Upstreams → List String
unfolding report_upstream
report_metrics [] = []
report_metrics ((k, u) ∷ ups) = report_upstream u ++ report_metrics ups
