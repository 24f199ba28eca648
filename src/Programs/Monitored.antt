-- ===== src/Programs/Monitored.antt =====
-- The observers of the two programs: which types of events their parts register, in the order of
-- cmd/proxy/main.go and cmd/consumer/main.go, and the events that the parts emit while they run.
pub mod Total
use substrate_rpc_proxy.Consumer.{
  Metric, messages_in_progress, extrinsics_count, resubmissions_count, expired_count, invalid_count,
  already_added_count, block_gap,
}
use substrate_rpc_proxy.Endpoint.Rating.{Upstreams}
use substrate_rpc_proxy.Endpoint.Report.{report_metrics}
use substrate_rpc_proxy.Middleware.Calls.{observe_call}
use substrate_rpc_proxy.Middleware.Logger.{LogRequest}
use substrate_rpc_proxy.Monitoring as Monitoring
use substrate_rpc_proxy.Monitoring.{PrometheusMetrics, register, process_event}
use substrate_rpc_proxy.Prelude.{
  ℕ, String, Bool, List, [], ◌∷◌, ◌++◌, Option, none, some, if◌then◌else◌,
}
use substrate_rpc_proxy.Proxy.Handler.{Proxied}
use substrate_rpc_proxy.Proxy.Metrics.{emit_metrics}

-- GetMonitoringEventTypes of the upstream provider, the consumer, the proxy, HttpMetrics, the throttle
-- and the inspector.
abbrev pub provider_types : List String
provider_types = Monitoring.upstream_endpoints_status ∷ []

abbrev pub consumer_types : List String
consumer_types =
    Monitoring.extrinsics_block_gap ∷ Monitoring.extrinsics_count
    ∷ Monitoring.extrinsics_resubmissions_count ∷ Monitoring.extrinsics_expired_count
    ∷ Monitoring.extrinsics_invalid_count ∷ Monitoring.extrinsics_already_added_count
    ∷ Monitoring.consumer_messages_in_progress ∷ []

abbrev pub proxy_types : List String
proxy_types = Monitoring.proxy_established_connections ∷ Monitoring.proxy_running_requests ∷ []

abbrev pub call_types : List String
call_types = Monitoring.proxy_rpc_calls ∷ []

abbrev pub throttle_types : List String
throttle_types = Monitoring.proxy_throttle_backlog_size ∷ []

abbrev pub inspector_types : List String
inspector_types = Monitoring.extrinsics_count ∷ []

-- The calls of Register one after the other.
unfoldable pub register_all :
    {V : Type 0} → List (List String) → PrometheusMetrics V → Option (PrometheusMetrics V)
unfolding register
register_all [] p = some p
register_all (types ∷ parts) p = elim (register types p) [
  | none ↦ none
  | some p' ↦ register_all parts p'
]

-- The parts of the proxy: the inspector is one of them if it is on.
unfoldable pub proxy_parts : Bool → List (List String)
proxy_parts inspect_extrinsics =
    provider_types
    ∷ proxy_types
    ∷ call_types
    ∷ throttle_types
    ∷ (if inspect_extrinsics then inspector_types ∷ [] else [])

abbrev pub consumer_parts : List (List String)
consumer_parts = provider_types ∷ consumer_types ∷ []

-- An event of a part, with what it is made of: of the consumer, a tick of the proxy, a request that was
-- served, a tick of the throttle with its free tokens, an extrinsic that was seen, and a report of the
-- provider.
pub data Emission : Type 0 where
  of_consumer : Metric → Emission
  tick : List (String × Proxied) → Emission
  served : ℕ → LogRequest → Emission
  free_tokens : ℕ → ℕ → Emission
  inspected : Emission
  reported : Upstreams → Emission

module _ {V : Type 0} (valid : String → Bool) (float : ℕ → V)
    (parse_url : String → Option (String × String × String)) where
  -- The calls of c.mon.ProcessEvent of the consumer.
  unfoldable pub emit_metric : Metric → PrometheusMetrics V → Option (PrometheusMetrics V)
  unfolding process_event
  emit_metric (messages_in_progress n) p =
      process_event Monitoring.consumer_messages_in_progress (float n) [] p
  emit_metric extrinsics_count p = process_event Monitoring.extrinsics_count (float 1) [] p
  emit_metric resubmissions_count p =
      process_event Monitoring.extrinsics_resubmissions_count (float 1) [] p
  emit_metric expired_count p = process_event Monitoring.extrinsics_expired_count (float 1) [] p
  emit_metric invalid_count p = process_event Monitoring.extrinsics_invalid_count (float 1) [] p
  emit_metric already_added_count p =
      process_event Monitoring.extrinsics_already_added_count (float 1) [] p
  emit_metric (block_gap n) p = process_event Monitoring.extrinsics_block_gap (float n) [] p

  -- One turn of the throttle's ticker.
  unfoldable pub emit_tokens : ℕ → ℕ → PrometheusMetrics V → Option (PrometheusMetrics V)
  unfolding process_event
  emit_tokens backlog limit p =
      elim (process_event Monitoring.proxy_throttle_backlog_size (float backlog) ("Backlog" ∷ [])
        p) [
          | none ↦ none
          | some p' ↦
              process_event Monitoring.proxy_throttle_backlog_size (float limit) ("Limit" ∷ []) p'
        ]

  unfoldable pub emit : Emission → PrometheusMetrics V → Option (PrometheusMetrics V)
  unfolding emit_metric emit_metrics observe_call emit_tokens process_event report_metrics
  emit (of_consumer metric) p = emit_metric metric p
  emit (tick table) p = emit_metrics float parse_url table p
  emit (served now r) p = observe_call valid float parse_url now r p
  emit (free_tokens backlog limit) p = emit_tokens backlog limit p
  emit inspected p = process_event Monitoring.extrinsics_count (float 1) [] p
  emit (reported ups) p =
      process_event Monitoring.upstream_endpoints_status (float 1) (report_metrics ups) p

  unfoldable pub emit_all : List Emission → PrometheusMetrics V → Option (PrometheusMetrics V)
  unfolding emit
  emit_all [] p = some p
  emit_all (e ∷ es) p = elim (emit e p) [ none ↦ none | some p' ↦ emit_all es p' ]

  -- A program: the registrations, and then the events.
  unfoldable pub monitor : List (List String) → List Emission → Option (PrometheusMetrics V)
  unfolding register_all emit_all
  monitor parts es = elim (register_all parts Monitoring.new_metrics) [
    | none ↦ none
    | some p ↦ emit_all es p
  ]
