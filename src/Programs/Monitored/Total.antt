-- ===== src/Programs/Monitored/Total.antt =====
-- Every event has the labels that its type's metric was made with, so none panics.
use substrate_rpc_proxy.Consumer.{
  Metric, messages_in_progress, extrinsics_count, resubmissions_count, expired_count, invalid_count,
  already_added_count, block_gap,
}
use substrate_rpc_proxy.Endpoint.Report.{report_metrics}
use substrate_rpc_proxy.Middleware.Calls.{observe_call}
use substrate_rpc_proxy.Middleware.Logger.{get_log_field}
use substrate_rpc_proxy.Monitoring as Monitoring
use substrate_rpc_proxy.Monitoring.{
  Kind, histogram, counter, gauge, histogram_vec, gauge_vec, endpoints_vec, kind_of,
  PrometheusMetrics, register, process_event, apply_event, is_made,
}
use substrate_rpc_proxy.Prelude.{
  ◌≡◌, refl, inl, inr, ℕ, String, Bool, true, false, List, [], ◌∷◌, Option, none, some,
  none-ne-some, length, All, Bool-cases, Option-cases, ◌==◌, ◌-◌, arith,
}
use substrate_rpc_proxy.Proxy.Metrics.{format_address, count_connections, emit_counts, emit_metrics}
use substrate_rpc_proxy.Programs.Monitored.{
  register_all, proxy_parts, consumer_parts, Emission, of_consumer, tick, served, free_tokens,
  inspected, reported, emit_metric, emit_tokens, emit, emit_all, monitor,
}

-- A result that is no panic.
abbrev pub Returns : {A : Type 0} → Option A → Type 0
Returns {A} r = (a : A) × (r ≡ some a)

-- The labels that a metric of a kind takes.
abbrev HasLabels : Kind → List String → Type 0
HasLabels (histogram_vec n) lvs = length lvs ≡ n
HasLabels (gauge_vec n) lvs = length lvs ≡ n
HasLabels _ lvs = Unit

module _ {V : Type 0} where
  apply_event-Returns :
      (k : Kind) (name : String) (v : V) (lvs : List String) (p : PrometheusMetrics V)
      → HasLabels k lvs
      → Returns (apply_event k name v lvs p)
  unfolding apply_event
  apply_event-Returns histogram name v lvs p h = (_, refl)
  apply_event-Returns counter name v lvs p h = (_, refl)
  apply_event-Returns gauge name v lvs p h = (_, refl)
  apply_event-Returns endpoints_vec name v lvs p h = (_, refl)
  apply_event-Returns (histogram_vec n) name v lvs p h =
      let e : (length lvs == n) ≡ true = ground arith in
      (Monitoring.observe name lvs v p, rw (apply_event, e))
  apply_event-Returns (gauge_vec n) name v lvs p h =
      let e : (length lvs == n) ≡ true = ground arith in
      (Monitoring.set_gauge name lvs v p, rw (apply_event, e))

  process_event-Returns :
      (k : Kind) (name : String) (v : V) (lvs : List String) (p : PrometheusMetrics V)
      → kind_of name ≡ some k
      → HasLabels k lvs
      → Returns (process_event name v lvs p)
  unfolding process_event
  process_event-Returns k name v lvs p e h = elim (Bool-cases (is_made name p.made)) [
    | inl t ↦ rw (process_event, e, t) (apply_event-Returns k name v lvs p h)
    | inr f ↦ rw (process_event, e, f) (p, refl)
  ]

  module _ (valid : String → Bool) (float : ℕ → V)
      (parse_url : String → Option (String × String × String)) where
    emit_metric-Returns :
        (metric : Metric) (p : PrometheusMetrics V)
        → Returns (emit_metric valid float parse_url metric p)
    unfolding emit_metric kind_of
    emit_metric-Returns (messages_in_progress n) p =
        process_event-Returns gauge Monitoring.consumer_messages_in_progress (float n) [] p refl tt
    emit_metric-Returns extrinsics_count p =
        process_event-Returns counter Monitoring.extrinsics_count (float 1) [] p refl tt
    emit_metric-Returns resubmissions_count p =
        process_event-Returns counter Monitoring.extrinsics_resubmissions_count (float 1) [] p refl
          tt
    emit_metric-Returns expired_count p =
        process_event-Returns counter Monitoring.extrinsics_expired_count (float 1) [] p refl tt
    emit_metric-Returns invalid_count p =
        process_event-Returns counter Monitoring.extrinsics_invalid_count (float 1) [] p refl tt
    emit_metric-Returns already_added_count p =
        process_event-Returns counter Monitoring.extrinsics_already_added_count (float 1) [] p refl
          tt
    emit_metric-Returns (block_gap n) p =
        process_event-Returns histogram Monitoring.extrinsics_block_gap (float n) [] p refl tt

    -- Two steps, neither of which panics.
    both :
        (r : Option (PrometheusMetrics V))
        (next : PrometheusMetrics V → Option (PrometheusMetrics V))
        → Returns r
        → ((p : PrometheusMetrics V) → Returns (next p))
        → Returns (elim r as (λ x. Option (PrometheusMetrics V)) [ none ↦ none | some p ↦ next p ])
    both none next (a, e) h = absurd (none-ne-some e)
    both (some p) next ok h = h p

    emit_counts-Returns :
        (name : String)
        → kind_of name ≡ some (gauge_vec 1)
        → (counts : List (String × ℕ)) (p : PrometheusMetrics V)
        → Returns (emit_counts float name counts p)
    unfolding emit_counts
    emit_counts-Returns name k [] p = (p, refl)
    emit_counts-Returns name k ((host, c) ∷ counts) p =
        both (emit_counts float name counts p) (process_event name (float c) (host ∷ []))
          (emit_counts-Returns name k counts p)
          (λ p'. process_event-Returns (gauge_vec 1) name (float c) (host ∷ []) p' k refl)

    -- The label values of a request that was served are valid; the other labels are fixed texts and
    -- addresses of the configuration.
    abbrev pub IsValid : Emission → Type 0
    IsValid (served now r) =
        (valid r.rpc_method ≡ true)
        × (valid (format_address parse_url (get_log_field "upstream" r.log_fields)) ≡ true)
    IsValid _ = Unit

    emit-Returns :
        (e : Emission) (p : PrometheusMetrics V)
        → IsValid e
        → Returns (emit valid float parse_url e p)
    unfolding emit kind_of emit_metrics observe_call emit_tokens
    emit-Returns (of_consumer metric) p ok = emit_metric-Returns metric p
    emit-Returns (tick table) p ok =
        let counts = count_connections parse_url table ([], []) in
        both (emit_counts float Monitoring.proxy_established_connections counts.0 p)
          (emit_counts float Monitoring.proxy_running_requests counts.1)
          (emit_counts-Returns Monitoring.proxy_established_connections refl counts.0 p)
          (emit_counts-Returns Monitoring.proxy_running_requests refl counts.1)
    emit-Returns (served now r) p ok = elim (Option-cases r.start_time) [
      | inl no_time ↦ rw (emit, observe_call, no_time) (p, refl)
      | inr (start, e) ↦
          let upstream = format_address parse_url (get_log_field "upstream" r.log_fields) in
          rw (emit, observe_call, e, ok.0, ok.1)
            (process_event-Returns (histogram_vec 2) Monitoring.proxy_rpc_calls
              (float (now - start)) (r.rpc_method ∷ upstream ∷ []) p refl refl)
    ]
    emit-Returns (free_tokens backlog limit) p ok =
        both
          (process_event Monitoring.proxy_throttle_backlog_size (float backlog) ("Backlog" ∷ []) p)
          (process_event Monitoring.proxy_throttle_backlog_size (float limit) ("Limit" ∷ []))
          (process_event-Returns (gauge_vec 1) Monitoring.proxy_throttle_backlog_size
            (float backlog) ("Backlog" ∷ []) p refl refl)
          (λ p'.
            process_event-Returns (gauge_vec 1) Monitoring.proxy_throttle_backlog_size (float limit)
              ("Limit" ∷ []) p' refl refl)
    emit-Returns inspected p ok =
        process_event-Returns counter Monitoring.extrinsics_count (float 1) [] p refl tt
    emit-Returns (reported ups) p ok =
        process_event-Returns endpoints_vec Monitoring.upstream_endpoints_status (float 1)
          (report_metrics ups) p refl tt

    emit_all-Returns :
        (es : List Emission) (p : PrometheusMetrics V)
        → All IsValid es
        → Returns (emit_all valid float parse_url es p)
    unfolding emit_all
    emit_all-Returns [] p h = (p, refl)
    emit_all-Returns (e ∷ es) p (ok, h) =
        both (emit valid float parse_url e p) (emit_all valid float parse_url es)
          (emit-Returns e p ok) (λ q. emit_all-Returns es q h)

    -- The registrations of the proxy, with the inspector and without it, and those of the consumer are of
    -- distinct types, and every event that a part of them emits has as many labels as the metric of its
    -- type: where the methods and upstreams of the requests that were served are valid UTF-8, as the
    -- addresses of the configuration are, neither program panics in the monitoring, whatever events
    -- there are, in any order.
    pub monitor-Returns :
        (inspect_extrinsics : Bool) (es : List Emission)
        → All IsValid es
        → Returns (monitor valid float parse_url (proxy_parts inspect_extrinsics) es)
          × Returns (monitor valid float parse_url consumer_parts es)
    unfolding monitor register_all proxy_parts register kind_of is_made
    monitor-Returns true es h = (emit_all-Returns es _ h, emit_all-Returns es _ h)
    monitor-Returns false es h = (emit_all-Returns es _ h, emit_all-Returns es _ h)
