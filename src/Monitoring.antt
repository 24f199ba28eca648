-- ===== src/Monitoring.antt =====
-- pkg/monitoring/monitoring.go: the metrics of a program. `V` is float64. Of the Prometheus library is
-- used what it documents: a second metric of one name panics when it is made, and so does a wrong
-- number of label values; Reset and DeleteLabelValues take series away. A label value that is not valid
-- UTF-8 panics as well: Middleware/Calls.antt looks at those that a client sends, and here all are valid.
pub mod Labels
use Prim.Native.Char.{code}
use Prim.Native.String
use substrate_rpc_proxy.Prelude.{
  ℕ, String, Bool, true, false, ◌&&◌, ◌||◌, List, [], ◌∷◌, Option, none, some, length, str_eq,
  onto_first, ◌==◌, if◌then◌else◌,
}

abbrev pub extrinsics_block_gap : String
extrinsics_block_gap = "sub_extrinsics_block_gap"

abbrev pub extrinsics_count : String
extrinsics_count = "sub_extrinsics_seen_count"

abbrev pub extrinsics_resubmissions_count : String
extrinsics_resubmissions_count = "sub_extrinsics_resubmitted_count"

abbrev pub extrinsics_expired_count : String
extrinsics_expired_count = "sub_extrinsics_expired_count"

abbrev pub extrinsics_already_added_count : String
extrinsics_already_added_count = "sub_extrinsics_already_added_count"

abbrev pub extrinsics_invalid_count : String
extrinsics_invalid_count = "sub_extrinsics_rejected_by_node_count"

abbrev pub proxy_rpc_calls : String
proxy_rpc_calls = "sub_proxy_rpc_calls"

abbrev pub proxy_established_connections : String
proxy_established_connections = "sub_proxy_established_conn_count"

abbrev pub proxy_running_requests : String
proxy_running_requests = "sub_proxy_running_requests_count"

abbrev pub proxy_throttle_backlog_size : String
proxy_throttle_backlog_size = "sub_proxy_throttle_available_slots"

abbrev pub consumer_messages_in_progress : String
consumer_messages_in_progress = "sub_consumer_messages_in_progress"

abbrev pub upstream_endpoints_status : String
upstream_endpoints_status = "sub_upstream_endpoints"

-- What is made for a name; a vector has so many labels. The gauge of the endpoints takes its labels
-- apart itself.
pub data Kind : Type 0 where
  histogram counter gauge : Kind
  histogram_vec gauge_vec : ℕ → Kind
  endpoints_vec : Kind

-- The cases of the switches; other names have none.
unfoldable pub kind_of : String → Option Kind
kind_of name =
    if str_eq name extrinsics_block_gap
    then some histogram
    else if str_eq name extrinsics_count
    then some counter
    else if str_eq name extrinsics_resubmissions_count
    then some counter
    else if str_eq name extrinsics_expired_count
    then some counter
    else if str_eq name extrinsics_invalid_count
    then some counter
    else if str_eq name extrinsics_already_added_count
    then some counter
    else if str_eq name consumer_messages_in_progress
    then some gauge
    else if str_eq name proxy_rpc_calls
    then some (histogram_vec 2)
    else if str_eq name proxy_established_connections
    then some (gauge_vec 1)
    else if str_eq name proxy_running_requests
    then some (gauge_vec 1)
    else if str_eq name proxy_throttle_backlog_size
    then some (gauge_vec 1)
    else if str_eq name upstream_endpoints_status
    then some endpoints_vec
    else none

-- The fields that are not nil, and the series: increments of counters, settings of gauges and
-- observations, the last one first.
pub record Sample (V : Type 0) : Type 0 where
  pub name : String
  pub labels : List String
  pub value : V

pub record PrometheusMetrics (V : Type 0) : Type 0 where
  pub made : List String
  pub increments : List String
  pub gauges : List (Sample V)
  pub observations : List (Sample V)

abbrev pub new_metrics : {V : Type 0} → PrometheusMetrics V
new_metrics = record { made = []; increments = []; gauges = []; observations = [] }

unfoldable pub is_made : String → List String → Bool
is_made name [] = false
is_made name (m ∷ ms) = str_eq m name || is_made name ms

-- strings.Split(s, "|")
unfoldable pub split_bar : String → List String
split_bar String.[] = "" ∷ []
split_bar (String.◌∷◌ c s) =
    let rest = split_bar s in
    if code c == b'|' then "" ∷ rest else onto_first (String.◌∷◌ c String.[]) rest

abbrev pub same_labels : List String → List String → Bool
same_labels [] [] = true
same_labels (a ∷ as') (b ∷ bs) = str_eq a b && same_labels as' bs
same_labels _ _ = false

module _ {V : Type 0} where
  -- The loop of Register; `none` is the panic.
  unfoldable pub register : List String → PrometheusMetrics V → Option (PrometheusMetrics V)
  unfolding kind_of is_made
  register [] p = some p
  register (name ∷ names) p =
      let made = register names (record p { made = name ∷ p.made }) in
      let skipped = register names p in
      elim (kind_of name) [ none ↦ skipped | some k ↦ if is_made name p.made then none else made ]

  unfoldable pub without : String → List (Sample V) → List (Sample V)
  without name [] = []
  without name (s ∷ ss) =
      let rest = without name ss in if str_eq s.name name then rest else s ∷ rest

  -- One setting for each pair that the labels hold; other labels are passed over.
  unfoldable pub set_endpoint : String → V → List String → List (Sample V) → List (Sample V)
  set_endpoint name value (addr ∷ status ∷ []) gauges =
      record { name = name; labels = addr ∷ status ∷ []; value = value } ∷ gauges
  set_endpoint name value parts gauges = gauges

  unfoldable pub set_endpoints : String → V → List String → List (Sample V) → List (Sample V)
  unfolding set_endpoint split_bar
  set_endpoints name value [] gauges = gauges
  set_endpoints name value (ep ∷ eps) gauges =
      set_endpoints name value eps (set_endpoint name value (split_bar ep) gauges)

  abbrev pub set_gauge : String → List String → V → PrometheusMetrics V → PrometheusMetrics V
  set_gauge name labels value p = record p {
    gauges = record { name = name; labels = labels; value = value } ∷ p.gauges;
  }

  abbrev pub observe : String → List String → V → PrometheusMetrics V → PrometheusMetrics V
  observe name labels value p = record p {
    observations = record { name = name; labels = labels; value = value } ∷ p.observations;
  }

  -- The case of a name whose field is not nil; `none` is the panic of WithLabelValues, for label values that
  -- are valid UTF-8.
  unfoldable pub apply_event :
      Kind → String → V → List String → PrometheusMetrics V → Option (PrometheusMetrics V)
  unfolding without set_endpoints
  apply_event histogram name value lvs p = some (observe name [] value p)
  apply_event counter name value lvs p = some (record p { increments = name ∷ p.increments })
  apply_event gauge name value lvs p = some (set_gauge name [] value p)
  apply_event (histogram_vec n) name value lvs p =
      if length lvs == n then some (observe name lvs value p) else none
  apply_event (gauge_vec n) name value lvs p =
      if length lvs == n then some (set_gauge name lvs value p) else none
  apply_event endpoints_vec name value lvs p =
      some (record p { gauges = set_endpoints name value lvs (without name p.gauges) })

  unfoldable pub process_event :
      String → V → List String → PrometheusMetrics V → Option (PrometheusMetrics V)
  unfolding kind_of is_made apply_event
  process_event name value lvs p = elim (kind_of name) [
    | none ↦ some p
    | some k ↦ if is_made name p.made then apply_event k name value lvs p else some p
  ]

  unfoldable pub delete_labels : String → List String → List (Sample V) → List (Sample V)
  delete_labels name lvs [] = []
  delete_labels name lvs (s ∷ ss) =
      let rest = delete_labels name lvs ss in
      if str_eq s.name name && same_labels s.labels lvs then rest else s ∷ rest

  -- The two names that Reset knows.
  unfoldable pub reset : String → List String → PrometheusMetrics V → PrometheusMetrics V
  unfolding delete_labels is_made
  reset name lvs p =
      if (str_eq name proxy_running_requests || str_eq name proxy_established_connections)
        && is_made name p.made
      then record p { gauges = delete_labels name lvs p.gauges }
      else p
