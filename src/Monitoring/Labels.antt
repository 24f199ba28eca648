-- ===== src/Monitoring/Labels.antt =====
-- The gauge of the endpoints after a report of the upstream provider.
use Prim.Native.Char.{Char, code}
use Prim.Native.String
use Prim.Native.String.append
use substrate_rpc_proxy.Prelude.{
  ◌≡◌, inl, inr, refl, ◌∙◌, ap, String, Bool, true, false, ◌&&◌, ◌||◌, List, [], ◌∷◌, ◌++◌, Option,
  none, some, str_eq, ◌==◌, if◌then◌else◌, Bool-cases, str_eq_self, onto_first, All,
}
use substrate_rpc_proxy.Endpoint.{
  EndpointStatus, unset, healthy, available, unreachable, Upstream, UpstreamEndpoint,
}
use substrate_rpc_proxy.Endpoint.Address.{format_upstream, format_endpoint}
use substrate_rpc_proxy.Endpoint.Rating.{Upstreams}
use substrate_rpc_proxy.Endpoint.Report.{
  status_label, report_line, report_endpoints, report_upstream, report_metrics,
}
use substrate_rpc_proxy.Monitoring.{
  Sample, PrometheusMetrics, upstream_endpoints_status, split_bar, without, set_endpoint,
  set_endpoints, process_event, same_labels, is_made, kind_of, apply_event,
}

unfoldable pub has_bar : String → Bool
has_bar String.[] = false
has_bar (String.◌∷◌ c s) = (code c == b'|') || has_bar s

or-false : (a b : Bool) → (a || b) ≡ false → (a ≡ false) × (b ≡ false)
or-false false b h = (refl, h)
or-false true b h = cc

-- The character goes onto the first piece.
onto_first-one :
    (c : Char) (s : String) (ps : List String)
    → onto_first (String.◌∷◌ c String.[]) (s ∷ ps) ≡ String.◌∷◌ c s ∷ ps
onto_first-one c s ps =
    ap (λ r. r ∷ ps) (append.cons c String.[] s ∙ ap (λ r. String.◌∷◌ c r) (append.nil s))

split_bar-alone : (s : String) → has_bar s ≡ false → split_bar s ≡ s ∷ []
unfolding split_bar has_bar
split_bar-alone String.[] h = refl
split_bar-alone (String.◌∷◌ c s) h =
    let (c_ok, s_ok) = or-false (code c == b'|') (has_bar s) h in
    rw (c_ok, split_bar-alone s s_ok) (onto_first-one c s [])

split_bar-bar : (t : String) → has_bar t ≡ false → split_bar (String.◌++◌ "|" t) ≡ "" ∷ t ∷ []
unfolding split_bar
split_bar-bar t k =
    ap split_bar (append.cons "|" String.[] t ∙ ap (λ r. String.◌∷◌ "|" r) (append.nil t))
    ∙ ap (λ r. "" ∷ r) (split_bar-alone t k)

split_bar-pair :
    (s t : String)
    → has_bar s ≡ false
    → has_bar t ≡ false
    → split_bar (String.◌++◌ s (String.◌++◌ "|" t)) ≡ s ∷ t ∷ []
unfolding split_bar has_bar
split_bar-pair String.[] t h k = ap split_bar (append.nil (String.◌++◌ "|" t)) ∙ split_bar-bar t k
split_bar-pair (String.◌∷◌ c s) t h k =
    let (c_ok, s_ok) = or-false (code c == b'|') (has_bar s) h in
    rw (append.cons c s (String.◌++◌ "|" t), split_bar, c_ok, split_bar-pair s t s_ok k)
      (onto_first-one c s (t ∷ []))

status_label-plain : (s : EndpointStatus) → has_bar (status_label s) ≡ false
unfolding has_bar status_label
status_label-plain unset = refl
status_label-plain healthy = refl
status_label-plain available = refl
status_label-plain unreachable = refl

-- What the provider knows: each address as FormatUpstream writes it, with its state.
unfoldable endpoint_statuses : Upstream → List UpstreamEndpoint → List (String × EndpointStatus)
endpoint_statuses u [] = []
endpoint_statuses u (e ∷ es) = (format_endpoint u e, e.status) ∷ endpoint_statuses u es

unfoldable upstream_statuses : Upstream → List (String × EndpointStatus)
unfolding endpoint_statuses
upstream_statuses u =
    if u.must_resolve then endpoint_statuses u u.endpoints else (format_upstream u, u.status) ∷ []

unfoldable pub statuses : Upstreams → List (String × EndpointStatus)
unfolding upstream_statuses
statuses [] = []
statuses ((k, u) ∷ ups) = upstream_statuses u ++ statuses ups

unfoldable lines : List (String × EndpointStatus) → List String
lines [] = []
lines ((host, s) ∷ es) = report_line host s ∷ lines es

lines-append : (xs ys : List (String × EndpointStatus)) → lines (xs ++ ys) ≡ lines xs ++ lines ys
unfolding lines
lines-append [] ys = refl
lines-append ((host, s) ∷ xs) ys = ap (λ r. report_line host s ∷ r) (lines-append xs ys)

report_endpoints-lines :
    (u : Upstream) (es : List UpstreamEndpoint)
    → report_endpoints u es ≡ lines (endpoint_statuses u es)
unfolding lines report_endpoints endpoint_statuses
report_endpoints-lines u [] = refl
report_endpoints-lines u (e ∷ es) =
    ap (λ r. report_line (format_endpoint u e) e.status ∷ r) (report_endpoints-lines u es)

report_upstream-lines : (u : Upstream) → report_upstream u ≡ lines (upstream_statuses u)
unfolding lines report_upstream upstream_statuses
report_upstream-lines u = elim (Bool-cases u.must_resolve) [
  | inl t ↦ simp (t, report_endpoints-lines u u.endpoints)
  | inr f ↦ simp f
]

report_metrics-lines : (ups : Upstreams) → report_metrics ups ≡ lines (statuses ups)
unfolding lines report_metrics statuses
report_metrics-lines [] = refl
report_metrics-lines ((k, u) ∷ ups) = rw (
  lines-append (upstream_statuses u) (statuses ups),
  report_upstream-lines u,
  report_metrics-lines ups,
)

-- The value of a series: the last setting of it.
unfoldable pub gauge_value : {V : Type 0} → String → List String → List (Sample V) → Option V
gauge_value name lvs [] = none
gauge_value name lvs (s ∷ ss) =
    if str_eq s.name name && same_labels s.labels lvs then some s.value else gauge_value name lvs ss

unfoldable pub is_reported : String → String → List (String × EndpointStatus) → Bool
is_reported host label [] = false
is_reported host label ((h, s) ∷ es) =
    (str_eq h host && str_eq (status_label s) label) || is_reported host label es

gauge_value-without :
    {V : Type 0} (name : String) (lvs : List String) (ss : List (Sample V))
    → gauge_value name lvs (without name ss) ≡ none
unfolding gauge_value without
gauge_value-without name lvs [] = refl
gauge_value-without name lvs (s ∷ ss) = elim (Bool-cases (str_eq s.name name)) [
  | inl t ↦ rw t (gauge_value-without name lvs ss)
  | inr f ↦ rw (f, gauge_value, f) (gauge_value-without name lvs ss)
]

abbrev setting : {V : Type 0} → String → V → String → EndpointStatus → Sample V
setting name v host s = record { name = name; labels = host ∷ status_label s ∷ []; value = v }

set_endpoint-line :
    {V : Type 0} (name : String) (v : V) (host : String) (s : EndpointStatus) (ss : List (Sample V))
    → has_bar host ≡ false
    → set_endpoint name v (split_bar (report_line host s)) ss ≡ setting name v host s ∷ ss
unfolding report_line set_endpoint
set_endpoint-line name v host s ss ok =
    rw (split_bar-pair host (status_label s) ok (status_label-plain s))

or-if :
    {A : Type 0} (r b c : Bool) (x : A) (y : Option A)
    → (if r then some x else (if b && (c && true) then some x else y))
      ≡ (if (b && c) || r then some x else y)
or-if true true true x y = refl
or-if false true true x y = refl
or-if r true false x y = refl
or-if r false c x y = refl

gauge_value-set_endpoints :
    {V : Type 0} (name host label : String) (v : V) (es : List (String × EndpointStatus))
    (ss : List (Sample V))
    → All (λ e. has_bar e.0 ≡ false) es
    → gauge_value name (host ∷ label ∷ []) (set_endpoints name v (lines es) ss)
      ≡ (if is_reported host label es then some v else gauge_value name (host ∷ label ∷ []) ss)
unfolding gauge_value set_endpoints lines is_reported
gauge_value-set_endpoints name host label v [] ss h = refl
gauge_value-set_endpoints {V} name host label v ((a, s) ∷ es) ss (ok, h) =
    ap (λ r. gauge_value name (host ∷ label ∷ []) (set_endpoints name v (lines es) r))
      (set_endpoint-line name v a s ss ok)
    ∙ gauge_value-set_endpoints name host label v es (setting name v a s ∷ ss) h
    ∙ ap
        (λ r.
          if is_reported host label es
          then some v
          else if r && (str_eq a host && (str_eq (status_label s) label && true))
          then some v
          else gauge_value name (host ∷ label ∷ []) ss)
        (str_eq_self name)
    ∙ or-if (is_reported host label es) (str_eq a host) (str_eq (status_label s) label) v
        (gauge_value name (host ∷ label ∷ []) ss)

-- A report of the provider leaves the gauge of the endpoints, if it is registered and no address holds
-- a bar, with the reported value for each pair of an address and the label of its state, and with no
-- series for any other pair, whatever was reported before.
pub process_event-reported :
    {V : Type 0} (ups : Upstreams) (v : V) (p : PrometheusMetrics V)
    → is_made upstream_endpoints_status p.made ≡ true
    → All (λ e. has_bar e.0 ≡ false) (statuses ups)
    → (p' : PrometheusMetrics V) × (process_event upstream_endpoints_status v (report_metrics ups) p
        ≡ some p')
      × ((host label : String)
          → gauge_value upstream_endpoints_status (host ∷ label ∷ []) p'.gauges
            ≡ (if is_reported host label (statuses ups) then some v else none))
unfolding process_event apply_event kind_of
process_event-reported ups v p made ok =
    let kept = without upstream_endpoints_status p.gauges in
    (
      record p { gauges = set_endpoints upstream_endpoints_status v (report_metrics ups) kept },
      rw made,
      λ host label.
          ap
            (λ r.
              gauge_value upstream_endpoints_status (host ∷ label ∷ [])
                (set_endpoints upstream_endpoints_status v r kept))
            (report_metrics-lines ups)
          ∙ gauge_value-set_endpoints upstream_endpoints_status host label v (statuses ups) kept ok
          ∙ ap (λ r. if is_reported host label (statuses ups) then some v else r)
              (gauge_value-without upstream_endpoints_status (host ∷ label ∷ []) p.gauges),
    )
