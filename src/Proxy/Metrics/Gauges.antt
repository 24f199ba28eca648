-- ===== src/Proxy/Metrics/Gauges.antt =====
-- What a tick leaves in the two gauges of the proxy.
use substrate_rpc_proxy.Monitoring.{
  gauge_vec, Sample, PrometheusMetrics, proxy_established_connections, proxy_running_requests,
  process_event, apply_event, kind_of, is_made,
}
use substrate_rpc_proxy.Monitoring.Labels.{gauge_value}
use substrate_rpc_proxy.Prelude.{
  ℕ, ◌≡◌, inl, inr, refl, ◌∙◌, ap, String, Bool, true, false, List, [], ◌∷◌, Option, none, some,
  str_eq, str_eq_self, if◌then◌else◌, Bool-cases,
}
use substrate_rpc_proxy.Proxy.Handler.{Proxied}
use substrate_rpc_proxy.Proxy.Metrics.{count_of, count_connections, emit_counts, emit_metrics}
use substrate_rpc_proxy.Proxy.Metrics.Counts.{total, one, running, counted, plus_nothing}

process_event-gauge :
    {V : Type 0} (name host : String) (v : V) (m : PrometheusMetrics V)
    → kind_of name ≡ some (gauge_vec 1)
    → is_made name m.made ≡ true
    → process_event name v (host ∷ []) m
      ≡ some
          (record m { gauges = record { name = name; labels = host ∷ []; value = v } ∷ m.gauges })
unfolding process_event apply_event
process_event-gauge name host v m k here = rw (process_event, k, here)

gauge_value-setting :
    {V : Type 0} (name h host : String) (v : V) (ss : List (Sample V))
    → gauge_value name (host ∷ []) (record { name = name; labels = h ∷ []; value = v } ∷ ss)
      ≡ (if str_eq h host then some v else gauge_value name (host ∷ []) ss)
unfolding gauge_value
gauge_value-setting name h host v ss = elim (Bool-cases (str_eq h host)) [
  | inl t ↦ rw (gauge_value, str_eq_self name, t)
  | inr f ↦ rw (gauge_value, str_eq_self name, f)
]

module _ {V : Type 0} (float : ℕ → V) where
  -- A series that is set if there is a count for it.
  abbrev pub shown : Option ℕ → Option V → Option V
  shown none old = old
  shown (some c) old = some (float c)

  -- `emit_counts name counts m` and what it leaves.
  record Emitted (name : String) (counts : List (String × ℕ)) (m : PrometheusMetrics V)
      : Type 0 where
    after : PrometheusMetrics V
    emitted : emit_counts float name counts m ≡ some after
    made : after.made ≡ m.made
    values :
        (host : String)
        → gauge_value name (host ∷ []) after.gauges
          ≡ shown (count_of host counts) (gauge_value name (host ∷ []) m.gauges)
    others :
        (other host : String)
        → str_eq name other ≡ false
        → gauge_value other (host ∷ []) after.gauges ≡ gauge_value other (host ∷ []) m.gauges

  shown-if :
      (b : Bool) (c : ℕ) (o : Option ℕ) (old : Option V)
      → (if b then some (float c) else shown o old) ≡ shown (if b then some c else o) old
  shown-if true c o old = refl
  shown-if false c o old = refl

  emit_counts-Emitted :
      (name : String) (counts : List (String × ℕ)) (m : PrometheusMetrics V)
      → kind_of name ≡ some (gauge_vec 1)
      → is_made name m.made ≡ true
      → Emitted name counts m
  unfolding emit_counts count_of gauge_value
  emit_counts-Emitted name [] m k here = record {
    after = m;
    emitted = refl;
    made = refl;
    values = λ host. refl;
    others = λ other host f. refl;
  }
  emit_counts-Emitted name ((h, c) ∷ counts) m k here =
      let e = emit_counts-Emitted name counts m k here in
      record {
        after = record e.after {
          gauges = record { name = name; labels = h ∷ []; value = float c } ∷ e.after.gauges;
        };
        emitted = rw e.emitted (
            process_event-gauge name h (float c) e.after k
              (ap (λ l. is_made name l) e.made ∙ here));
        made = e.made;
        values = λ host.
            gauge_value-setting name h host (float c) e.after.gauges
            ∙ ap (λ x. if str_eq h host then some (float c) else x) (e.values host)
            ∙ shown-if (str_eq h host) c (count_of host counts)
                (gauge_value name (host ∷ []) m.gauges);
        others = λ other host f. rw (gauge_value, f) (e.others other host f);
      }

  -- One tick, with both gauges registered: the gauge of the connections of an address shows how many
  -- connections of the table have that address, and the gauge of its running requests the sum of
  -- their requests; of an address without a connection both keep what they showed.
  pub emit_metrics-counts :
      (parse_url : String → Option (String × String × String)) (table : List (String × Proxied))
      (m : PrometheusMetrics V)
      → is_made proxy_established_connections m.made ≡ true
      → is_made proxy_running_requests m.made ≡ true
      → (m' : PrometheusMetrics V) × (emit_metrics float parse_url table m ≡ some m')
        × ((host : String)
            → (gauge_value proxy_established_connections (host ∷ []) m'.gauges
                ≡ shown
                    (total parse_url one host table)
                    (gauge_value proxy_established_connections (host ∷ []) m.gauges))
              × (gauge_value proxy_running_requests (host ∷ []) m'.gauges
                  ≡ shown
                      (total parse_url running host table)
                      (gauge_value proxy_running_requests (host ∷ []) m.gauges)))
  unfolding emit_metrics kind_of
  emit_metrics-counts parse_url table m conns reqs =
      let counts = count_connections parse_url table ([], []) in
      let e = emit_counts-Emitted proxy_established_connections counts.0 m refl conns in
      let d =
        emit_counts-Emitted proxy_running_requests counts.1 e.after refl
          (ap (λ l. is_made proxy_running_requests l) e.made ∙ reqs) in
      (
        d.after,
        rw (emit_metrics, e.emitted) d.emitted,
        λ host. (
          d.others proxy_established_connections host refl
              ∙ e.values host
              ∙ ap (λ o. shown o (gauge_value proxy_established_connections (host ∷ []) m.gauges))
                  ((counted parse_url host table [] []).0
                    ∙ plus_nothing (total parse_url one host table)),
          d.values host
              ∙ ap (λ x. shown (count_of host counts.1) x)
                  (e.others proxy_running_requests host refl)
              ∙ ap (λ o. shown o (gauge_value proxy_running_requests (host ∷ []) m.gauges))
                  ((counted parse_url host table [] []).1
                    ∙ plus_nothing (total parse_url running host table)),
        ),
      )
