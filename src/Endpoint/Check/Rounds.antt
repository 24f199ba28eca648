-- ===== src/Endpoint/Check/Rounds.antt =====
-- CheckContinuously: one check after the other, whatever the errors; each round is a turn of its loop.
use substrate_rpc_proxy.Endpoint.{unreachable, UpstreamEndpoint, Upstream}
use substrate_rpc_proxy.Endpoint.Address.{endpoint_addr}
use substrate_rpc_proxy.Endpoint.Check.{
  Health, Lookup, lookup_failed, resolved, IsChecked, check, after_resolve, check_itself,
  check_endpoints, check_endpoints-IsChecked,
}
use substrate_rpc_proxy.Endpoint.Hosts.{update_host_ips}
use substrate_rpc_proxy.Prelude.{
  ℕ, zero, suc, ◌≡◌, ◌⊎◌, inr, String, Bool, true, false, List, [], ◌∷◌, All, if◌then◌else◌,
}

module _ {W : Type 0} (resolve : String → W → Lookup × W)
    (health_check : String → W → Health × W) where
  unfoldable pub check_continuously : ℕ → Upstream → W → Upstream × W
  unfolding check
  check_continuously zero u w = (u, w)
  check_continuously (suc rounds) u w =
      let (u', errors, w') = check resolve health_check u w in check_continuously rounds u' w'

  -- The endpoint is as it was added, or has the state of a health check of its own address.
  abbrev pub IsTracked : Upstream → UpstreamEndpoint → Type 0
  IsTracked u e = (e.status ≡ unreachable) ⊎ IsChecked resolve health_check u e

  -- Every checked endpoint is tracked.
  All-IsTracked :
      (u : Upstream) (es : List UpstreamEndpoint)
      → All (IsChecked resolve health_check u) es
      → All (IsTracked u) es
  All-IsTracked u [] h = tt
  All-IsTracked u (e ∷ es) (h, hs) = (inr h, All-IsTracked u es hs)

  abbrev pub AreTracked : Upstream → Type 0
  AreTracked u = All (IsTracked u) u.endpoints

  after_resolve-AreTracked :
      (u : Upstream) (x : Lookup × W)
      → AreTracked u
      → AreTracked ((after_resolve resolve health_check u x).0)
  unfolding after_resolve endpoint_addr
  after_resolve-AreTracked u (lookup_failed e, w) h = h
  after_resolve-AreTracked u (resolved ips, w) h =
      let u' = record u { endpoints = update_host_ips ips u.endpoints } in
      All-IsTracked u' ((check_endpoints resolve health_check u' u'.endpoints w).0)
        ((check_endpoints-IsChecked resolve health_check u' u'.endpoints w).0)

  check-AreTracked :
      (u : Upstream) (w : W) → AreTracked u → AreTracked ((check resolve health_check u w).0)
  unfolding check check_itself endpoint_addr
  check-AreTracked u w h = by u.must_resolve
    where
      by :
          (b : Bool)
          → AreTracked (
              (if b
                then after_resolve resolve health_check u (resolve u.hostname w)
                else check_itself resolve health_check u w).0)
      by true = after_resolve-AreTracked u (resolve u.hostname w) h
      by false = h

  -- However many checks are made one after the other, and however many lookups and health checks
  -- fail: each endpoint of the upstream is unreachable, as it was when it was added, or has the
  -- state that the health check gave for its own address at some time.
  pub check_continuously-AreTracked :
      (rounds : ℕ) (u : Upstream) (w : W)
      → AreTracked u
      → AreTracked ((check_continuously rounds u w).0)
  unfolding check_continuously
  check_continuously-AreTracked zero u w h = h
  check_continuously-AreTracked (suc rounds) u w h =
      let x = check resolve health_check u w in
      check_continuously-AreTracked rounds x.0 x.2 (check-AreTracked u w h)
