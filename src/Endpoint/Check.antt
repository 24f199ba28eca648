-- ===== src/Endpoint/Check.antt =====
-- Upstream.Check and ResolveDNSRecord of pkg/rpc-endpoint/upstream.go. The resolver and the health
-- check of the provider are parameters, and `W` is all that they depend on; a provider without a
-- health check is one whose check always says healthy.
pub mod Rounds
use substrate_rpc_proxy.Endpoint.{EndpointStatus, UpstreamEndpoint, Upstream}
use substrate_rpc_proxy.Endpoint.Address.{upstream_addr, endpoint_addr}
use substrate_rpc_proxy.Endpoint.Hosts.{update_host_ips}
use substrate_rpc_proxy.Prelude.{
  ◌≡◌, refl, ap, String, true, List, [], ◌∷◌, Option, none, some, if◌then◌else◌, All,
}

-- A status, and the error that comes with it.
abbrev pub Health : Type 0
Health = EndpointStatus × Option String

-- The result of a lookup: an error, or addresses.
pub data Lookup : Type 0 where
  lookup_failed : String → Lookup
  resolved : List String → Lookup

abbrev pub joined : Option String → List String → List String
joined none errors = errors
joined (some e) errors = e ∷ errors

module _ {W : Type 0} (resolve : String → W → Lookup × W)
    (health_check : String → W → Health × W) where
  -- The loop over the endpoints; errors.Join is the list of the errors.
  unfoldable pub check_endpoints :
      Upstream → List UpstreamEndpoint → W → List UpstreamEndpoint × List String × W
  unfolding endpoint_addr
  check_endpoints u [] w = ([], [], w)
  check_endpoints u (e ∷ es) w =
      let ((status, error), w') = health_check (endpoint_addr u e "") w in
      let (es', errors, w'') = check_endpoints u es w' in
      (record e { status = status } ∷ es', joined error errors, w'')

  abbrev pub with_endpoints :
      Upstream → List UpstreamEndpoint × List String × W → Upstream × List String × W
  with_endpoints u (es, errors, w) = (record u { endpoints = es }, errors, w)

  -- ResolveDNSRecord succeeded with `ips`, or failed and Check returns.
  unfoldable pub after_resolve : Upstream → Lookup × W → Upstream × List String × W
  unfolding check_endpoints update_host_ips
  after_resolve u (lookup_failed e, w) = (u, e ∷ [], w)
  after_resolve u (resolved ips, w) =
      let u' = record u { endpoints = update_host_ips ips u.endpoints } in
      with_endpoints u' (check_endpoints u' u'.endpoints w)

  unfoldable pub check_itself : Upstream → W → Upstream × List String × W
  unfolding upstream_addr
  check_itself u w =
      let ((status, error), w') = health_check (upstream_addr u "") w in
      (record u { status = status }, joined error [], w')

  unfoldable pub check : Upstream → W → Upstream × List String × W
  unfolding after_resolve check_itself
  check u w = if u.must_resolve then after_resolve u (resolve u.hostname w) else check_itself u w

  abbrev pub addresses : List UpstreamEndpoint → List String
  addresses [] = []
  addresses (e ∷ es) = e.address ∷ addresses es

  -- The status is what the health check said of the endpoint's own address, at some time.
  abbrev pub IsChecked : Upstream → UpstreamEndpoint → Type 0
  IsChecked u e = (w : W) × (e.status ≡ (health_check (endpoint_addr u e "") w).0.0)

  pub check_endpoints-IsChecked :
      (u : Upstream) (es : List UpstreamEndpoint) (w : W)
      → All (IsChecked u) ((check_endpoints u es w).0)
        × (addresses ((check_endpoints u es w).0) ≡ addresses es)
  unfolding check_endpoints endpoint_addr
  check_endpoints-IsChecked u [] w = (tt, refl)
  check_endpoints-IsChecked u (e ∷ es) w =
      let rest = check_endpoints-IsChecked u es ((health_check (endpoint_addr u e "") w).1) in
      (((w, refl), rest.0), ap (λ r. e.address ∷ r) rest.1)

  -- After a Check of a resolving upstream whose lookup succeeds, its endpoints have the addresses
  -- that updateHostIPs gives, and each has the state that the health check gave for its own address.
  pub check-IsChecked :
      (u : Upstream) (w : W) (ips : List String)
      → u.must_resolve ≡ true
      → (resolve u.hostname w).0 ≡ resolved ips
      → All (IsChecked u) ((check u w).0.endpoints)
        × (addresses ((check u w).0.endpoints) ≡ addresses (update_host_ips ips u.endpoints))
  unfolding check after_resolve endpoint_addr
  check-IsChecked u w ips resolving found =
      let u' = record u { endpoints = update_host_ips ips u.endpoints } in
      rw (resolving, check, found, after_resolve)
        (check_endpoints-IsChecked u' u'.endpoints ((resolve u.hostname w).1))
