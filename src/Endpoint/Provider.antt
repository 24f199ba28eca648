-- ===== src/Endpoint/Provider.antt =====
-- ParseUpstreamAddr, NewUpstreamProvider and GetStatus of pkg/rpc-endpoint/upstream.go. The URL parser
-- (`none` is an error), the test of net.ParseIP and the resolver are parameters; the goroutines that
-- check the upstreams are outside of the constructor.
pub mod Maps
pub mod Ports
use Prim.Native.Char.{code}
use Prim.Native.String
use substrate_rpc_proxy.Endpoint.{EndpointStatus, unset, UpstreamEndpoint, Upstream}
use substrate_rpc_proxy.Endpoint.Address.{upstream_addr, endpoint_addr, lookup}
use substrate_rpc_proxy.Endpoint.Check.{Lookup, lookup_failed, resolved}
use substrate_rpc_proxy.Endpoint.Hosts.{update_host_ips}
use substrate_rpc_proxy.Endpoint.Rating.{Upstreams, find_upstream}
use substrate_rpc_proxy.Prelude.{
  String, Bool, true, false, not, ◌&&◌, ◌||◌, List, [], ◌∷◌, Option, none, some, str_eq, onto_first,
  ◌==◌, if◌then◌else◌,
}

-- A parsed address.
pub record Url : Type 0 where
  pub scheme : String
  pub hostname : String
  pub port : String
  pub path : String

-- strings.Contains(s, "://")
unfoldable pub starts_with : String → String → Bool
starts_with String.[] s = true
starts_with (String.◌∷◌ c p) String.[] = false
starts_with (String.◌∷◌ c p) (String.◌∷◌ d s) = code c == code d && starts_with p s

unfoldable pub contains : String → String → Bool
unfolding starts_with
contains p String.[] = starts_with p String.[]
contains p (String.◌∷◌ c s) = starts_with p (String.◌∷◌ c s) || contains p s

unfoldable pub with_scheme : String → String
unfolding contains
with_scheme s = if contains "://" s then s else String.◌++◌ "http+ws://" s

-- strings.Split(s, "+")
unfoldable pub split_plus : String → List String
split_plus String.[] = "" ∷ []
split_plus (String.◌∷◌ c s) =
    let rest = split_plus s in
    if code c == b'+' then "" ∷ rest else onto_first (String.◌∷◌ c String.[]) rest

-- m[key] = value
unfoldable pub set_key : {A : Type 0} → String → A → List (String × A) → List (String × A)
set_key key v [] = (key, v) ∷ []
set_key key v ((k, a) ∷ r) =
    let rest = set_key key v r in if str_eq k key then (k, v) ∷ r else (k, a) ∷ rest

-- The loop over the schemes, which all have the port of the address.
unfoldable pub set_ports : String → List String → List (String × String) → List (String × String)
unfolding set_key
set_ports port [] ports = ports
set_ports port (n ∷ ns) ports = set_ports port ns (set_key n port ports)

-- The loop over the ports of an upstream whose host is known.
unfoldable pub merge_ports :
    List (String × String) → List (String × String) → List (String × String)
unfolding set_key
merge_ports [] ports = ports
merge_ports ((k, v) ∷ r) ports = merge_ports r (set_key k v ports)

abbrev pub is_resolved_scheme : String → Bool
is_resolved_scheme sc =
    str_eq sc "ws" || str_eq sc "http" || str_eq sc "http+ws" || str_eq sc "ws+http"

-- ResolveDNSRecord, whose error is not looked at.
unfoldable pub with_resolved : Upstream → Lookup → Upstream
unfolding update_host_ips
with_resolved u (lookup_failed e) = u
with_resolved u (resolved ips) = record u { endpoints = update_host_ips ips u.endpoints }

-- The upstream before the switch on its scheme, with the ports that are set behind it.
unfoldable pub new_upstream : Url → Upstream
unfolding set_ports split_plus
new_upstream a = record {
  endpoints = [];
  status = unset;
  must_resolve = false;
  hostname = a.hostname;
  port = a.port;
  path = a.path;
  ports = set_ports a.port (split_plus a.scheme) [];
}

module _ {W : Type 0} (parse_url : String → Option Url) (is_ip : String → Bool)
    (resolve : String → W → Lookup × W) where
  unfoldable pub resolve_upstream : Url → W → Upstream × W
  unfolding new_upstream with_resolved
  resolve_upstream a w =
      let u = new_upstream a in
      let (found, w') = resolve a.hostname w in
      if is_resolved_scheme a.scheme && not (is_ip a.hostname)
      then (with_resolved (record u { must_resolve = true }) found, w')
      else (u, w)

  unfoldable pub parse_upstream_addr : String → W → Option Upstream × W
  unfolding resolve_upstream with_scheme
  parse_upstream_addr s w = elim (parse_url (with_scheme s)) [
    | none ↦ (none, w)
    | some a ↦ let (u, w') = resolve_upstream a w in (some u, w')
  ]

  -- An upstream with the host name of an earlier one only adds its ports to that one.
  unfoldable pub add_upstream : Upstream → Upstreams → Upstreams
  unfolding merge_ports set_key find_upstream
  add_upstream u ups = elim (find_upstream u.hostname ups) [
    | some existing ↦
        set_key u.hostname (record existing { ports = merge_ports u.ports existing.ports }) ups
    | none ↦ set_key u.hostname u ups
  ]

  -- The loop of NewUpstreamProvider; `none` is its error.
  unfoldable pub add_hosts : List String → Upstreams → W → Option Upstreams × W
  unfolding parse_upstream_addr add_upstream
  add_hosts [] ups w = (some ups, w)
  add_hosts (host ∷ hosts) ups w =
      let (parsed, w') = parse_upstream_addr host w in
      elim parsed [ none ↦ (none, w') | some u ↦ add_hosts hosts (add_upstream u ups) w' ]

  unfoldable pub new_upstream_provider : List String → W → Option Upstreams × W
  unfolding add_hosts
  new_upstream_provider hosts w = add_hosts hosts [] w

-- GetStatus: of two endpoints with one address the later one is kept.
unfoldable pub endpoint_status :
    String
    → Upstream
    → List UpstreamEndpoint
    → List (String × EndpointStatus)
    → List (String × EndpointStatus)
unfolding set_key endpoint_addr
endpoint_status kind u [] resp = resp
endpoint_status kind u (e ∷ es) resp =
    endpoint_status kind u es (set_key (endpoint_addr u e kind) e.status resp)

unfoldable pub status_loop :
    String → Upstreams → List (String × EndpointStatus) → List (String × EndpointStatus)
unfolding endpoint_status set_key upstream_addr
status_loop kind [] resp = resp
status_loop kind ((k, u) ∷ ups) resp = status_loop kind ups (
    if not u.must_resolve
    then set_key (upstream_addr u kind) u.status resp
    else endpoint_status kind u u.endpoints resp)

unfoldable pub get_status : String → Upstreams → List (String × EndpointStatus)
unfolding status_loop
get_status kind ups = status_loop kind ups []
