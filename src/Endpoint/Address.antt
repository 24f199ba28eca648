-- ===== src/Endpoint/Address.antt =====
-- getSchemePort, GetAddr of an upstream and of an endpoint, and FormatUpstream.
use Prim.Native.String
use substrate_rpc_proxy.Prelude.{
  String, not, ◌&&◌, List, [], ◌∷◌, Option, none, some, str_eq, if◌then◌else◌,
}
use substrate_rpc_proxy.Endpoint.{Upstream, UpstreamEndpoint}

unfoldable pub lookup : String → List (String × String) → Option String
lookup key [] = none
lookup key ((k, v) ∷ r) = if str_eq k key then some v else lookup key r

-- `if p, ok := ports[name]; ok { scheme = name; port = p }`
unfoldable pub prefer : String → List (String × String) → String × String → String × String
unfolding lookup
prefer name ports chosen = elim (lookup name ports) [ some p ↦ (name, p) | none ↦ chosen ]

-- The loop over the map of ports returns its first entry, in the order that the runtime picks: the list is
-- the map in that order.
unfoldable pub any_port : List (String × String) → String × String
any_port [] = ("", "")
any_port ((scheme, port) ∷ r) = (scheme, port)

unfoldable pub get_scheme_port : List (String × String) → String → String × String
unfolding prefer any_port
get_scheme_port ports kind =
    if str_eq kind "websocket"
    then prefer "ws" ports (prefer "wss" ports ("", ""))
    else (if str_eq kind "http"
        then prefer "http" ports (prefer "https" ports ("", ""))
        else any_port ports)

-- "%s:%s", left out where the port is empty
unfoldable pub with_port : String → String → String
with_port host port = if str_eq port "" then host else String.◌++◌ host (String.◌++◌ ":" port)

unfoldable pub upstream_addr : Upstream → String → String
unfolding get_scheme_port with_port
upstream_addr u kind =
    let (scheme, port) = get_scheme_port u.ports kind in
    String.◌++◌ scheme (String.◌++◌ "://" (String.◌++◌ (with_port u.hostname port) u.path))

-- The path is that of the endpoint's upstream, behind a slash of its own.
unfoldable pub endpoint_addr : Upstream → UpstreamEndpoint → String → String
unfolding get_scheme_port with_port
endpoint_addr u e kind =
    let (scheme, port) = get_scheme_port u.ports kind in
    String.◌++◌ scheme
      (String.◌++◌ "://" (String.◌++◌ (with_port e.address port) (String.◌++◌ "/" u.path)))

-- FormatUpstream, once the host, the port and the path are known.
unfoldable pub format_parts : String → String → String → String
unfolding with_port
format_parts host port path =
    let address = with_port host port in
    if not (str_eq path "") && not (str_eq path "/") then String.◌++◌ address path else address

unfoldable pub format_upstream : Upstream → String
unfolding format_parts
format_upstream u = format_parts u.hostname u.port u.path

unfoldable pub format_endpoint : Upstream → UpstreamEndpoint → String
unfolding format_parts
format_endpoint u e = format_parts e.address u.port u.path
