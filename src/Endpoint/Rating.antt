-- ===== src/Endpoint/Rating.antt =====
-- The first half of GetEndpoint: the addresses in the order of the rating, and the counts.
pub mod Order
pub mod Ports
use Prim.Native.Nat.{Ordering}
use Prim.Native.String.{compare}
use substrate_rpc_proxy.Prelude.{
  ℕ, ◌+◌, String, List, [], ◌∷◌, ◌++◌, map, Option, none, some, str_eq, if◌then◌else◌,
}
use substrate_rpc_proxy.Endpoint.{
  EndpointStatus, UpstreamEndpoint, Upstream, is_healthy, is_available,
}
use substrate_rpc_proxy.Endpoint.Address.{upstream_addr, endpoint_addr}

-- The local variables of the loop.
pub record Rating : Type 0 where
  pub rating : List String
  pub all : List String
  pub healthy_count : ℕ
  pub available_count : ℕ

abbrev pub no_rating : Rating
no_rating = record { rating = []; all = []; healthy_count = 0; available_count = 0 }

-- if status == Healthy { … }
unfoldable pub rate_healthy : String → EndpointStatus → Rating → Rating
rate_healthy addr status r =
    if is_healthy status
    then record r {
      rating = addr ∷ r.rating;
      healthy_count = r.healthy_count + 1;
      available_count = r.available_count + 1;
    }
    else r

-- if status == Available { … }
unfoldable pub rate_available : String → EndpointStatus → Rating → Rating
rate_available addr status r =
    if is_available status
    then record r { rating = r.rating ++ addr ∷ []; available_count = r.available_count + 1 }
    else r

abbrev pub list_addr : String → Rating → Rating
list_addr addr r = record r { all = r.all ++ addr ∷ [] }

-- The body of both loops, for an address with its state.
unfoldable pub rate : String → String → EndpointStatus → Rating → Rating
unfolding rate_healthy rate_available
rate exclude addr status r =
    if str_eq addr exclude
    then r
    else list_addr addr (rate_available addr status (rate_healthy addr status r))

unfoldable pub rate_endpoints : String → String → Upstream → List UpstreamEndpoint → Rating → Rating
unfolding rate endpoint_addr
rate_endpoints kind exclude u [] r = r
rate_endpoints kind exclude u (e ∷ es) r =
    rate_endpoints kind exclude u es (rate exclude (endpoint_addr u e kind) e.status r)

unfoldable pub rate_upstream : String → String → Upstream → Rating → Rating
unfolding rate rate_endpoints upstream_addr
rate_upstream kind exclude u r =
    if u.must_resolve
    then rate_endpoints kind exclude u u.endpoints r
    else rate exclude (upstream_addr u kind) u.status r

-- sort.Strings, on the keys of the map
unfoldable pub sorted_insert : String → List String → List String
sorted_insert k [] = k ∷ []
sorted_insert k (j ∷ js) = elim (compare k j) [
  | Ordering.gt ↦ j ∷ sorted_insert k js
  | _ ↦ k ∷ j ∷ js
]

unfoldable pub sort_strings : List String → List String
unfolding sorted_insert
sort_strings [] = []
sort_strings (k ∷ ks) = sorted_insert k (sort_strings ks)

-- prov.upstreams
abbrev pub Upstreams : Type 0
Upstreams = List (String × Upstream)

unfoldable pub find_upstream : String → Upstreams → Option Upstream
find_upstream key [] = none
find_upstream key ((k, u) ∷ r) = if str_eq k key then some u else find_upstream key r

unfoldable pub rate_found : String → String → Option Upstream → Rating → Rating
unfolding rate_upstream
rate_found kind exclude none r = r
rate_found kind exclude (some u) r = rate_upstream kind exclude u r

-- The loop over the sorted keys.
unfoldable pub rate_keys : String → String → Upstreams → List String → Rating → Rating
unfolding rate_found find_upstream
rate_keys kind exclude ups [] r = r
rate_keys kind exclude ups (k ∷ ks) r =
    rate_keys kind exclude ups ks (rate_found kind exclude (find_upstream k ups) r)

abbrev pub keys : Upstreams → List String
keys ups = map (λ p. p.0) ups

unfoldable pub rate_all : String → String → Upstreams → Rating
unfolding rate_keys sort_strings
rate_all kind exclude ups = rate_keys kind exclude ups (sort_strings (keys ups)) no_rating
