-- ===== src/Tests/Upstreams.antt =====
-- Two upstreams: a plain one that is available, and a resolved name with a healthy endpoint.
use mathlib.Core.List.{Permᴰ}
use mathlib.Core.Path.{subst}
use substrate_rpc_proxy.Prelude.{
  ℕ, ◌-◌, ◌<◌, ◌≡◌, refl, inl, inr, String, true, false, List, [], ◌∷◌, none, some, ◌↔◌, arith, In,
  ◌⊎◌, Bool-cases, str_eq, eq_iff,
}
use substrate_rpc_proxy.Endpoint.{Upstream, healthy, available, unreachable}
use substrate_rpc_proxy.Endpoint.Address.{endpoint_addr, lookup}
use substrate_rpc_proxy.Endpoint.Check.{Health, Lookup}
use substrate_rpc_proxy.Endpoint.Check as Check
use substrate_rpc_proxy.Endpoint.Check.Rounds.{
  AreTracked, check_continuously, check_continuously-AreTracked,
}
use substrate_rpc_proxy.Endpoint.Hosts.{among, update_host_ips, kept, new_endpoint}
use substrate_rpc_proxy.Endpoint.Hosts.Members.{Lacks, In-update_host_ips}
use substrate_rpc_proxy.Endpoint.Rating.{Upstreams, find_upstream}
use substrate_rpc_proxy.Endpoint.Rating.Order.{IsMap}
use substrate_rpc_proxy.Endpoint.Choice.Order.{Reordered, get_endpoint-order}
use substrate_rpc_proxy.Endpoint.Rating.Ports.{SamePorts}
use substrate_rpc_proxy.Endpoint.Choice.{get_endpoint}
use substrate_rpc_proxy.Endpoint.Choice.Best.{IsBest, get_endpoint-IsBest}
use substrate_rpc_proxy.Endpoint.Choice.Candidates.{upstream_entries}
use substrate_rpc_proxy.Endpoint.Choice.Everyone.{IsListed}

abbrev plain : Upstream
plain = record {
  endpoints = [];
  status = available;
  must_resolve = false;
  hostname = "node";
  port = "443";
  path = "/";
  ports = ("wss", "443") ∷ [];
}

abbrev resolved : Upstream
resolved = record {
  endpoints =
      record { address = "10.0.0.1"; status = unreachable }
      ∷ record { address = "10.0.0.2"; status = healthy }
      ∷ [];
  status = unreachable;
  must_resolve = true;
  hostname = "pool";
  port = "9944";
  path = "";
  ports = ("http", "9944") ∷ ("ws", "9944") ∷ [];
}

abbrev pub two_upstreams : ℕ → Upstreams
two_upstreams n = ("pool", resolved) ∷ ("node", plain) ∷ []

abbrev last_of : ℕ → ℕ → ℕ
last_of n k = k - 1

last_of_lt : (n k : ℕ) → 0 < k → last_of n k < k
last_of_lt n k h = omega arith

-- The same map, listed the other way round, and so are its ports.
abbrev ports_backwards : List (String × String)
ports_backwards = ("ws", "9944") ∷ ("http", "9944") ∷ []

abbrev listed_backwards : ℕ → Upstreams
listed_backwards n = ("node", plain) ∷ ("pool", record resolved { ports = ports_backwards }) ∷ []

same_ports : SamePorts resolved.ports ports_backwards
unfolding lookup
same_ports name = elim (Bool-cases (str_eq "http" name)) [
  | inl t ↦
      subst (λ k. lookup k resolved.ports ≡ lookup k ports_backwards) ((eq_iff "http" name).0 t)
        refl
  | inr f ↦ rw (f)
]

reordered : (n : ℕ) → Reordered (two_upstreams n) (listed_backwards n)
reordered n = (
  ("node", plain) ∷ ("pool", resolved) ∷ [],
  Permᴰ.swap refl refl,
  (refl, (plain.ports, refl, λ name. refl), (refl, (ports_backwards, refl, same_ports), tt)),
)

two_upstreams-IsMap : (n : ℕ) → IsMap (two_upstreams n)
unfolding IsMap find_upstream
two_upstreams-IsMap n = (refl, (refl, tt))

get_endpoint-order_example :
    get_endpoint two_upstreams last_of "http" "" 1
    ≡ get_endpoint listed_backwards last_of "http" "" 1
get_endpoint-order_example =
    get_endpoint-order two_upstreams listed_backwards last_of two_upstreams-IsMap reordered "http"
      "" 1 (inr refl)

websocket_run : get_endpoint two_upstreams last_of "websocket" "" 1 ≡ some "ws://10.0.0.2:9944/"
unfolding get_endpoint
websocket_run = refl

get_endpoint-IsBest_example :
    IsBest two_upstreams last_of "websocket" 1 ""
      (get_endpoint two_upstreams last_of "websocket" "" 1)
get_endpoint-IsBest_example = get_endpoint-IsBest two_upstreams last_of "websocket" last_of_lt "" 1

listed : IsListed "websocket" (two_upstreams 1) "ws://10.0.0.2:9944/" healthy
unfolding find_upstream upstream_entries endpoint_addr
listed = record {
  key = "pool";
  upstream = resolved;
  key_of = inl refl;
  found = refl;
  entry = inr (inl refl);
}

abbrev moved : List String
moved = "10.0.0.2" ∷ "10.0.0.3" ∷ []

update_host_ips_run :
    update_host_ips moved resolved.endpoints
    ≡ record { address = "10.0.0.2"; status = healthy } ∷ new_endpoint "10.0.0.3" ∷ []
unfolding update_host_ips among
update_host_ips_run = refl

In-update_host_ips_example :
    In (new_endpoint "10.0.0.3") (update_host_ips moved resolved.endpoints) ↔ (
      (In (new_endpoint "10.0.0.3") resolved.endpoints × In "10.0.0.3" moved)
      ⊎ ((new_endpoint "10.0.0.3" ≡ new_endpoint "10.0.0.3")
          × In "10.0.0.3" moved
          × Lacks "10.0.0.3" (kept moved resolved.endpoints)))
In-update_host_ips_example = In-update_host_ips moved resolved.endpoints (new_endpoint "10.0.0.3")

-- The name has one address, and every node is healthy.
abbrev one_address : String → ℕ → Lookup × ℕ
one_address name w = (Check.resolved ("10.0.0.2" ∷ []), w)

abbrev all_healthy : String → ℕ → Health × ℕ
all_healthy addr w = ((healthy, none), w)

check_continuously-AreTracked_example :
    AreTracked one_address all_healthy ((check_continuously one_address all_healthy 2 resolved 5).0)
check_continuously-AreTracked_example =
    check_continuously-AreTracked one_address all_healthy 2 resolved 5
      (inl refl, (inr (5, refl), tt))
