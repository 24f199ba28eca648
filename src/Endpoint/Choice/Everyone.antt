-- ===== src/Endpoint/Choice/Everyone.antt =====
-- No upstream of the map is left out of the choice.
use substrate_rpc_proxy.Prelude.{
  ℕ, ◌<◌, ◌≡◌, ◌≢◌, inl, inr, refl, String, Bool, true, List, [], ◌∷◌, Option, some, eq_iff, arith,
  In, In-append_left, In-append_right,
}
use substrate_rpc_proxy.Endpoint.{EndpointStatus, healthy, Upstream, is_healthy}
use substrate_rpc_proxy.Endpoint.Rating.{
  Upstreams, find_upstream, keys, sort_strings, sorted_insert,
}
use substrate_rpc_proxy.Endpoint.Choice.{get_endpoint}
use substrate_rpc_proxy.Endpoint.Choice.Best.{
  IsBest, from_healthy, from_available, from_retry, from_any, from_nothing, get_endpoint-IsBest,
}
use substrate_rpc_proxy.Endpoint.Choice.Candidates.{
  candidates, any_status, pick, key_entries, found_entries, upstream_entries,
}

In-sorted_insert : (x k : String) (ks : List String) → In x (k ∷ ks) → In x (sorted_insert k ks)
unfolding sorted_insert
In-sorted_insert x k [] h = h
In-sorted_insert x k (j ∷ js) h = ground (arith, In-sorted_insert x k js)

In-sort_strings : (x : String) (ks : List String) → In x ks → In x (sort_strings ks)
unfolding sort_strings
In-sort_strings x [] h = h
In-sort_strings x (k ∷ ks) h =
    In-sorted_insert x k (sort_strings ks) (ground (arith, In-sort_strings x ks))

In-pick :
    (p : EndpointStatus → Bool) (exclude a : String) (s : EndpointStatus)
    (es : List (String × EndpointStatus))
    → In (a, s) es
    → p s ≡ true
    → a ≢ exclude
    → In a (pick p exclude es)
unfolding pick
In-pick p exclude a s [] m ok other = absurd m
In-pick p exclude a s ((b, t) ∷ es) (inl e) ok other = ground (arith, eq_iff b exclude)
In-pick p exclude a s ((b, t) ∷ es) (inr m) ok other =
    ground (arith, In-pick p exclude a s es m ok other)

In-key_entries :
    (kind : String) (ups : Upstreams) (x : String × EndpointStatus) (u : Upstream) (k : String)
    (ks : List String)
    → In k ks
    → find_upstream k ups ≡ some u
    → In x (upstream_entries kind u)
    → In x (key_entries kind ups ks)
unfolding key_entries found_entries
In-key_entries kind ups x u k [] m found h = absurd m
In-key_entries kind ups x u k (j ∷ ks) (inl e) found h =
    rw (← e, found, found_entries) (In-append_left x _ _ h)
In-key_entries kind ups x u k (j ∷ ks) (inr m) found h =
    In-append_right x _ _ (In-key_entries kind ups x u k ks m found h)

-- The address `a` belongs to an upstream of the map, and has the state `s`.
pub record IsListed (kind : String) (ups : Upstreams) (a : String) (s : EndpointStatus)
    : Type 0 where
  pub key : String
  pub upstream : Upstream
  pub key_of : In key (keys ups)
  pub found : find_upstream key ups ≡ some upstream
  pub entry : In (a, s) (upstream_entries kind upstream)

In-candidates :
    (p : EndpointStatus → Bool) (kind exclude : String) (ups : Upstreams) (a : String)
    (s : EndpointStatus)
    → IsListed kind ups a s
    → p s ≡ true
    → a ≢ exclude
    → In a (candidates p kind exclude ups)
unfolding candidates
In-candidates p kind exclude ups a s l ok other =
    In-pick p exclude a s _
      (In-key_entries kind ups (a, s) l.upstream l.key _ (In-sort_strings l.key (keys ups) l.key_of)
        l.found l.entry)
      ok other

-- A healthy address is returned.
abbrev pub ReturnsHealthy : (ℕ → Upstreams) → (ℕ → ℕ → ℕ) → String → String → ℕ → Type 0
ReturnsHealthy at rand kind exclude tries =
    (x : String) × (get_endpoint at rand kind exclude tries ≡ some x)
    × In x (candidates is_healthy kind exclude (at tries))

In-pick_any :
    (p : EndpointStatus → Bool) (exclude a : String) (es : List (String × EndpointStatus))
    → In a (pick p exclude es)
    → In a (pick any_status exclude es)
unfolding pick
In-pick_any p exclude a [] m = m
In-pick_any p exclude a ((b, t) ∷ es) m = ground (arith, In-pick_any p exclude a es)

In-candidates_any :
    (p : EndpointStatus → Bool) (kind exclude : String) (ups : Upstreams) (a : String)
    → In a (candidates p kind exclude ups)
    → In a (candidates any_status kind exclude ups)
unfolding candidates
In-candidates_any p kind exclude ups a m = In-pick_any p exclude a _ m

IsBest-healthy :
    (at : ℕ → Upstreams) (rand : ℕ → ℕ → ℕ) (kind a : String) {exclude : String} {n : ℕ}
    {o : Option String}
    → In a (candidates is_healthy kind exclude (at n))
    → IsBest at rand kind n exclude o
    → (x : String) × (o ≡ some x) × In x (candidates is_healthy kind exclude (at n))
IsBest-healthy at rand kind a m (from_healthy {a = x} h) = (x, refl, h)
IsBest-healthy at rand kind a m (from_available nh h) = absurd (rw nh at m)
IsBest-healthy at rand kind a m (from_retry nh na b) = absurd (rw nh at m)
IsBest-healthy at rand kind a m (from_any nh na h) = absurd (rw nh at m)
IsBest-healthy at rand kind a m (from_nothing {exclude} e) =
    absurd (rw e at (In-candidates_any is_healthy kind exclude (at 0) a m))

-- If an address of any upstream is healthy when GetEndpoint looks, and is not the excluded one, then
-- a healthy address is returned, and at once.
pub get_endpoint-ReturnsHealthy :
    (at : ℕ → Upstreams) (rand : ℕ → ℕ → ℕ)
    → ((n k : ℕ) → 0 < k → rand n k < k)
    → (kind exclude : String) (tries : ℕ) (a : String) → IsListed kind (at tries) a healthy
    → a ≢ exclude
    → ReturnsHealthy at rand kind exclude tries
get_endpoint-ReturnsHealthy at rand rand_lt kind exclude tries a l other =
    IsBest-healthy at rand kind a
      (In-candidates is_healthy kind exclude (at tries) a healthy l refl other)
      (get_endpoint-IsBest at rand kind rand_lt exclude tries)
