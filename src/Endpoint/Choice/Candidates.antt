-- ===== src/Endpoint/Choice/Candidates.antt =====
-- The addresses that GetEndpoint may choose from, read off the upstreams, and the rating loop
-- against them.
use mathlib.Core.List.{append_assoc, append-nil}
use substrate_rpc_proxy.Prelude.{
  ◌+◌, ◌≡◌, ◌⊎◌, inl, inr, refl, sym, ap, ◌∙◌, String, Bool, true, not, ◌&&◌, List, [], ◌∷◌, ◌++◌,
  Option, none, some, str_eq, if◌then◌else◌, length, length-append, arith, Bool-cases, In,
}
use substrate_rpc_proxy.Endpoint.{
  EndpointStatus, unset, UpstreamEndpoint, Upstream, is_healthy, is_available,
}
use substrate_rpc_proxy.Endpoint.Address.{upstream_addr, endpoint_addr}
use substrate_rpc_proxy.Endpoint.Rating.{
  Rating, no_rating, rate, rate_endpoints, rate_upstream, rate_found, rate_keys, rate_all,
  Upstreams, find_upstream, keys, sort_strings,
}

-- The addresses of an upstream for a kind of connection, each with its state.
unfoldable pub endpoint_entries :
    String → Upstream → List UpstreamEndpoint → List (String × EndpointStatus)
endpoint_entries kind u [] = []
endpoint_entries kind u (e ∷ es) = (endpoint_addr u e kind, e.status) ∷ endpoint_entries kind u es

unfoldable pub upstream_entries : String → Upstream → List (String × EndpointStatus)
unfolding endpoint_entries
upstream_entries kind u =
    if u.must_resolve
    then endpoint_entries kind u u.endpoints
    else (upstream_addr u kind, u.status) ∷ []

unfoldable pub found_entries : String → Option Upstream → List (String × EndpointStatus)
unfolding upstream_entries
found_entries kind none = []
found_entries kind (some u) = upstream_entries kind u

unfoldable pub key_entries : String → Upstreams → List String → List (String × EndpointStatus)
unfolding found_entries
key_entries kind ups [] = []
key_entries kind ups (k ∷ ks) = found_entries kind (find_upstream k ups) ++ key_entries kind ups ks

-- The addresses with a state that passes the test, but for the excluded one.
unfoldable pub pick :
    (EndpointStatus → Bool) → String → List (String × EndpointStatus) → List String
pick p exclude [] = []
pick p exclude ((a, s) ∷ es) =
    if not (str_eq a exclude) && p s then a ∷ pick p exclude es else pick p exclude es

abbrev pub any_status : EndpointStatus → Bool
any_status s = true

-- `xs`, its last item first, before `ys`.
unfoldable pub onto : List String → List String → List String
onto [] ys = ys
onto (x ∷ xs) ys = onto xs (x ∷ ys)

unfoldable pub rate_entries : String → List (String × EndpointStatus) → Rating → Rating
unfolding rate
rate_entries exclude [] r = r
rate_entries exclude ((a, s) ∷ es) r = rate_entries exclude es (rate exclude a s r)

rate_entries-append :
    (exclude : String) (xs ys : List (String × EndpointStatus)) (r : Rating)
    → rate_entries exclude (xs ++ ys) r ≡ rate_entries exclude ys (rate_entries exclude xs r)
unfolding rate_entries
rate_entries-append exclude [] ys r = refl
rate_entries-append exclude ((a, s) ∷ xs) ys r =
    rate_entries-append exclude xs ys (rate exclude a s r)

rate_endpoints-entries :
    (kind exclude : String) (u : Upstream) (es : List UpstreamEndpoint) (r : Rating)
    → rate_endpoints kind exclude u es r ≡ rate_entries exclude (endpoint_entries kind u es) r
unfolding rate_endpoints endpoint_entries rate_entries
rate_endpoints-entries kind exclude u [] r = refl
rate_endpoints-entries kind exclude u (e ∷ es) r = rate_endpoints-entries kind exclude u es _

rate_upstream-entries :
    (kind exclude : String) (u : Upstream) (r : Rating)
    → rate_upstream kind exclude u r ≡ rate_entries exclude (upstream_entries kind u) r
unfolding rate_upstream upstream_entries rate_entries
rate_upstream-entries kind exclude u r = elim (Bool-cases u.must_resolve) [
  | inl many ↦ rw many (rate_endpoints-entries kind exclude u u.endpoints r)
  | inr one ↦ rw one refl
]

rate_found-entries :
    (kind exclude : String) (o : Option Upstream) (r : Rating)
    → rate_found kind exclude o r ≡ rate_entries exclude (found_entries kind o) r
unfolding rate_found found_entries rate_entries
rate_found-entries kind exclude none r = refl
rate_found-entries kind exclude (some u) r = rate_upstream-entries kind exclude u r

rate_keys-entries :
    (kind exclude : String) (ups : Upstreams) (ks : List String) (r : Rating)
    → rate_keys kind exclude ups ks r ≡ rate_entries exclude (key_entries kind ups ks) r
unfolding rate_keys key_entries rate_entries
rate_keys-entries kind exclude ups [] r = refl
rate_keys-entries kind exclude ups (k ∷ ks) r =
    rate_keys-entries kind exclude ups ks _
    ∙ ap (rate_entries exclude (key_entries kind ups ks))
        (rate_found-entries kind exclude (find_upstream k ups) r)
    ∙ sym (rate_entries-append exclude (found_entries kind (find_upstream k ups)) _ r)

-- The variables of the loop, in terms of the healthy addresses `hs`, the available ones `avs` and all.
pub record Holds (hs avs ls : List String) (r : Rating) : Type 0 where
  pub rated : r.rating ≡ hs ++ avs
  pub listed : r.all ≡ ls
  pub healthy_len : r.healthy_count ≡ length hs
  pub available_len : r.available_count ≡ length hs + length avs

rate-Holds :
    (exclude a : String) (s : EndpointStatus) (hs avs ls : List String) (r : Rating)
    → Holds hs avs ls r
    → Holds
        (onto (pick is_healthy exclude ((a, s) ∷ [])) hs)
        (avs ++ pick is_available exclude ((a, s) ∷ []))
        (ls ++ pick any_status exclude ((a, s) ∷ []))
        (rate exclude a s r)
unfolding rate pick onto
rate-Holds exclude a unset hs avs ls r h = ground (arith, append-nil avs, append-nil ls)
rate-Holds exclude a s hs avs ls r h =
    ground (
      arith,
      append-nil avs,
      append-nil ls,
      append_assoc hs avs (a ∷ []),
      length-append avs (a ∷ []),
    )

pick_cons :
    (p : EndpointStatus → Bool) (exclude a : String) (s : EndpointStatus)
    (es : List (String × EndpointStatus))
    → pick p exclude ((a, s) ∷ es) ≡ pick p exclude ((a, s) ∷ []) ++ pick p exclude es
unfolding pick
pick_cons p exclude a s es = ground arith

onto-append : (xs ys zs : List String) → onto (xs ++ ys) zs ≡ onto ys (onto xs zs)
unfolding onto
onto-append [] ys zs = refl
onto-append (x ∷ xs) ys zs = onto-append xs ys (x ∷ zs)

rate_entries-Holds_nil :
    (exclude : String) (hs avs ls : List String) (r : Rating)
    → Holds hs avs ls r
    → Holds
        (onto (pick is_healthy exclude []) hs)
        (avs ++ pick is_available exclude [])
        (ls ++ pick any_status exclude [])
        (rate_entries exclude [] r)
unfolding pick onto rate_entries
rate_entries-Holds_nil exclude hs avs ls r h = rw (append-nil avs, append-nil ls) h

rate_entries_cons :
    (exclude a : String) (s : EndpointStatus) (es : List (String × EndpointStatus)) (r : Rating)
    → rate_entries exclude ((a, s) ∷ es) r ≡ rate_entries exclude es (rate exclude a s r)
unfolding rate_entries
rate_entries_cons exclude a s es r = refl

rate_entries-Holds :
    (exclude : String) (es : List (String × EndpointStatus)) (hs avs ls : List String) (r : Rating)
    → Holds hs avs ls r
    → Holds
        (onto (pick is_healthy exclude es) hs)
        (avs ++ pick is_available exclude es)
        (ls ++ pick any_status exclude es)
        (rate_entries exclude es r)
rate_entries-Holds exclude [] hs avs ls r h = rate_entries-Holds_nil exclude hs avs ls r h
rate_entries-Holds exclude ((a, s) ∷ es) hs avs ls r h =
    rw
      (
        pick_cons is_healthy exclude a s es,
        pick_cons is_available exclude a s es,
        pick_cons any_status exclude a s es,
        onto-append,
        rate_entries_cons,
        ← append_assoc avs,
        ← append_assoc ls,
      )
      (rate_entries-Holds exclude es _ _ _ _ (rate-Holds exclude a s hs avs ls r h))

-- The addresses that pass the test, over all upstreams of the map.
unfoldable pub candidates : (EndpointStatus → Bool) → String → String → Upstreams → List String
unfolding pick key_entries
candidates p kind exclude ups = pick p exclude (key_entries kind ups (sort_strings (keys ups)))

-- The rating holds the healthy addresses first, the last one found before the others, and then the
-- available ones.
pub rate_all-Holds :
    (kind exclude : String) (ups : Upstreams)
    → Holds
        (onto (candidates is_healthy kind exclude ups) [])
        (candidates is_available kind exclude ups)
        (candidates any_status kind exclude ups)
        (rate_all kind exclude ups)
unfolding rate_all candidates
rate_all-Holds kind exclude ups =
    rw (rate_keys-entries kind exclude ups (sort_strings (keys ups)) no_rating) (
      rate_entries-Holds exclude _ [] [] [] no_rating
        (record { rated = refl; listed = refl; healthy_len = refl; available_len = omega arith }))

pub In-onto : (x : String) (xs ys : List String) → In x (onto xs ys) → In x xs ⊎ In x ys
unfolding onto
In-onto x [] ys h = inr h
In-onto x (z ∷ xs) ys h = ground (arith, In-onto x xs (z ∷ ys))
