-- ===== src/Endpoint/Rating/Ports.antt =====
-- The rating for a websocket or for HTTP does not see the order of the maps of ports.
use substrate_rpc_proxy.Endpoint.{Upstream, UpstreamEndpoint}
use substrate_rpc_proxy.Endpoint.Address.{
  lookup, prefer, get_scheme_port, upstream_addr, endpoint_addr,
}
use substrate_rpc_proxy.Endpoint.Rating.{
  Rating, rate, rate_endpoints, rate_upstream, Upstreams, find_upstream, rate_found, rate_keys,
  keys, rate_all, sort_strings, no_rating,
}
use substrate_rpc_proxy.Prelude.{
  ◌≡◌, ◌⊎◌, inl, inr, refl, sym, ap, ◌∙◌, String, List, [], ◌∷◌, none, some, Bool-cases, str_eq,
}

-- The kinds whose ports are looked up by their names.
abbrev pub IsLookedUp : String → Type 0
IsLookedUp kind = (kind ≡ "websocket") ⊎ (kind ≡ "http")

-- The same map of ports, by what it has for every name.
abbrev pub SamePorts : List (String × String) → List (String × String) → Type 0
SamePorts ps qs = (name : String) → lookup name ps ≡ lookup name qs

-- The same upstream, but for the order of its ports.
abbrev pub SameUpstream : Upstream → Upstream → Type 0
SameUpstream u v =
    (qs : List (String × String)) × (v ≡ record u { ports = qs }) × SamePorts u.ports qs

abbrev pub SameUpstreams : Upstreams → Upstreams → Type 0
SameUpstreams [] [] = Unit
SameUpstreams ((k, u) ∷ r) ((j, v) ∷ q) = (k ≡ j) × SameUpstream u v × SameUpstreams r q
SameUpstreams _ _ = ⊥

prefer-SamePorts :
    (name : String) (ps qs : List (String × String)) (chosen : String × String)
    → SamePorts ps qs
    → prefer name ps chosen ≡ prefer name qs chosen
unfolding prefer
prefer-SamePorts name ps qs chosen same =
    ap (λ o. elim o [ some p ↦ (name, p) | none ↦ chosen ]) (same name)

get_scheme_port-SamePorts :
    (kind : String) (ps qs : List (String × String))
    → IsLookedUp kind
    → SamePorts ps qs
    → get_scheme_port ps kind ≡ get_scheme_port qs kind
unfolding get_scheme_port
get_scheme_port-SamePorts kind ps qs (inl e) same = rw (e) (
    prefer-SamePorts "ws" ps qs (prefer "wss" ps ("", "")) same
    ∙ ap (prefer "ws" qs) (prefer-SamePorts "wss" ps qs ("", "") same))
get_scheme_port-SamePorts kind ps qs (inr e) same = rw (e) (
    prefer-SamePorts "http" ps qs (prefer "https" ps ("", "")) same
    ∙ ap (prefer "http" qs) (prefer-SamePorts "https" ps qs ("", "") same))

module _ (kind exclude : String) (looked_up : IsLookedUp kind) where
  module _ (u : Upstream) (qs : List (String × String)) (same : SamePorts u.ports qs) where
    rate_endpoints-SamePorts :
        (es : List UpstreamEndpoint) (r : Rating)
        → rate_endpoints kind exclude u es r
          ≡ rate_endpoints kind exclude (record u { ports = qs }) es r
    unfolding rate_endpoints endpoint_addr
    rate_endpoints-SamePorts [] r = refl
    rate_endpoints-SamePorts (e ∷ es) r =
        let address : endpoint_addr u e kind ≡ endpoint_addr (record u { ports = qs }) e kind =
          rw (endpoint_addr, get_scheme_port-SamePorts kind u.ports qs looked_up same) in
        ap (λ a. rate_endpoints kind exclude u es (rate exclude a e.status r)) address
        ∙ rate_endpoints-SamePorts es _

    rate_upstream-SamePorts :
        (r : Rating)
        → rate_upstream kind exclude u r ≡ rate_upstream kind exclude (record u { ports = qs }) r
    unfolding rate_upstream upstream_addr
    rate_upstream-SamePorts r =
        let address : upstream_addr u kind ≡ upstream_addr (record u { ports = qs }) kind =
          rw (upstream_addr, get_scheme_port-SamePorts kind u.ports qs looked_up same) in
        elim (Bool-cases u.must_resolve) [
          | inl t ↦ rw (t) (rate_endpoints-SamePorts u.endpoints r)
          | inr f ↦ rw (f) (ap (λ a. rate exclude a u.status r) address)
        ]

  rate_found-SameUpstreams :
      (k : String) (ups ups' : Upstreams) (r : Rating)
      → SameUpstreams ups ups'
      → rate_found kind exclude (find_upstream k ups) r
        ≡ rate_found kind exclude (find_upstream k ups') r
  unfolding find_upstream rate_found
  rate_found-SameUpstreams k [] [] r h = refl
  rate_found-SameUpstreams k [] (y ∷ ys) r h = absurd h
  rate_found-SameUpstreams k (x ∷ xs) [] r h = absurd h
  rate_found-SameUpstreams k ((i, u) ∷ xs) ((j, v) ∷ ys) r (e, (qs, changed, same), hs) =
      elim (Bool-cases (str_eq i k)) [
        | inl t ↦
            rw (sym e, t)
              (rate_upstream-SamePorts u qs same r
                ∙ ap (λ w. rate_upstream kind exclude w r) (sym changed))
        | inr f ↦ rw (sym e, f) (rate_found-SameUpstreams k xs ys r hs)
      ]

  keys-SameUpstreams : (ups ups' : Upstreams) → SameUpstreams ups ups' → keys ups ≡ keys ups'
  keys-SameUpstreams [] [] h = refl
  keys-SameUpstreams [] (y ∷ ys) h = absurd h
  keys-SameUpstreams (x ∷ xs) [] h = absurd h
  keys-SameUpstreams (x ∷ xs) (y ∷ ys) (e, u, hs) =
      ap (λ k. k ∷ keys xs) e ∙ ap (λ ks. y.0 ∷ ks) (keys-SameUpstreams xs ys hs)

  rate_keys-SameUpstreams :
      (ups ups' : Upstreams) (ks : List String) (r : Rating)
      → SameUpstreams ups ups'
      → rate_keys kind exclude ups ks r ≡ rate_keys kind exclude ups' ks r
  unfolding rate_keys
  rate_keys-SameUpstreams ups ups' [] r h = refl
  rate_keys-SameUpstreams ups ups' (k ∷ ks) r h =
      ap (rate_keys kind exclude ups ks) (rate_found-SameUpstreams k ups ups' r h)
      ∙ rate_keys-SameUpstreams ups ups' ks _ h

  pub rate_all-SameUpstreams :
      (ups ups' : Upstreams)
      → SameUpstreams ups ups'
      → rate_all kind exclude ups ≡ rate_all kind exclude ups'
  unfolding rate_all
  rate_all-SameUpstreams ups ups' h =
      rate_keys-SameUpstreams ups ups' (sort_strings (keys ups)) no_rating h
      ∙ ap (λ ks. rate_keys kind exclude ups' (sort_strings ks) no_rating)
          (keys-SameUpstreams ups ups' h)
