-- ===== src/Endpoint/Provider/Ports.antt =====
-- Which ports the upstreams of a new provider have.
use substrate_rpc_proxy.Endpoint.{Upstream}
use substrate_rpc_proxy.Endpoint.Address.{lookup}
use substrate_rpc_proxy.Endpoint.Check.{Lookup, lookup_failed, resolved}
use substrate_rpc_proxy.Endpoint.Hosts.{among}
use substrate_rpc_proxy.Endpoint.Provider.{
  Url, with_scheme, split_plus, set_key, set_ports, merge_ports, new_upstream, with_resolved,
  resolve_upstream, parse_upstream_addr, add_upstream, add_hosts, new_upstream_provider,
  is_resolved_scheme,
}
use substrate_rpc_proxy.Endpoint.Rating.{Upstreams, find_upstream}
use substrate_rpc_proxy.Prelude.{
  ◌≡◌, inl, inr, refl, sym, ◌∙◌, ap, String, Bool, true, false, not, ◌&&◌, List, [], ◌∷◌, Option,
  none, some, str_eq, str_eq_self, eq_iff, if◌then◌else◌, Bool-cases, Option-cases, All,
}
use substrate_rpc_proxy.Endpoint.Provider.Maps.{
  find, find-lookup, find-find_upstream, find-set_key, find-set_ports, HasOnePort,
  HasOnePort-set_ports, over, find-merge_ports,
}

-- The port under a scheme of the upstream with a host name.
abbrev pub port_in : String → Option Upstream → Option String
port_in n none = none
port_in n (some u) = lookup n u.ports

abbrev pub port_of : String → String → Upstreams → Option String
port_of host n ups = port_in n (find_upstream host ups)

find_upstream-set_key :
    (key host : String) (u : Upstream) (ups : Upstreams)
    → find_upstream host (set_key key u ups)
      ≡ (if str_eq key host then some u else find_upstream host ups)
find_upstream-set_key key host u ups =
    find-find_upstream host (set_key key u ups)
    ∙ find-set_key key host u ups
    ∙ ap (λ x. if str_eq key host then some u else x) (sym (find-find_upstream host ups))

over-among :
    (b : Bool) (port : String) (old : Option String)
    → over port (if b then some port else none) old ≡ (if b then some port else old)
over-among true port old = refl
over-among false port old = refl

-- An upstream made of an address, with endpoints or without.
record IsMadeFrom (a : Url) (u : Upstream) : Type 0 where
  host : u.hostname ≡ a.hostname
  ports : u.ports ≡ set_ports a.port (split_plus a.scheme) []

module _ {W : Type 0} (parse_url : String → Option Url) (is_ip : String → Bool)
    (resolve : String → W → Lookup × W) where
  with_resolved-IsMadeFrom :
      (a : Url) (u : Upstream) (l : Lookup) → IsMadeFrom a u → IsMadeFrom a (with_resolved u l)
  unfolding with_resolved
  with_resolved-IsMadeFrom a u (lookup_failed e) h = h
  with_resolved-IsMadeFrom a u (resolved ips) h = record { host = h.host; ports = h.ports }

  resolve_upstream-IsMadeFrom :
      (a : Url) (w : W) → IsMadeFrom a (resolve_upstream parse_url is_ip resolve a w).0
  unfolding resolve_upstream new_upstream
  resolve_upstream-IsMadeFrom a w =
      let made : IsMadeFrom a (record (new_upstream a) { must_resolve = true }) = record {
        host = refl;
        ports = refl;
      } in
      elim (Bool-cases (is_resolved_scheme a.scheme && not (is_ip a.hostname))) [
        | inl t ↦ rw t (
            with_resolved-IsMadeFrom a (record (new_upstream a) { must_resolve = true })
              (resolve a.hostname w).0 made)
        | inr f ↦ rw f (record { host = refl; ports = refl })
      ]

  -- The ports of the new upstream, alone or merged into those of an earlier one.
  lookup-made :
      (a : Url) (u : Upstream) (n : String)
      → IsMadeFrom a u
      → lookup n u.ports ≡ (if among n (split_plus a.scheme) then some a.port else none)
  unfolding find
  lookup-made a u n made =
      ap (lookup n) made.ports
      ∙ find-lookup n (set_ports a.port (split_plus a.scheme) [])
      ∙ find-set_ports a.port n (split_plus a.scheme) []

  lookup-merged :
      (a : Url) (u : Upstream) (n : String) (old : List (String × String))
      → IsMadeFrom a u
      → lookup n (merge_ports u.ports old)
        ≡ (if among n (split_plus a.scheme) then some a.port else lookup n old)
  unfolding HasOnePort
  lookup-merged a u n old made =
      let new = set_ports a.port (split_plus a.scheme) [] in
      let one : HasOnePort a.port new = HasOnePort-set_ports a.port (split_plus a.scheme) [] tt in
      ap (λ r. lookup n (merge_ports r old)) made.ports
      ∙ find-lookup n (merge_ports new old)
      ∙ find-merge_ports a.port n new old one
      ∙ ap (λ x. over a.port x (find n old))
          (sym (find-lookup n new) ∙ sym (ap (lookup n) made.ports) ∙ lookup-made a u n made)
      ∙ over-among (among n (split_plus a.scheme)) a.port (find n old)
      ∙ ap (λ x. if among n (split_plus a.scheme) then some a.port else x) (sym (find-lookup n old))

  add_upstream-own :
      (a : Url) (u : Upstream) (ups : Upstreams) (n : String)
      → IsMadeFrom a u
      → port_of u.hostname n (add_upstream parse_url is_ip resolve u ups)
        ≡ (if among n (split_plus a.scheme) then some a.port else port_of u.hostname n ups)
  unfolding add_upstream
  add_upstream-own a u ups n made = elim (Option-cases (find_upstream u.hostname ups)) [
    | inl e ↦
        rw
          (
            e,
            add_upstream,
            find_upstream-set_key u.hostname u.hostname u ups,
            str_eq_self u.hostname,
          )
          (lookup-made a u n made)
    | inr (x, e) ↦
        let merged : Upstream = record x { ports = merge_ports u.ports x.ports } in
        rw
          (
            e,
            add_upstream,
            find_upstream-set_key u.hostname u.hostname merged ups,
            str_eq_self u.hostname,
          )
          (lookup-merged a u n x.ports made)
  ]

  add_upstream-other :
      (u : Upstream) (ups : Upstreams) (host n : String)
      → str_eq u.hostname host ≡ false
      → port_of host n (add_upstream parse_url is_ip resolve u ups) ≡ port_of host n ups
  unfolding add_upstream
  add_upstream-other u ups host n f = elim (Option-cases (find_upstream u.hostname ups)) [
    | inl e ↦ rw (e, add_upstream, find_upstream-set_key u.hostname host u ups, f)
    | inr (x, e) ↦
        let merged : Upstream = record x { ports = merge_ports u.ports x.ports } in
        rw (e, add_upstream, find_upstream-set_key u.hostname host merged ups, f)
  ]

  add_upstream-port_of :
      (a : Url) (u : Upstream) (ups : Upstreams) (host n : String)
      → IsMadeFrom a u
      → port_of host n (add_upstream parse_url is_ip resolve u ups) ≡ (
          if str_eq a.hostname host && among n (split_plus a.scheme)
          then some a.port
          else port_of host n ups)
  add_upstream-port_of a u ups host n made = elim (Bool-cases (str_eq u.hostname host)) [
    | inl t ↦
        let same : u.hostname ≡ host = (eq_iff u.hostname host).0 t in
        ap (λ h. port_of h n (add_upstream parse_url is_ip resolve u ups)) (sym same)
        ∙ add_upstream-own a u ups n made
        ∙ ap (λ h. if among n (split_plus a.scheme) then some a.port else port_of h n ups) same
        ∙ rw (ap (λ h. str_eq h host) (sym made.host) ∙ t)
    | inr f ↦ add_upstream-other u ups host n f ∙ rw (ap (λ h. str_eq h host) (sym made.host) ∙ f)
  ]

  -- The port under a scheme for a host, once some addresses were added to what there was.
  unfoldable pub last_port : String → String → List String → Option String → Option String
  last_port host n [] old = old
  last_port host n (s ∷ ss) old = elim (parse_url (with_scheme s)) [
    | none ↦ old
    | some a ↦
        last_port host n ss
          (if str_eq a.hostname host && among n (split_plus a.scheme) then some a.port else old)
  ]

  parse_upstream_addr-found :
      (s : String) (a : Url) (w : W)
      → parse_url (with_scheme s) ≡ some a
      → parse_upstream_addr parse_url is_ip resolve s w ≡ (
        some (resolve_upstream parse_url is_ip resolve a w).0,
        (resolve_upstream parse_url is_ip resolve a w).1,
      )
  unfolding parse_upstream_addr
  parse_upstream_addr-found s a w e = rw (parse_upstream_addr, e)

  -- The body of the loop, for a parsed address.
  abbrev step : List String → Upstreams → Option Upstream × W → Option Upstreams × W
  step ss ups (none, w) = (none, w)
  step ss ups (some u, w) =
      add_hosts parse_url is_ip resolve ss (add_upstream parse_url is_ip resolve u ups) w

  add_hosts-step :
      (s : String) (ss : List String) (ups : Upstreams) (x : Option Upstream × W)
      → (elim (x.0) as (λ y. Option Upstreams × W) [
        | none ↦ (none, x.1)
        | some u ↦
            add_hosts parse_url is_ip resolve ss (add_upstream parse_url is_ip resolve u ups) x.1
      ])
        ≡ step ss ups x
  add_hosts-step s ss ups (none, w) = refl
  add_hosts-step s ss ups (some u, w) = refl

  add_hosts-ports :
      (hosts : List String) (ups : Upstreams) (w : W)
      → All (λ s. (a : Url) × (parse_url (with_scheme s) ≡ some a)) hosts
      → (ups' : Upstreams) × ((add_hosts parse_url is_ip resolve hosts ups w).0 ≡ some ups')
        × ((host n : String) → port_of host n ups' ≡ last_port host n hosts (port_of host n ups))
  unfolding add_hosts parse_upstream_addr last_port
  add_hosts-ports [] ups w h = (ups, refl, λ host n. refl)
  add_hosts-ports (s ∷ ss) ups w ((a, e), h) =
      let u = (resolve_upstream parse_url is_ip resolve a w).0 in
      let w' = (resolve_upstream parse_url is_ip resolve a w).1 in
      let (ups', done, ports) =
        add_hosts-ports ss (add_upstream parse_url is_ip resolve u ups) w' h in
      (
        ups',
        ap (λ y. y.0) (add_hosts-step s ss ups (parse_upstream_addr parse_url is_ip resolve s w))
            ∙ ap (λ x. (step ss ups x).0) (parse_upstream_addr-found s a w e)
            ∙ done,
        λ host n.
            ports host n
            ∙ ap (λ x. last_port host n ss x)
                (add_upstream-port_of a u ups host n (resolve_upstream-IsMadeFrom a w))
            ∙ rw (last_port, e),
      )

  -- A provider is made of any addresses that parse, and gives its upstreams the ports that the
  -- addresses with their host name say: under a scheme the one of the last such address that has
  -- the scheme among its own, whether the host was known before or not.
  pub new_upstream_provider-ports :
      (hosts : List String) (w : W)
      → All (λ s. (a : Url) × (parse_url (with_scheme s) ≡ some a)) hosts
      → (ups : Upstreams) × ((new_upstream_provider parse_url is_ip resolve hosts w).0 ≡ some ups)
        × ((host n : String) → port_of host n ups ≡ last_port host n hosts none)
  unfolding new_upstream_provider find_upstream
  new_upstream_provider-ports hosts w h = add_hosts-ports hosts [] w h
