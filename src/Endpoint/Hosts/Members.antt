-- ===== src/Endpoint/Hosts/Members.antt =====
-- Exactly which endpoints an upstream has after updateHostIPs.
use substrate_rpc_proxy.Prelude.{
  ◌≡◌, ◌↔◌, ◌⊎◌, inl, inr, String, true, false, ◌||◌, List, [], ◌∷◌, ◌++◌, str_eq, eq_iff, In,
  In-append_left, In-append_right, In-append_cases, arith, Bool-cases,
}
use substrate_rpc_proxy.Endpoint.{UpstreamEndpoint}
use substrate_rpc_proxy.Endpoint.Hosts.{
  among, has_endpoint, new_endpoint, add_missing, kept, update_host_ips, update_host_ips-eq,
}

among_iff : (a : String) (ips : List String) → (among a ips ≡ true) ↔ In a ips
unfolding among
among_iff a [] = ground arith
among_iff a (ip ∷ ips) = ground (arith, eq_iff ip a, among_iff a ips)

In-kept :
    (ips : List String) (es : List UpstreamEndpoint) (e : UpstreamEndpoint)
    → In e (kept ips es) ↔ (In e es × (among e.address ips ≡ true))
unfolding kept
In-kept ips [] e = ground arith
In-kept ips (x ∷ es) e = ground (arith, In-kept ips es e)

has_endpoint-append :
    (a : String) (es : List UpstreamEndpoint) (x : UpstreamEndpoint)
    → has_endpoint a (es ++ x ∷ []) ≡ (has_endpoint a es || str_eq x.address a)
unfolding has_endpoint
has_endpoint-append a [] x = ground arith
has_endpoint-append a (e ∷ es) x = ground (arith, has_endpoint-append a es x)

-- No endpoint of the list has the address.
abbrev pub Lacks : String → List UpstreamEndpoint → Type 0
Lacks a es = has_endpoint a es ≡ false

abbrev IsAdded : List String → List UpstreamEndpoint → UpstreamEndpoint → Type 0
IsAdded ips es e = (e ≡ new_endpoint e.address) × In e.address ips × Lacks e.address es

add_missing_sound :
    (ips : List String) (es : List UpstreamEndpoint) (e : UpstreamEndpoint)
    → In e (add_missing ips es)
    → In e es ⊎ IsAdded ips es e
unfolding add_missing
add_missing_sound [] es e h = inl h
add_missing_sound (ip ∷ ips) es e h = elim (Bool-cases (has_endpoint ip es)) [
  | inl old ↦ ground (arith, add_missing_sound ips es e)
  | inr new ↦ ground (
    arith,
    add_missing_sound ips (es ++ new_endpoint ip ∷ []) e,
    In-append_cases e es (new_endpoint ip ∷ []),
    has_endpoint-append e.address es (new_endpoint ip),
    new,
  )
]

add_missing_complete :
    (ips : List String) (es : List UpstreamEndpoint) (e : UpstreamEndpoint)
    → In e es ⊎ IsAdded ips es e
    → In e (add_missing ips es)
unfolding add_missing
add_missing_complete [] es e (inl h) = h
add_missing_complete [] es e (inr h) = absurd h.1
add_missing_complete (ip ∷ ips) es e (inl h) =
    add_missing_complete ips _ e (inl (ground (arith, In-append_left e es (new_endpoint ip ∷ []))))
add_missing_complete (ip ∷ ips) es e (inr h) = ground (
  arith,
  eq_iff ip e.address,
  add_missing_complete ips es e,
  add_missing_complete ips (es ++ new_endpoint ip ∷ []) e,
  In-append_right e es (new_endpoint ip ∷ []),
  has_endpoint-append e.address es (new_endpoint ip),
)

-- After updateHostIPs the endpoints are exactly those of before whose address is among the resolved
-- ones, each with its state, and an unreachable one for each resolved address that no kept endpoint
-- has.
pub In-update_host_ips :
    (ips : List String) (es : List UpstreamEndpoint) (e : UpstreamEndpoint)
    → In e (update_host_ips ips es) ↔ (
        (In e es × In e.address ips)
        ⊎ ((e ≡ new_endpoint e.address) × In e.address ips × Lacks e.address (kept ips es)))
In-update_host_ips ips es e = rw (update_host_ips-eq ips es) (
    ground (
      arith,
      add_missing_sound ips (kept ips es) e,
      add_missing_complete ips (kept ips es) e,
      In-kept ips es e,
      among_iff e.address ips,
    ))
