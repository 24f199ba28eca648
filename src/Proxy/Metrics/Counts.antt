-- ===== src/Proxy/Metrics/Counts.antt =====
-- The counts of connections and of their running requests, address by address.
use substrate_rpc_proxy.Prelude.{
  ℕ, ◌+◌, ◌≡◌, inl, inr, refl, sym, ◌∙◌, ap, String, Bool, true, false, List, [], ◌∷◌, Option, none,
  some, str_eq, str_eq_self, str_eq-same, str_eq-other, length, if◌then◌else◌, eq_iff, Bool-cases,
  Option-cases, arith,
}
use substrate_rpc_proxy.Proxy.Connection.{RequestPayload}
use substrate_rpc_proxy.Proxy.Handler.{Proxied}
use substrate_rpc_proxy.Proxy.Metrics.{
  format_address, count_of, increment, ensure, count_requests, count_connections,
}

abbrev pub or_zero : Option ℕ → ℕ
or_zero none = 0
or_zero (some n) = n

-- What the connections to an address add up to, each with its own number; `none` without one.
unfoldable pub total :
    (String → Option (String × String × String))
    → (Proxied → ℕ)
    → String
    → List (String × Proxied)
    → Option ℕ
unfolding format_address
total parse_url f host [] = none
total parse_url f host ((id, p) ∷ table) =
    let rest = total parse_url f host table in
    if str_eq (format_address parse_url p.upstream) host then some (f p + or_zero rest) else rest

abbrev pub one : Proxied → ℕ
one p = 1

abbrev pub running : Proxied → ℕ
running p = length p.connection.requests

-- Two counts of one address.
abbrev pub plus : Option ℕ → Option ℕ → Option ℕ
plus none b = b
plus (some a) b = some (a + or_zero b)

count_of-increment :
    (h host : String) (counts : List (String × ℕ))
    → count_of host (increment h counts)
      ≡ (if str_eq h host then some (1 + or_zero (count_of host counts)) else count_of host counts)
unfolding count_of increment
count_of-increment h host [] = refl
count_of-increment h host ((k, c) ∷ counts) = elim (Bool-cases (str_eq k h)) [
  | inl t ↦ elim (Bool-cases (str_eq h host)) [
    | inl u ↦ rw (t, count_of, str_eq-same k h host t, u) (ap (λ x. some x) (omega arith))
    | inr u ↦ rw (t, count_of, str_eq-same k h host t, u)
  ]
  | inr f ↦ elim (Bool-cases (str_eq k host)) [
    | inl u ↦ rw (f, count_of, u, str_eq-other k h host f u)
    | inr u ↦ rw (f, count_of, u) (count_of-increment h host counts)
  ]
]

count_of-ensure_here :
    (h : String) (counts : List (String × ℕ))
    → count_of h (ensure h counts) ≡ some (or_zero (count_of h counts))
unfolding count_of ensure
count_of-ensure_here h counts = elim (Option-cases (count_of h counts)) [
  | inl e ↦ rw (e, ensure, count_of, str_eq_self h)
  | inr (c, e) ↦ rw (e, ensure, e)
]

count_of-ensure_other :
    (h host : String) (counts : List (String × ℕ))
    → str_eq h host ≡ false
    → count_of host (ensure h counts) ≡ count_of host counts
unfolding count_of ensure
count_of-ensure_other h host counts f = elim (Option-cases (count_of h counts)) [
  | inl e ↦ rw (ensure, e, count_of, f)
  | inr (c, e) ↦ rw (ensure, e)
]

count_of-requests_here :
    (h : String) (qs : List (ℕ × RequestPayload)) (c : ℕ) (counts : List (String × ℕ))
    → count_of h counts ≡ some c
    → count_of h (count_requests h qs counts) ≡ some (length qs + c)
unfolding count_requests
count_of-requests_here h [] c counts e = e ∙ ap (λ x. some x) (omega arith)
count_of-requests_here h (q ∷ qs) c counts e =
    count_of-requests_here h qs (1 + c) (increment h counts)
      (count_of-increment h h counts ∙ rw (str_eq_self h, e))
    ∙ ap (λ x. some x) (omega arith)

count_of-requests_other :
    (h host : String) (qs : List (ℕ × RequestPayload)) (counts : List (String × ℕ))
    → str_eq h host ≡ false
    → count_of host (count_requests h qs counts) ≡ count_of host counts
unfolding count_requests
count_of-requests_other h host [] counts f = refl
count_of-requests_other h host (q ∷ qs) counts f =
    count_of-requests_other h host qs (increment h counts) f
    ∙ count_of-increment h host counts
    ∙ rw f

-- What the connection of an address leaves of requestsCount.
count_of-requests :
    (h host : String) (qs : List (ℕ × RequestPayload)) (counts : List (String × ℕ))
    → count_of host (count_requests h qs (ensure h counts)) ≡ (
        if str_eq h host
        then some (length qs + or_zero (count_of host counts))
        else count_of host counts)
count_of-requests h host qs counts = elim (Bool-cases (str_eq h host)) [
  | inl t ↦
      let same : h ≡ host = (eq_iff h host).0 t in
      ap (λ x. count_of x (count_requests h qs (ensure h counts))) (sym same)
      ∙ count_of-requests_here h qs (or_zero (count_of h counts)) (ensure h counts)
          (count_of-ensure_here h counts)
      ∙ ap (λ x. some (length qs + or_zero (count_of x counts))) same
      ∙ rw t
  | inr f ↦
      count_of-requests_other h host qs (ensure h counts) f
      ∙ count_of-ensure_other h host counts f
      ∙ rw f
]

plus-step :
    (b : Bool) (n : ℕ) (t c : Option ℕ)
    → plus t (if b then some (n + or_zero c) else c)
      ≡ plus (if b then some (n + or_zero t) else t) c
plus-step false n t c = refl
plus-step true n none c = ap (λ x. some x) (omega arith)
plus-step true n (some a) c = ap (λ x. some x) (omega arith)

pub plus_nothing : (t : Option ℕ) → plus t none ≡ t
plus_nothing none = refl
plus_nothing (some a) = ap (λ x. some x) (omega arith)

-- Both counts, after the loop over the connections.
pub counted :
    (parse_url : String → Option (String × String × String)) (host : String)
    (table : List (String × Proxied)) (connections requests : List (String × ℕ))
    → (count_of host (count_connections parse_url table (connections, requests)).0
        ≡ plus (total parse_url one host table) (count_of host connections))
      × (count_of host (count_connections parse_url table (connections, requests)).1
          ≡ plus (total parse_url running host table) (count_of host requests))
unfolding count_connections total
counted parse_url host [] connections requests = (refl, refl)
counted parse_url host ((id, p) ∷ table) connections requests =
    let h = format_address parse_url p.upstream in
    let (a, b) =
      counted parse_url host table (increment h connections)
        (count_requests h p.connection.requests (ensure h requests)) in
    (
      a
          ∙ ap (λ x. plus (total parse_url one host table) x)
              (count_of-increment h host connections)
          ∙ plus-step (str_eq h host) 1 (total parse_url one host table)
              (count_of host connections),
      b
          ∙ ap (λ x. plus (total parse_url running host table) x)
              (count_of-requests h host p.connection.requests requests)
          ∙ plus-step (str_eq h host) (running p) (total parse_url running host table)
              (count_of host requests),
    )
