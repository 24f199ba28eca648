-- ===== src/Middleware/Headers.antt =====
-- CopyHeader of pkg/middleware/types.go. A header is an association list from canonical keys to
-- values; the keys of both headers are canonical already, as those of every parsed request are.
use substrate_rpc_proxy.Prelude.{
  ◌≡◌, ◌⊎◌, inl, inr, refl, ◌∙◌, String, Bool, true, false, List, [], ◌∷◌, ◌++◌, ◌||◌, str_eq,
  if◌then◌else◌, Bool-cases, eq_iff, arith,
}

abbrev pub Header : Type 0
Header = List (String × List String)

abbrev pub skip_headers : List String
skip_headers =
    "Connection" ∷ "Keep-Alive" ∷ "Proxy-Authenticate" ∷ "Proxy-Authorization" ∷ "Te" ∷ "Trailers"
    ∷ "Transfer-Encoding" ∷ "Upgrade" ∷ []

unfoldable pub is_among : String → List String → Bool
is_among k [] = false
is_among k (name ∷ names) = str_eq name k || is_among k names

unfoldable pub values : String → Header → List String
values key [] = []
values key ((k, vv) ∷ r) = let rest = values key r in if str_eq k key then vv else rest

-- dst.Set(k, v)
abbrev pub set_value : String → String → Header → Header
set_value k v h = (k, v ∷ []) ∷ h

-- The loop over the values of one key.
unfoldable pub set_values : String → List String → Header → Header
set_values k [] dst = dst
set_values k (v ∷ vs) dst = set_values k vs (set_value k v dst)

unfoldable pub copy_header : Header → Header → Header
unfolding is_among set_values
copy_header dst [] = dst
copy_header dst ((k, vv) ∷ r) =
    copy_header (if is_among k skip_headers then dst else set_values k vv dst) r

set_values-other :
    (k : String) (vv : List String) (dst : Header) (key : String)
    → str_eq k key ≡ false
    → values key (set_values k vv dst) ≡ values key dst
unfolding set_values values
set_values-other k [] dst key h = refl
set_values-other k (v ∷ vs) dst key h =
    set_values-other k vs (set_value k v dst) key h ∙ rw (h, values) refl

set_values-last :
    (k : String) (vs : List String) (v : String) (dst : Header)
    → str_eq k k ≡ true
    → values k (set_values k (vs ++ v ∷ []) dst) ≡ v ∷ []
unfolding set_values values
set_values-last k [] v dst h = rw (h, values) refl
set_values-last k (x ∷ vs) v dst h = set_values-last k vs v (set_value k x dst) h

-- No key of the header is this one.
abbrev pub Lacks : String → Header → Type 0
Lacks key [] = Unit
Lacks key ((k, vv) ∷ r) = (str_eq k key ≡ false) × Lacks key r

copy_header-Lacks :
    (src dst : Header) (key : String)
    → Lacks key src
    → values key (copy_header dst src) ≡ values key dst
unfolding copy_header
copy_header-Lacks [] dst key h = refl
copy_header-Lacks ((k, vv) ∷ r) dst key (n, h) = elim (Bool-cases (is_among k skip_headers)) [
  | inl t ↦ rw (t, copy_header) (copy_header-Lacks r dst key h)
  | inr t ↦
      rw (t, copy_header)
        (copy_header-Lacks r (set_values k vv dst) key h ∙ set_values-other k vv dst key n)
]

-- A header of the source that is not one of the hop-by-hop headers has, in the copy, only the last
-- of its values; a hop-by-hop header of the source does not come with it. The key is one of the
-- source once.
pub copy_header-values :
    (before after dst : Header) (key : String) (vs : List String) (v : String)
    → Lacks key before
    → Lacks key after
    → ((is_among key skip_headers ≡ false)
        × (values key (copy_header dst (before ++ (key, vs ++ v ∷ []) ∷ after)) ≡ v ∷ []))
      ⊎ ((is_among key skip_headers ≡ true)
          × (values key (copy_header dst (before ++ (key, vs ++ v ∷ []) ∷ after)) ≡ values key dst))
unfolding copy_header
copy_header-values [] after dst key vs v _ h = elim (Bool-cases (is_among key skip_headers)) [
  | inl t ↦ inr (t, rw (t, copy_header) (copy_header-Lacks after dst key h))
  | inr t ↦
      let same : str_eq key key ≡ true = ground (arith, eq_iff key key) in
      inl (
        t,
        rw (t, copy_header)
            (copy_header-Lacks after (set_values key (vs ++ v ∷ []) dst) key h
              ∙ set_values-last key vs v dst same),
      )
]
copy_header-values ((k, vv) ∷ r) after dst key vs v (n, b) h =
    elim (Bool-cases (is_among k skip_headers)) [
      | inl t ↦ rw (t, copy_header) (copy_header-values r after dst key vs v b h)
      | inr t ↦ elim (copy_header-values r after (set_values k vv dst) key vs v b h) [
        | inl (a, e) ↦ inl (a, rw (t, copy_header) e)
        | inr (a, e) ↦ inr (a, rw (t, copy_header) (e ∙ set_values-other k vv dst key n))
      ]
    ]
