-- ===== src/Endpoint/Rating/Order.antt =====
-- The loop over the sorted keys does not see the order of the map's entries.
use Prim.Native.Nat.{Ordering}
use Prim.Native.String.{compare}
use mathlib.Core.List.{Permᴰ}
use mathlib.Core.Bool.{true≢false}
use mathlib.Core.Path.{subst}
use substrate_rpc_proxy.Prelude.{
  ◌≡◌, refl, ap, sym, ◌∙◌, ◌⊎◌, inl, inr, String, false, Bool-cases, none-ne-some, str_eq-other,
  eq_iff, List, [], ◌∷◌, none, str_eq,
}
use substrate_rpc_proxy.Prelude.Order.{Le, Le-trans, Le-antisym, Says, compare-Says}
use substrate_rpc_proxy.Endpoint.{Upstream}
use substrate_rpc_proxy.Endpoint.Rating.{
  sorted_insert, sort_strings, Upstreams, find_upstream, rate_keys, rate_all, keys, Rating,
  no_rating,
}

-- A key goes in front of the list, or behind its head.
Placed : String → String → List String → Type 0
Placed k j js =
    (Le k j × (sorted_insert k (j ∷ js) ≡ k ∷ j ∷ js))
    ⊎ (Le j k × (Le k j → ⊥) × (sorted_insert k (j ∷ js) ≡ j ∷ sorted_insert k js))

placed : (k j : String) (js : List String) → Placed k j js
unfolding Placed sorted_insert
placed k j js = by (compare k j) (compare-Says k j)
  where
    by :
        (o : Ordering)
        → Says k j o
        → (Le k j
            × ((elim o [ Ordering.gt ↦ j ∷ sorted_insert k js | _ ↦ k ∷ j ∷ js ]) ≡ k ∷ j ∷ js))
          ⊎ (Le j k
              × (Le k j → ⊥)
              × ((elim o [ Ordering.gt ↦ j ∷ sorted_insert k js | _ ↦ k ∷ j ∷ js ])
                  ≡ j ∷ sorted_insert k js))
    by Ordering.lt h = inl (h, refl)
    by Ordering.eq h = inl (h, refl)
    by Ordering.gt h = inr (h.0, h.1, refl)

-- Two keys that both go in front of a list.
swap_front :
    (a b : String) (xs : List String)
    → sorted_insert a xs ≡ a ∷ xs
    → sorted_insert b xs ≡ b ∷ xs
    → sorted_insert a (b ∷ xs) ≡ sorted_insert b (a ∷ xs)
unfolding Placed
swap_front a b xs p q = elim (placed a b xs) [
  | inl h ↦ elim (placed b a xs) [
    | inl k ↦
        let e = Le-antisym a b h.0 k.0 in
        h.1 ∙ ap (λ x. x ∷ b ∷ xs) e ∙ ap (λ x. b ∷ x ∷ xs) (sym e) ∙ sym k.1
    | inr k ↦ h.1 ∙ ap (λ r. a ∷ r) (sym q) ∙ sym k.2
  ]
  | inr h ↦ elim (placed b a xs) [
    | inl k ↦ h.2 ∙ ap (λ r. b ∷ r) p ∙ sym k.1
    | inr k ↦ absurd (h.1 k.0)
  ]
]

swap_behind :
    (a b j : String) (js : List String)
    → Le a j
    → sorted_insert a (j ∷ sorted_insert b js) ≡ a ∷ j ∷ sorted_insert b js
    → (Le b j → ⊥)
    → sorted_insert b (j ∷ js) ≡ j ∷ sorted_insert b js
    → sorted_insert a (j ∷ sorted_insert b js) ≡ sorted_insert b (a ∷ j ∷ js)
unfolding Placed
swap_behind a b j js le p above q = elim (placed b a (j ∷ js)) [
  | inl h ↦ absurd (above (Le-trans b a j h.0 le))
  | inr h ↦ p ∙ ap (λ r. a ∷ r) (sym q) ∙ sym h.2
]

pub sorted_insert-swap :
    (a b : String) (xs : List String)
    → sorted_insert a (sorted_insert b xs) ≡ sorted_insert b (sorted_insert a xs)
unfolding sorted_insert Placed
sorted_insert-swap a b [] = swap_front a b [] refl refl
sorted_insert-swap a b (j ∷ js) = elim (placed a j js) [
  | inl h ↦ elim (placed b j js) [
    | inl k ↦
        ap (sorted_insert a) k.1 ∙ swap_front a b (j ∷ js) h.1 k.1 ∙ ap (sorted_insert b) (sym h.1)
    | inr k ↦
        ap (sorted_insert a) k.2
        ∙ swap_behind a b j js h.0 (front a h.0 (sorted_insert b js)) k.1 k.2
        ∙ ap (sorted_insert b) (sym h.1)
  ]
  | inr h ↦ elim (placed b j js) [
    | inl k ↦
        ap (sorted_insert a) k.1
        ∙ sym (swap_behind b a j js k.0 (front b k.0 (sorted_insert a js)) h.1 h.2)
        ∙ ap (sorted_insert b) (sym h.2)
    | inr k ↦
        ap (sorted_insert a) k.2
        ∙ behind a h.1 (sorted_insert b js)
        ∙ ap (λ r. j ∷ r) (sorted_insert-swap a b js)
        ∙ sym (behind b k.1 (sorted_insert a js))
        ∙ ap (sorted_insert b) (sym h.2)
  ]
]
  where
    front : (k : String) → Le k j → (r : List String) → sorted_insert k (j ∷ r) ≡ k ∷ j ∷ r
    front k le r = elim (placed k j r) [ inl h ↦ h.1 | inr h ↦ absurd (h.1 le) ]

    behind :
        (k : String)
        → (Le k j → ⊥)
        → (r : List String) → sorted_insert k (j ∷ r) ≡ j ∷ sorted_insert k r
    behind k above r = elim (placed k j r) [ inl h ↦ absurd (above h.0) | inr h ↦ h.2 ]

sort_strings-Permᴰ : {xs ys : List String} → Permᴰ xs ys → sort_strings xs ≡ sort_strings ys
unfolding sort_strings
sort_strings-Permᴰ Permᴰ.nil = refl
sort_strings-Permᴰ (Permᴰ.cons {a = a} {b = b} {l₁ = l} e d) =
    ap (λ x. sorted_insert x (sort_strings l)) e ∙ ap (sorted_insert b) (sort_strings-Permᴰ d)
sort_strings-Permᴰ (Permᴰ.swap {a = a} {b = b} {a' = a'} {l = l} e f) =
    sorted_insert-swap a b (sort_strings l)
    ∙ ap (λ x. sorted_insert x (sorted_insert a (sort_strings l))) f
    ∙ ap (λ x. sorted_insert a' (sorted_insert x (sort_strings l))) e
sort_strings-Permᴰ (Permᴰ.trans d e) = sort_strings-Permᴰ d ∙ sort_strings-Permᴰ e

-- What a map is: no key has two entries.
unfoldable pub IsMap : Upstreams → Type 0
unfolding find_upstream
IsMap [] = Unit
IsMap ((k, u) ∷ r) = (find_upstream k r ≡ none) × IsMap r

-- The same map, with its entries in another order.
abbrev Same : Upstreams → Upstreams → Type 0
Same ups ups' = IsMap ups' × ((key : String) → find_upstream key ups ≡ find_upstream key ups')

find_upstream-absent :
    (k j : String) (v : Upstream) (r : Upstreams)
    → find_upstream k ((j, v) ∷ r) ≡ none
    → (str_eq j k ≡ false) × (find_upstream k r ≡ none)
unfolding find_upstream
find_upstream-absent k j v r h = elim (Bool-cases (str_eq j k)) [
  | inl t ↦ absurd (none-ne-some (sym (rw (t) at h)))
  | inr f ↦ (f, rw (f) at h)
]

str_eq-apart : (s t : String) → str_eq s t ≡ false → str_eq t s ≡ false
str_eq-apart s t f = elim (Bool-cases (str_eq t s)) [
  | inl u ↦ absurd (true≢false (sym ((eq_iff s t).1 (sym ((eq_iff t s).0 u))) ∙ f))
  | inr g ↦ g
]

Same-swap :
    (a b : String × Upstream) (r : Upstreams) → IsMap (a ∷ b ∷ r) → Same (a ∷ b ∷ r) (b ∷ a ∷ r)
unfolding IsMap find_upstream
Same-swap (k, u) (j, v) r (h, (absent, m)) =
    let other = find_upstream-absent k j v r h in
    let apart : str_eq k j ≡ false = str_eq-apart j k other.0 in
    (
      (rw (apart) absent, (other.1, m)),
      λ key. elim (Bool-cases (str_eq k key)) [
        | inl t ↦ rw (t, str_eq-other k j key apart t)
        | inr f ↦ rw (f)
      ],
    )

find_upstream-Permᴰ : {ups ups' : Upstreams} → Permᴰ ups ups' → IsMap ups → Same ups ups'
unfolding IsMap find_upstream
find_upstream-Permᴰ Permᴰ.nil h = (tt, λ key. refl)
find_upstream-Permᴰ (Permᴰ.cons {a = a} {b = b} {l₁ = l} {l₂ = m} e d) h =
    let s = find_upstream-Permᴰ d h.1 in
    subst (Same (a ∷ l)) (ap (λ x. x ∷ m) e) ((sym (s.1 a.0) ∙ h.0, s.0), λ key. rw (s.1 key))
find_upstream-Permᴰ (Permᴰ.swap {a = a} {b = b} {l = l} e f) h =
    subst (Same (a ∷ b ∷ l)) (λ i. f i ∷ e i ∷ l) (Same-swap a b l h)
find_upstream-Permᴰ (Permᴰ.trans d e) h =
    let s = find_upstream-Permᴰ d h in
    let t = find_upstream-Permᴰ e s.0 in (t.0, λ key. s.1 key ∙ t.1 key)

rate_keys-Same :
    (kind exclude : String) (ups ups' : Upstreams)
    → ((key : String) → find_upstream key ups ≡ find_upstream key ups')
    → (ks : List String) (r : Rating)
    → rate_keys kind exclude ups ks r ≡ rate_keys kind exclude ups' ks r
unfolding rate_keys
rate_keys-Same kind exclude ups ups' same [] r = refl
rate_keys-Same kind exclude ups ups' same (k ∷ ks) r =
    rw (same k) (rate_keys-Same kind exclude ups ups' same ks _)

keys-Permᴰ : {ups ups' : Upstreams} → Permᴰ ups ups' → Permᴰ (keys ups) (keys ups')
keys-Permᴰ Permᴰ.nil = Permᴰ.nil
keys-Permᴰ (Permᴰ.cons e d) = Permᴰ.cons (ap (λ p. p.0) e) (keys-Permᴰ d)
keys-Permᴰ (Permᴰ.swap e f) = Permᴰ.swap (ap (λ p. p.0) e) (ap (λ p. p.0) f)
keys-Permᴰ (Permᴰ.trans d e) = Permᴰ.trans (keys-Permᴰ d) (keys-Permᴰ e)

pub rate_all-Permᴰ :
    (kind exclude : String) {ups ups' : Upstreams}
    → Permᴰ ups ups'
    → IsMap ups
    → rate_all kind exclude ups ≡ rate_all kind exclude ups'
unfolding rate_all
rate_all-Permᴰ kind exclude {ups} {ups'} d m =
    ap (λ ks. rate_keys kind exclude ups ks no_rating) (sort_strings-Permᴰ (keys-Permᴰ d))
    ∙ rate_keys-Same kind exclude ups ups' ((find_upstream-Permᴰ d m).1) (sort_strings (keys ups'))
        no_rating
