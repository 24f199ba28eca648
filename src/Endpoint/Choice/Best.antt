-- ===== src/Endpoint/Choice/Best.antt =====
-- Which address GetEndpoint returns.
use substrate_rpc_proxy.Prelude.{
  ℕ, zero, suc, ◌+◌, ◌<◌, ◌≡◌, inl, inr, refl, sym, ap, ◌∙◌, String, not, List, [], ◌∷◌, ◌++◌,
  Option, none, some, if◌then◌else◌, ◌==◌, length, get_elem?, arith, Bool-cases, In,
}
use substrate_rpc_proxy.Endpoint.{is_healthy, is_available}
use substrate_rpc_proxy.Endpoint.Rating.{Rating, rate_all, Upstreams}
use substrate_rpc_proxy.Endpoint.Choice.{get_endpoint}
use substrate_rpc_proxy.Endpoint.Choice.Candidates.{
  Holds, candidates, any_status, rate_all-Holds, onto, In-onto,
}

get_elem?-In :
    (xs : List String) (i : ℕ) → i < length xs → (x : String) × (get_elem? xs i ≡ some x) × In x xs
get_elem?-In [] i h = absurd (omega arith)
get_elem?-In (x ∷ xs) zero h = (x, refl, inl refl)
get_elem?-In (x ∷ xs) (suc i) h = let (y, e, m) = get_elem?-In xs i (omega arith) in (y, e, inr m)

get_elem?-In_left :
    (xs ys : List String) (i : ℕ)
    → i < length xs
    → (x : String) × (get_elem? (xs ++ ys) i ≡ some x) × In x xs
get_elem?-In_left [] ys i h = absurd (omega arith)
get_elem?-In_left (x ∷ xs) ys zero h = (x, refl, inl refl)
get_elem?-In_left (x ∷ xs) ys (suc i) h =
    let (y, e, m) = get_elem?-In_left xs ys i (omega arith) in (y, e, inr m)

length-onto : (xs ys : List String) → length (onto xs ys) ≡ length xs + length ys
unfolding onto
length-onto [] ys = omega arith
length-onto (x ∷ xs) ys = omega (arith, length-onto xs (x ∷ ys))

eq_nil_of_length : (xs : List String) → length xs ≡ 0 → xs ≡ []
eq_nil_of_length [] h = refl
eq_nil_of_length (x ∷ xs) h = absurd (omega arith)

-- What the three draws return, in a rating that holds `hs`, `avs` and `ls`.
module _ (hs avs ls : List String) (r : Rating) (h : Holds (onto hs []) avs ls r) (i : ℕ) where
  draw_healthy : i < r.healthy_count → (x : String) × (get_elem? r.rating i ≡ some x) × In x hs
  draw_healthy lt =
      let (x, e, m) = get_elem?-In_left (onto hs []) avs i (omega (arith, h.healthy_len)) in
      (x, ap (λ xs. get_elem? xs i) h.rated ∙ e, ground (arith, In-onto x hs []))

  no_healthy : r.healthy_count ≡ 0 → hs ≡ []
  no_healthy e = eq_nil_of_length hs (omega (arith, length-onto hs [], h.healthy_len))

  only_available : r.healthy_count ≡ 0 → r.rating ≡ avs
  unfolding onto
  only_available e = h.rated ∙ ap (λ xs. onto xs [] ++ avs) (no_healthy e)

  draw_available :
      r.healthy_count ≡ 0
      → i < r.available_count
      → (x : String) × (get_elem? r.rating i ≡ some x) × In x avs
  draw_available e lt =
      let short : i < length avs = omega (arith, h.available_len, h.healthy_len) in
      let (x, found, m) = get_elem?-In avs i short in
      (x, ap (λ xs. get_elem? xs i) (only_available e) ∙ found, m)

  no_available : r.healthy_count ≡ 0 → r.available_count ≡ 0 → avs ≡ []
  no_available e f = eq_nil_of_length avs (omega (arith, h.available_len))

module _ (at : ℕ → Upstreams) (rand : ℕ → ℕ → ℕ) (kind : String) where
  -- What GetEndpoint promises, with the tries left and the excluded address: a healthy address; if
  -- there is none, an available one; if there is none and a try is left, what the next try gives,
  -- where nothing is excluded; else any address, and no address if there is none.
  pub data IsBest : ℕ → String → Option String → Type 0 where
    from_healthy :
        {n : ℕ} {exclude a : String}
        → In a (candidates is_healthy kind exclude (at n))
        → IsBest n exclude (some a)
    from_available :
        {n : ℕ} {exclude a : String}
        → candidates is_healthy kind exclude (at n) ≡ []
        → In a (candidates is_available kind exclude (at n))
        → IsBest n exclude (some a)
    from_retry :
        {n : ℕ} {exclude : String} {o : Option String}
        → candidates is_healthy kind exclude (at (suc n)) ≡ []
        → candidates is_available kind exclude (at (suc n)) ≡ []
        → IsBest n "" o
        → IsBest (suc n) exclude o
    from_any :
        {exclude a : String}
        → candidates is_healthy kind exclude (at 0) ≡ []
        → candidates is_available kind exclude (at 0) ≡ []
        → In a (candidates any_status kind exclude (at 0))
        → IsBest 0 exclude (some a)
    from_nothing :
        {exclude : String} → candidates any_status kind exclude (at 0) ≡ [] → IsBest 0 exclude none

  module _ (rand_lt : (n k : ℕ) → 0 < k → rand n k < k) where
    IsBest-of_any :
        (exclude : String) (ls : List String)
        → candidates is_healthy kind exclude (at 0) ≡ []
        → candidates is_available kind exclude (at 0) ≡ []
        → ls ≡ candidates any_status kind exclude (at 0)
        → IsBest 0 exclude (get_elem? ls (rand 0 (length ls)))
    IsBest-of_any exclude [] nh na e = from_nothing (sym e)
    IsBest-of_any exclude (x ∷ xs) nh na e =
        let (y, found, m) =
          get_elem?-In (x ∷ xs) (rand 0 (length (x ∷ xs))) (rand_lt 0 _ (omega arith)) in
        rw found (from_any nh na (rw (← e) m))

    -- The two tests of a try, before `otherwise`.
    tiers :
        (n : ℕ) (exclude : String) (otherwise : Option String)
        → (candidates is_healthy kind exclude (at n) ≡ []
            → candidates is_available kind exclude (at n) ≡ []
            → IsBest n exclude otherwise)
        → let r = rate_all kind exclude (at n) in
          IsBest n exclude (
            if not (r.healthy_count == 0)
            then get_elem? r.rating (rand n r.healthy_count)
            else (if not (r.available_count == 0)
                then get_elem? r.rating (rand n r.available_count)
                else otherwise))
    tiers n exclude otherwise next =
        let r = rate_all kind exclude (at n) in
        let h = rate_all-Holds kind exclude (at n) in
        elim (Bool-cases (r.healthy_count == 0)) [
          | inr some_healthy ↦
              let (x, e, m) =
                draw_healthy _ _ _ r h (rand n r.healthy_count) (rand_lt n _ (ground arith)) in
              rw (some_healthy, e) (from_healthy m)
          | inl no_one ↦ elim (Bool-cases (r.available_count == 0)) [
            | inr some_available ↦
                let none_healthy : r.healthy_count ≡ 0 = ground arith in
                let (x, e, m) =
                  draw_available _ _ _ r h (rand n r.available_count) none_healthy
                    (rand_lt n _ (ground arith)) in
                rw (no_one, some_available, e)
                  (from_available (no_healthy _ _ _ r h 0 none_healthy) m)
            | inl nothing ↦
                rw (no_one, nothing)
                  (next (no_healthy _ _ _ r h 0 (ground arith))
                    (no_available _ _ _ r h 0 (ground arith) (ground arith)))
          ]
        ]

    -- GetEndpoint returns an address of the best tier that there is, in the order of IsBest, for any
    -- random source that returns numbers below its argument.
    pub get_endpoint-IsBest :
        (exclude : String) (tries : ℕ)
        → IsBest tries exclude (get_endpoint at rand kind exclude tries)
    unfolding get_endpoint
    get_endpoint-IsBest exclude zero =
        tiers 0 exclude _
          (λ nh na. IsBest-of_any exclude _ nh na (rate_all-Holds kind exclude (at 0)).listed)
    get_endpoint-IsBest exclude (suc tries) =
        tiers (suc tries) exclude _ (λ nh na. from_retry nh na (get_endpoint-IsBest "" tries))
