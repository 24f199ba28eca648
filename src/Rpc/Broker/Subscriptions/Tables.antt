-- ===== src/Rpc/Broker/Subscriptions/Tables.antt =====
-- Lookups in the two tables of the broker after a deletion.
use substrate_rpc_proxy.Prelude.{
  ℕ, ◌≡◌, ◌≢◌, refl, sym, ap, ◌∙◌, inl, inr, Bool, true, false, List, [], ◌∷◌, none, some,
  none-ne-some, Bool-cases, if◌then◌else◌,
}
use substrate_rpc_proxy.Rpc.Broker.{load, delete, store}

module _ {K : Type 0} (same : K → K → Bool) (sound : (j k : K) → same j k ≡ true → j ≡ k)
    (itself : (k : K) → same k k ≡ true) where
  differs : (j k : K) → j ≢ k → same j k ≡ false
  differs j k n = elim (Bool-cases (same j k)) [ inl t ↦ absurd (n (sound j k t)) | inr f ↦ f ]

  -- The test of an entry, where it is known whose key the entry has.
  pub load-delete_other :
      (j k : K) (m : List (K × ℕ)) → k ≢ j → load same k (delete same j m) ≡ load same k m
  unfolding load delete
  load-delete_other j k [] n = refl
  load-delete_other j k ((i, c) ∷ m) n = elim (Bool-cases (same i j)) [
    | inl t ↦
        let apart = differs i k (λ e. n (sym e ∙ sound i j t)) in
        rw (t, apart) (load-delete_other j k m n)
    | inr f ↦ rw (f, load) (ap (λ r. if same i k then some c else r) (load-delete_other j k m n))
  ]

  load-delete_same : (k : K) (m : List (K × ℕ)) → load same k (delete same k m) ≡ none
  unfolding load delete
  load-delete_same k [] = refl
  load-delete_same k ((i, c) ∷ m) = elim (Bool-cases (same i k)) [
    | inl t ↦ rw (t) (load-delete_same k m)
    | inr f ↦ rw (f, load, f) (load-delete_same k m)
  ]

  -- What is found after a deletion was there before.
  pub load-delete :
      (j k : K) (m : List (K × ℕ)) (c : ℕ)
      → load same k (delete same j m) ≡ some c
      → (k ≢ j) × (load same k m ≡ some c)
  load-delete j k m c h =
      let n : k ≢ j = λ e.
        none-ne-some (sym (load-delete_same k m) ∙ ap (λ i. load same k (delete same i m)) e ∙ h) in
      (n, sym (load-delete_other j k m n) ∙ h)

  pub load-store_same : (k : K) (c : ℕ) (m : List (K × ℕ)) → load same k (store same k c m) ≡ some c
  unfolding load store
  load-store_same k c m = rw (itself k)

  pub load-store_other :
      (j k : K) (c : ℕ) (m : List (K × ℕ)) → k ≢ j → load same k (store same j c m) ≡ load same k m
  unfolding load store
  load-store_other j k c m n = rw (differs j k (λ e. n (sym e))) (load-delete_other j k m n)
