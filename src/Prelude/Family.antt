-- ===== src/Prelude/Family.antt =====
-- Families indexed by numbers: a change at one index, and sums over the indices below a bound.
use Prim.Native.Nat.{ℕ, zero, suc, ◌+◌, ◌≤◌, ◌<◌}
use mathlib.Core.Path.{◌≡◌, refl}
use mathlib.Core.Logic.{ite}
use native.Mathlib.Decide.{dec_lt, ℕ_discrete}
use native.Mathlib.Omega.{arith}

abbrev pub put {ℓ} : {A : Type ℓ} → (ℕ → A) → ℕ → A → ℕ → A
put f i a j = ite (ℕ_discrete i j) a (f j)

module _ {A : Type 0} (weight : A → ℕ) where
  -- The weights of the first `n` members, added up.
  pub sum_below : (ℕ → A) → ℕ → ℕ
  sum_below f zero = 0
  sum_below f (suc n) = weight (f n) + sum_below f n

  sum_below-put_beyond :
      (f : ℕ → A) (i : ℕ) (a : A) (n : ℕ) → n ≤ i → sum_below (put f i a) n ≡ sum_below f n
  unfolding sum_below
  sum_below-put_beyond f i a zero h = refl
  sum_below-put_beyond f i a (suc n) h = ground (arith, sum_below-put_beyond f i a n)

  -- A change at an index below the bound exchanges one weight for another.
  pub sum_below-put :
      (f : ℕ → A) (i : ℕ) (a : A) (n : ℕ)
      → i < n
      → sum_below (put f i a) n + weight (f i) ≡ sum_below f n + weight a
  unfolding sum_below
  sum_below-put f i a zero h = absurd (omega arith)
  sum_below-put f i a (suc n) h = elim (dec_lt i n) [
    | yes inside ↦ ground (arith, sum_below-put f i a n inside)
    | no here ↦ ground (arith, sum_below-put_beyond f i a n)
  ]

  pub sum_below-const : (a : A) (n : ℕ) → weight a ≡ 0 → sum_below (λ i. a) n ≡ 0
  unfolding sum_below
  sum_below-const a zero h = refl
  sum_below-const a (suc n) h = omega (arith, sum_below-const a n h)

  pub sum_below-zero :
      (f : ℕ → A) (n : ℕ) → ((i : ℕ) → i < n → weight (f i) ≡ 0) → sum_below f n ≡ 0
  unfolding sum_below
  sum_below-zero f zero h = refl
  sum_below-zero f (suc n) h =
      omega (arith, h n (omega arith), sum_below-zero f n (λ i lt. h i (omega arith)))
