-- ===== src/Prelude/Order.antt =====
-- The order of texts, as `compare` decides it.
use Prim.Native.Char.{Char, code}
use Prim.Native.Nat.{ℕ, zero, suc, ◌<◌, Ordering, compare as compare_ℕ}
use Prim.Native.Nat.compare as compare_ℕ
use Prim.Native.String.{String, compare, then}
use Prim.Native.String.compare as compare_laws
use mathlib.Core.Logic.{◌⊎◌, inl, inr}
use mathlib.Core.Path.{◌≡◌, refl, sym, ap, ◌∙◌}
use native.Mathlib.Omega.{arith}
use text.Mathlib.TextEquality.{codes_equal}

-- `s` does not come after `t`.
unfoldable pub Le : String → String → Type 0
Le String.[] t = Unit
Le (String.◌∷◌ c s) String.[] = ⊥
Le (String.◌∷◌ c s) (String.◌∷◌ d t) = (code c < code d) ⊎ ((code c ≡ code d) × Le s t)

pub Le-trans : (s t u : String) → Le s t → Le t u → Le s u
unfolding Le
Le-trans String.[] t u h k = tt
Le-trans (String.◌∷◌ c s) String.[] u h k = absurd h
Le-trans (String.◌∷◌ c s) (String.◌∷◌ d t) String.[] h k = absurd k
Le-trans (String.◌∷◌ c s) (String.◌∷◌ d t) (String.◌∷◌ e u) (inl a) (inl b) = inl (omega arith)
Le-trans (String.◌∷◌ c s) (String.◌∷◌ d t) (String.◌∷◌ e u) (inl a) (inr b) =
    inl (omega (arith, b.0))
Le-trans (String.◌∷◌ c s) (String.◌∷◌ d t) (String.◌∷◌ e u) (inr a) (inl b) =
    inl (omega (arith, a.0))
Le-trans (String.◌∷◌ c s) (String.◌∷◌ d t) (String.◌∷◌ e u) (inr a) (inr b) =
    inr (a.0 ∙ b.0, Le-trans s t u a.1 b.1)

Char-eq : (c d : Char) → code c ≡ code d → c ≡ d
Char-eq c d e = codes_equal c d (ground arith)

pub Le-antisym : (s t : String) → Le s t → Le t s → s ≡ t
unfolding Le
Le-antisym String.[] String.[] h k = refl
Le-antisym String.[] (String.◌∷◌ d t) h k = absurd k
Le-antisym (String.◌∷◌ c s) String.[] h k = absurd h
Le-antisym (String.◌∷◌ c s) (String.◌∷◌ d t) (inl a) (inl b) = absurd (omega arith)
Le-antisym (String.◌∷◌ c s) (String.◌∷◌ d t) (inl a) (inr b) = absurd (omega (arith, b.0))
Le-antisym (String.◌∷◌ c s) (String.◌∷◌ d t) (inr a) (inl b) = absurd (omega (arith, a.0))
Le-antisym (String.◌∷◌ c s) (String.◌∷◌ d t) (inr a) (inr b) =
    ap (λ x. String.◌∷◌ x s) (Char-eq c d a.0) ∙ ap (String.◌∷◌ d) (Le-antisym s t a.1 b.1)

-- What the comparison says, of numbers and of texts.
abbrev NumberSays : ℕ → ℕ → Ordering → Type 0
NumberSays m n Ordering.lt = m < n
NumberSays m n Ordering.eq = m ≡ n
NumberSays m n Ordering.gt = n < m

compare_ℕ-NumberSays : (m n : ℕ) → NumberSays m n (compare_ℕ m n)
compare_ℕ-NumberSays zero zero = refl
compare_ℕ-NumberSays zero (suc n) = rw (compare_ℕ.zero-suc n) (omega arith)
compare_ℕ-NumberSays (suc m) zero = rw (compare_ℕ.suc-zero m) (omega arith)
compare_ℕ-NumberSays (suc m) (suc n) =
    rw (compare_ℕ.suc-suc m n) (step (compare_ℕ m n) (compare_ℕ-NumberSays m n))
  where
    step : (o : Ordering) → NumberSays m n o → NumberSays (suc m) (suc n) o
    step Ordering.lt h = omega (arith, h)
    step Ordering.eq h = ap suc h
    step Ordering.gt h = omega (arith, h)

abbrev pub Says : String → String → Ordering → Type 0
Says s t Ordering.gt = Le t s × (Le s t → ⊥)
Says s t _ = Le s t

then-Says :
    (c d : Char) (s t : String) (o : Ordering)
    → NumberSays (code c) (code d) o
    → Says s t (compare s t)
    → Says (String.◌∷◌ c s) (String.◌∷◌ d t) (then o (compare s t))
unfolding Le
then-Says c d s t Ordering.lt a h = inl a
then-Says c d s t Ordering.gt a h =
    (inl a, λ r. elim r [ inl b ↦ omega (arith, a) | inr b ↦ omega (arith, a, b.0) ])
then-Says c d s t Ordering.eq a h = both (compare s t) h
  where
    both : (o : Ordering) → Says s t o → Says (String.◌∷◌ c s) (String.◌∷◌ d t) o
    both Ordering.lt k = inr (a, k)
    both Ordering.eq k = inr (a, k)
    both Ordering.gt k =
        (inr (sym a, k.0), λ r. elim r [ inl b ↦ omega (arith, a, b) | inr b ↦ k.1 b.1 ])

pub compare-Says : (s t : String) → Says s t (compare s t)
unfolding Le
compare-Says String.[] String.[] = tt
compare-Says String.[] (String.◌∷◌ d t) = rw (compare_laws.nil-cons d t) tt
compare-Says (String.◌∷◌ c s) String.[] = rw (compare_laws.cons-nil c s) (tt, λ h. h)
compare-Says (String.◌∷◌ c s) (String.◌∷◌ d t) = rw (compare_laws.cons-cons c d s t) (
    then-Says c d s t (compare_ℕ (code c) (code d)) (compare_ℕ-NumberSays (code c) (code d))
      (compare-Says s t))
