-- ===== src/Prelude/Int.antt =====
-- Integers and machine integers; `negsuc n` is -(n + 1).
use Prim.Native.Nat.{ℕ, ◌+◌, ◌-◌, ◌%◌, ◌^◌, ◌≤◌, ◌<◌}
use mathlib.Core.Path.{◌≡◌}
use mathlib.Core.Logic.{◌⊎◌}
use native.Mathlib.Omega.{arith}

pub data ℤ : Type 0 where
  pos : ℕ → ℤ
  negsuc : ℕ → ℤ

-- uint64 subtraction
abbrev pub sub64 : ℕ → ℕ → ℕ
sub64 a b = (a + 2 ^ 64 - b) % 2 ^ 64

pub sub64-cases :
    (a b : ℕ)
    → a < 2 ^ 64
    → b < 2 ^ 64
    → ((b ≤ a) × (sub64 a b ≡ a - b)) ⊎ ((a < b) × (sub64 a b ≡ a + 2 ^ 64 - b))
sub64-cases a b ha hb = ground arith
