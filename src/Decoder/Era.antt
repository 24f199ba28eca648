-- ===== src/Decoder/Era.antt =====
-- DecodeExtrinsicEra of pkg/decoder/decoder.go.
use mathlib.Core.Option as Options
use substrate_rpc_proxy.Prelude.{
  ℕ, ◌+◌, ◌*◌, ◌/◌, ◌%◌, ◌^◌, ◌<◌, max, ◌≡◌, refl, List, [], ◌∷◌, Option, none, some, ltb, length,
  sym, none-ne-some, ◌↔◌, not, ◌&&◌, ◌==◌, if◌then◌else◌, sub64, arith,
}

pub record Era : Type 0 where
  pub period : ℕ
  pub phase : ℕ
  pub birth : ℕ

-- math.Max(float64(period>>12), 1)
abbrev pub quantize_factor : ℕ → ℕ
quantize_factor period = max (period / 2 ^ 12) 1

unfoldable pub birth_of : ℕ → ℕ → ℕ → ℕ
birth_of current period phase =
    let t = if ltb 0 (sub64 current phase) then current else 0 in
    if not (current == 0) && not (period == 0) then sub64 t phase / period else 0

-- `2 << k` is at most 2^16, so nothing wraps around. `none` where an index is out of range: the
-- bytes are those of the era's text.
unfoldable pub decode_extrinsic_era : List ℕ → ℕ → Option Era
unfolding birth_of
decode_extrinsic_era (first ∷ second ∷ bs) current =
    let encoded = first + second * 2 ^ 8 in
    let period = 2 * 2 ^ (encoded % 2 ^ 4) in
    let phase = encoded / 2 ^ 4 * quantize_factor period in
    some (record { period = period; phase = phase; birth = birth_of current period phase })
decode_extrinsic_era _ current = none

-- The two bytes of a mortal era: the exponent of the period, less 1, in the low four bits, the
-- quantized phase in the others, the low byte first.
abbrev pub encode_era : ℕ → ℕ → List ℕ
encode_era k quantized = (k + quantized * 16) % 256 ∷ (k + quantized * 16) / 256 ∷ []

abbrev pub period_and_phase : Era → ℕ × ℕ
period_and_phase e = (e.period, e.phase)

two_bytes : (n : ℕ) → n % 256 + n / 256 * 256 ≡ n
two_bytes n = omega arith

low_bits : (k q : ℕ) → k < 16 → (k + q * 16) % 16 ≡ k
low_bits k q h = omega arith

high_bits : (k q : ℕ) → k < 16 → (k + q * 16) / 16 ≡ q
high_bits k q h = omega arith

-- A mortal era of period 2^(k+1) and quantized phase q is decoded to that period, and to q times
-- the quantize factor, whatever the current block.
pub decode_extrinsic_era-encode_era :
    (k q current : ℕ)
    → k < 16
    → Options.map period_and_phase (decode_extrinsic_era (encode_era k q) current)
      ≡ some (2 * 2 ^ k, q * quantize_factor (2 * 2 ^ k))
unfolding decode_extrinsic_era
decode_extrinsic_era-encode_era k q current h =
    rw (two_bytes (k + q * 16), low_bits k q h, high_bits k q h) refl

-- The era's bytes are indexed out of range exactly if there are fewer than two.
pub decode_extrinsic_era-none_iff :
    (bs : List ℕ) (current : ℕ) → (decode_extrinsic_era bs current ≡ none) ↔ (length bs < 2)
unfolding decode_extrinsic_era
decode_extrinsic_era-none_iff [] current = (λ e. omega arith, λ e. refl)
decode_extrinsic_era-none_iff (a ∷ []) current = (λ e. omega arith, λ e. refl)
decode_extrinsic_era-none_iff (a ∷ b ∷ bs) current =
    (λ e. absurd (none-ne-some (sym e)), λ e. absurd (omega arith))
