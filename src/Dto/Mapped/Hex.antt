-- ===== src/Dto/Mapped/Hex.antt =====
-- The hexadecimal numbers of a substrate node, as MustInt reads them.
use substrate_rpc_proxy.Dto.Mapped.{
  Fields, str, codes, index, max_uint64, hex_digit, parse_digits, parse_uint16, must_int_text,
  must_int,
}
use substrate_rpc_proxy.Prelude.{
  ℕ, ◌+◌, ◌*◌, ◌≤◌, ◌<◌, min, ◌≡◌, String, List, [], ◌∷◌, map, some, arith, ltb, leb, if◌then◌else◌,
  All, inl, inr, Bool-cases,
}

-- How a node writes a digit, in lower case.
abbrev pub digit_code : ℕ → ℕ
digit_code d = if ltb d 10 then b'0' + d else 87 + d

-- The number that a list of digits stands for, in base 16, most significant first.
abbrev pub number_of : ℕ → List ℕ → ℕ
number_of n [] = n
number_of n (d ∷ ds) = number_of (n * 16 + d) ds

abbrev pub IsDigit : ℕ → Type 0
IsDigit d = d < 16

hex_digit-digit_code : (d : ℕ) → IsDigit d → hex_digit (digit_code d) ≡ some d
unfolding hex_digit
hex_digit-digit_code d h = ground arith

number_of-ge : (n : ℕ) (ds : List ℕ) → n ≤ number_of n ds
number_of-ge n [] = omega arith
number_of-ge n (d ∷ ds) = omega (arith, number_of-ge (n * 16 + d) ds)

parse_digits-map :
    (n : ℕ) (ds : List ℕ)
    → n ≤ max_uint64
    → All IsDigit ds
    → parse_digits n (map digit_code ds) ≡ min (number_of n ds) max_uint64
unfolding parse_digits
parse_digits-map n [] h _ = omega arith
parse_digits-map n (d ∷ ds) h (p, ps) =
    rw (hex_digit-digit_code d p, parse_digits)
      (elim (Bool-cases (leb (n * 16 + d) max_uint64)) [
        | inl small ↦ rw (small, parse_digits) (parse_digits-map (n * 16 + d) ds (ground arith) ps)
        | inr large ↦ rw (large, parse_digits) (ground (arith, number_of-ge (n * 16 + d) ds))
      ])

-- A field whose text is `0x` and at least one hexadecimal digit is read as the number that the
-- digits stand for, and as the largest uint64 where that does not fit in 64 bits.
pub must_int-hex :
    (key : String) (r : Fields) (s : String) (d : ℕ) (ds : List ℕ)
    → index key r ≡ str s
    → codes s ≡ b'0' ∷ b'x' ∷ map digit_code (d ∷ ds)
    → All IsDigit (d ∷ ds)
    → must_int key r ≡ min (number_of 0 (d ∷ ds)) max_uint64
unfolding must_int must_int_text parse_uint16
must_int-hex key r s d ds found text digits =
    rw (found, must_int) (rw text (parse_digits-map 0 (d ∷ ds) (omega arith) digits))
