-- ===== src/Decoder/Hex.antt =====
-- ReadAllHexParams of pkg/decoder/decoder.go.
use substrate_rpc_proxy.Dto.Mapped.{Value, Items, str, arr, nil, cons, codes}
use substrate_rpc_proxy.Prelude.{
  ℕ, ◌≡◌, refl, String, Bool, false, List, [], ◌∷◌, ◌++◌, ◌==◌, ◌&&◌, if◌then◌else◌, arith,
}

-- strings.HasPrefix(s, "0x")
abbrev pub has_hex_prefix : List ℕ → Bool
has_hex_prefix (z ∷ x ∷ r) = (z == b'0') && (x == b'x')
has_hex_prefix _ = false

unfoldable mutual
  -- A value that is no slice has no parameters; the loop's `current` is what the items before gave.
  pub read_all_hex_params : Value → List String
  read_all_hex_params (arr ps) = read_items ps
  read_all_hex_params _ = []

  pub read_items : Items → List String
  read_items nil = []
  read_items (cons (str s) ps) =
      let rest = read_items ps in if has_hex_prefix (codes s) then s ∷ rest else rest
  read_items (cons p ps) = read_all_hex_params p ++ read_items ps

-- All texts of nested slices, in depth-first order.
unfoldable mutual
  pub texts : Value → List String
  texts (arr ps) = texts_of ps
  texts (str s) = s ∷ []
  texts _ = []

  pub texts_of : Items → List String
  texts_of nil = []
  texts_of (cons p ps) = texts p ++ texts_of ps

-- The texts that begin with 0x.
unfoldable pub hex_only : List String → List String
hex_only [] = []
hex_only (s ∷ ss) = let rest = hex_only ss in if has_hex_prefix (codes s) then s ∷ rest else rest

hex_only-append : (xs ys : List String) → hex_only (xs ++ ys) ≡ hex_only xs ++ hex_only ys
unfolding hex_only
hex_only-append [] ys = refl
hex_only-append (x ∷ xs) ys = ground (arith, hex_only-append xs ys)

-- The parameters read are the texts with prefix 0x in the slices, however deeply nested, in their
-- order and with repetitions.
pub read_all_hex_params-texts :
    (ps : Items) → read_all_hex_params (arr ps) ≡ hex_only (texts (arr ps))
unfolding read_all_hex_params texts hex_only
read_all_hex_params-texts nil = refl
read_all_hex_params-texts (cons (str s) ps) = ground (arith, read_all_hex_params-texts ps)
read_all_hex_params-texts (cons (arr qs) ps) =
    rw
      (
        hex_only-append (texts_of qs) (texts_of ps),
        read_all_hex_params-texts qs,
        read_all_hex_params-texts ps,
      )
      refl
read_all_hex_params-texts (cons p ps) = read_all_hex_params-texts ps
