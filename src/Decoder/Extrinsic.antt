-- ===== src/Decoder/Extrinsic.antt =====
-- GetExtrinsicDataFrom of pkg/decoder/decoder.go. The extrinsic decoder of the SCALE library, run
-- under recover, gives the hash and the era of an extrinsic, or nothing where it panics; HexToBytes
-- gives the bytes of a text. Both are parameters.
use substrate_rpc_proxy.Dto.{ExtrinsicData}
use substrate_rpc_proxy.Dto.Mapped.{Value, Items, arr, null, codes}
use substrate_rpc_proxy.Decoder.Era.{decode_extrinsic_era, decode_extrinsic_era-none_iff}
use substrate_rpc_proxy.Decoder.Hex.{
  read_all_hex_params, hex_only, texts, read_all_hex_params-texts,
}
use substrate_rpc_proxy.Prelude.{
  Option-cases, none-ne-some, sym, ◌∙◌, true, length, ◌<◌, ◌↔◌, ℕ, ◌+◌, ◌≡◌, ◌⊎◌, inl, inr, refl,
  String, false, List, [], ◌∷◌, ◌++◌, Option, none, some, leb, ltb, if◌then◌else◌, All, arith,
}

-- The bytes of a code point in UTF-8, and `len` of a text.
abbrev pub width : ℕ → ℕ
width c = if ltb c 128 then 1 else (if ltb c 2048 then 2 else (if ltb c 65536 then 3 else 4))

unfoldable pub byte_length : List ℕ → ℕ
byte_length [] = 0
byte_length (c ∷ cs) = width c + byte_length cs

-- DecodeExtrinsicEra is called outside the function that recovers: its index panic is the caller's.
pub data Extracted : Type 0 where
  nothing : Extracted
  extracted : ExtrinsicData → Extracted
  panicked : Extracted

abbrev pub min_length : ℕ
min_length = 160

module _ (decode : String → Option (String × String)) (hex_to_bytes : String → List ℕ) where
  unfoldable pub extrinsic_data : String → String → String → Extracted
  extrinsic_data p hash era = elim (decode_extrinsic_era (hex_to_bytes era) 0) [
    | none ↦ panicked
    | some e ↦ extracted (record {
      payload = p;
      hash = hash;
      era = era;
      lifetime_in_blocks = e.period;
      first_seen_block_no = 0;
    })
  ]

  unfoldable pub first_extrinsic : List String → Extracted
  unfolding byte_length
  first_extrinsic [] = nothing
  first_extrinsic (p ∷ ps) =
      let rest = first_extrinsic ps in
      if leb min_length (byte_length (codes p))
      then elim (decode p) [ none ↦ rest | some (hash, era) ↦ extrinsic_data p hash era ]
      else rest

  unfoldable pub get_extrinsic_data_from : Value → Extracted
  unfolding first_extrinsic
  get_extrinsic_data_from null = nothing
  get_extrinsic_data_from params = first_extrinsic (read_all_hex_params params)

  -- Too short to be an extrinsic, or not decoded as one.
  abbrev pub IsPassedOver : String → Type 0
  IsPassedOver p = (leb min_length (byte_length (codes p)) ≡ false) ⊎ (decode p ≡ none)

  passed_over :
      (p : String) (ps : List String)
      → IsPassedOver p
      → first_extrinsic (p ∷ ps) ≡ first_extrinsic ps
  unfolding first_extrinsic
  passed_over p ps (inl short) = rw short refl
  passed_over p ps (inr fails) = ground (arith, fails)

  first_extrinsic-nothing : (ps : List String) → All IsPassedOver ps → first_extrinsic ps ≡ nothing
  unfolding first_extrinsic
  first_extrinsic-nothing [] _ = refl
  first_extrinsic-nothing (p ∷ ps) (h, hs) = rw (passed_over p ps h) (first_extrinsic-nothing ps hs)

  first_extrinsic-append :
      (before after : List String)
      → All IsPassedOver before
      → first_extrinsic (before ++ after) ≡ first_extrinsic after
  first_extrinsic-append [] after _ = refl
  first_extrinsic-append (p ∷ ps) after (h, hs) =
      rw (passed_over p (ps ++ after) h) (first_extrinsic-append ps after hs)

  extracted-ne-panicked : (d : ExtrinsicData) → extracted d ≡ panicked → ⊥
  extracted-ne-panicked d e = cc

  extrinsic_data-panicked_iff :
      (p hash era : String)
      → (extrinsic_data p hash era ≡ panicked) ↔ (length (hex_to_bytes era) < 2)
  unfolding extrinsic_data
  extrinsic_data-panicked_iff p hash era =
      let short = decode_extrinsic_era-none_iff (hex_to_bytes era) 0 in
      elim (Option-cases (decode_extrinsic_era (hex_to_bytes era) 0)) [
        | inl e ↦ (λ q. short.0 e, λ q. rw (e, extrinsic_data) refl)
        | inr (r, e) ↦ (
          λ q. absurd (extracted-ne-panicked _ (rw (e, extrinsic_data) at q)),
          λ q. absurd (none-ne-some (sym (short.1 q) ∙ e)),
        )
      ]

  -- What is extracted from a list of parameters is decided by the first of their texts with prefix
  -- 0x, nested or not, that has at least 160 bytes and is decoded: its text, hash and era, and the
  -- period of the era; or a panic, if the era has fewer than two bytes.
  pub get_extrinsic_data_from-first :
      (params : Items) (before after : List String) (p hash era : String)
      → hex_only (texts (arr params)) ≡ before ++ p ∷ after
      → All IsPassedOver before
      → leb min_length (byte_length (codes p)) ≡ true
      → decode p ≡ some (hash, era)
      → (get_extrinsic_data_from (arr params) ≡ extrinsic_data p hash era)
        × ((extrinsic_data p hash era ≡ panicked) ↔ (length (hex_to_bytes era) < 2))
  unfolding get_extrinsic_data_from first_extrinsic
  get_extrinsic_data_from-first params before after p hash era split over long decoded = (
    rw
        (
          read_all_hex_params-texts params,
          split,
          first_extrinsic-append before (p ∷ after) over,
          long,
          decoded,
        )
        refl,
    extrinsic_data-panicked_iff p hash era,
  )

  -- Nothing is extracted if all those texts are too short or are not decoded.
  pub get_extrinsic_data_from-nothing :
      (params : Items)
      → All IsPassedOver (hex_only (texts (arr params)))
      → get_extrinsic_data_from (arr params) ≡ nothing
  unfolding get_extrinsic_data_from
  get_extrinsic_data_from-nothing params over =
      rw (read_all_hex_params-texts params)
        (first_extrinsic-nothing (hex_only (texts (arr params))) over)
