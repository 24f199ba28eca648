-- ===== src/Tests/Decoding.antt =====
-- The decoder and the health check on concrete inputs.
use mathlib.Core.Option as Options
use substrate_rpc_proxy.Decoder.Era.{
  decode_extrinsic_era, encode_era, period_and_phase, quantize_factor,
  decode_extrinsic_era-encode_era,
}
use substrate_rpc_proxy.Decoder.Extrinsic.{
  panicked, byte_length, min_length, extrinsic_data, get_extrinsic_data_from,
  get_extrinsic_data_from-first,
}
use substrate_rpc_proxy.Decoder.Hash.{Digests}
use substrate_rpc_proxy.Decoder.Hex.{hex_only, texts}
use substrate_rpc_proxy.Dto.Mapped.{Items, str, arr, nil, cons, float64, codes}
use substrate_rpc_proxy.Endpoint.{healthy}
use substrate_rpc_proxy.Prelude.{
  ℕ, ◌+◌, ◌*◌, ◌^◌, ◌≤◌, ◌<◌, ◌≡◌, ◌≢◌, ◌⊎◌, ◌↔◌, refl, String, true, List, [], ◌∷◌, Option, some,
  length, leb, arith,
}
use substrate_rpc_proxy.Substrate.Healthcheck.{assess, assess-healthy_iff}

-- The period of 64 blocks, in the phase 42.
decode_extrinsic_era-encode_era_example :
    Options.map period_and_phase (decode_extrinsic_era (encode_era 5 42) 100)
    ≡ some (2 * 2 ^ 5, 42 * quantize_factor (2 * 2 ^ 5))
decode_extrinsic_era-encode_era_example = decode_extrinsic_era-encode_era 5 42 100 (omega arith)

abbrev payload : String
payload =
    "0x450284000000000000000000000000000000000000000000000000000000000000000000000000000000000000000000000000000000000000000000000000000000000000000000000000000000000000000000"

abbrev params : Items
params = cons (str "finalized") (cons (arr (cons (str payload) nil)) (cons (float64 3) nil))

only_payload : hex_only (texts (arr params)) ≡ payload ∷ []
unfolding hex_only texts
only_payload = refl

long : leb min_length (byte_length (codes payload)) ≡ true
unfolding byte_length
long = refl

abbrev decoded : String → Option (String × String)
decoded p = some ("0x0c", "e500")

abbrev era_bytes : String → List ℕ
era_bytes s = 229 ∷ 0 ∷ []

get_extrinsic_data_from-first_example :
    (get_extrinsic_data_from decoded era_bytes (arr params)
      ≡ extrinsic_data decoded era_bytes payload "0x0c" "e500")
    × ((extrinsic_data decoded era_bytes payload "0x0c" "e500" ≡ panicked)
        ↔ (length (era_bytes "e500") < 2))
get_extrinsic_data_from-first_example =
    get_extrinsic_data_from-first decoded era_bytes params [] [] payload "0x0c" "e500" only_payload
      tt long refl

abbrev pub digests : Digests
digests = record {
  xx_hash64 = λ seed data'. seed ∷ 1 ∷ 2 ∷ 3 ∷ 4 ∷ 5 ∷ 6 ∷ 7 ∷ [];
  blake2b_16 = λ data'. [];
  blake2b_32 = λ data'. [];
}

assess-healthy_iff_example : (assess 5 10 8 100 104 ≡ healthy) ↔ (
    (5 ≤ 8)
    × (◌≢◌ {A = ℕ} 104 0)
    × (((100 ≤ 104) × (104 ≤ 100 + 10)) ⊎ ((104 < 100) × (104 + 2 ^ 64 ≤ 100 + 10))))
assess-healthy_iff_example = assess-healthy_iff 5 10 8 100 104 (omega arith) (omega arith)
