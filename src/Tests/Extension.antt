-- ===== src/Tests/Extension.antt =====
-- The storage extension on a map with two keys.
use substrate_rpc_proxy.Decoder.Events.{other_value}
use substrate_rpc_proxy.Decoder.Hash.{do_hash}
use substrate_rpc_proxy.Decoder.Storage.{RuntimeModule, RuntimeMethod, map_type}
use substrate_rpc_proxy.Dto.{RpcFrame}
use substrate_rpc_proxy.Dto.Mapped.{str, arr, nil, cons}
use substrate_rpc_proxy.Prelude.{ℕ, ◌≡◌, refl, String, List, [], ◌∷◌, Option, some}
use substrate_rpc_proxy.Substrate.Extension.{Scale, serve}
use substrate_rpc_proxy.Substrate.Extension.Keys.{
  first_match, key_suffix, answered, serve-first_entry,
}
use substrate_rpc_proxy.Tests.Decoding.{digests}
use substrate_rpc_proxy.Tests.Nodes.{reply, one_node, empty_session}

-- Two modules, of which the first lacks the method.
abbrev timestamp : RuntimeModule
timestamp = record { name = "Timestamp"; storage = [] }

abbrev stakers : RuntimeMethod
stakers = record {
  name = "ErasStakers";
  kind = map_type "Exposure" ("U32" ∷ "AccountId" ∷ []) ("Twox64Concat" ∷ "Twox64Concat" ∷ []);
}

abbrev staking : RuntimeModule
staking = record { name = "Staking"; storage = stakers ∷ [] }

abbrev pub scale : Scale String
scale = record {
  digests = digests;
  fold = λ c. c;
  encode = λ t v. "00";
  hex_to_bytes = λ s. 0 ∷ [];
  bytes_to_hex = λ b. "00";
  process_events = λ s. other_value;
  process = λ s t. some s;
}

abbrev frame : RpcFrame
frame = record reply {
  rpc = "extensions/get-storage/1.0";
  method = "Staking.ErasStakers";
  params = arr (cons (str "1") (cons (str "0x0b") nil));
}

abbrev pub names : String → Option (String × String)
names s = some ("Staking", "ErasStakers")

abbrev key : List ℕ
key = do_hash digests (0 ∷ []) "Twox64Concat"

serve-first_entry_example :
    serve scale one_node names (timestamp ∷ staking ∷ []) (some frame) empty_session
    ≡ answered scale one_node names
        (timestamp ∷ staking ∷ [])
        "Staking"
        "ErasStakers"
        staking
        stakers
        "Exposure"
        key
        empty_session
unfolding first_match key_suffix
serve-first_entry_example =
    serve-first_entry scale one_node names (timestamp ∷ staking ∷ []) frame empty_session "Staking"
      "ErasStakers" staking stakers "Exposure" key refl refl refl refl
