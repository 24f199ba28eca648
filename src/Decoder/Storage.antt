-- ===== src/Decoder/Storage.antt =====
-- NewStorageRequest of pkg/decoder/decoder.go, over the metadata that the SCALE library decoded. The
-- library's encoder, the conversions from and to hexadecimal, the hash functions, and the case
-- folding of strings.EqualFold are parameters.
use substrate_rpc_proxy.Decoder.Hash.{Digests, twox_hash, do_hash}
use substrate_rpc_proxy.Dto.Mapped.{Value, codes}
use substrate_rpc_proxy.Middleware.Deny.{equal_fold}
use substrate_rpc_proxy.Prelude.{
  ℕ, ◌+◌, ◌/◌, ◌%◌, ◌≡◌, inl, inr, refl, sym, String, true, false, ◌&&◌, List, [], ◌∷◌, ◌++◌,
  Option, none, some, ltb, length, if◌then◌else◌, Bool-cases,
}

-- `origin` other than Map and PlainType leaves the type empty.
pub data StorageType : Type 0 where
  map_type : String → List String → List String → StorageType
  plain_type : String → StorageType
  other_type : StorageType

pub record RuntimeMethod : Type 0 where
  pub name : String
  pub kind : StorageType

pub record RuntimeModule : Type 0 where
  pub name : String
  pub storage : List RuntimeMethod

-- `storage_key` is the key before its conversion to hexadecimal.
pub record StorageRequest : Type 0 where
  pub module_name : String
  pub method_name : String
  pub storage_key : List ℕ
  pub stored_type : String

-- A hasher that is missing is an index out of range.
pub data Requested : Type 0 where
  requested : StorageRequest → Requested
  too_many_arguments : Requested
  not_found : Requested
  panicked : Requested

-- The bytes of a text.
abbrev pub utf8 : ℕ → List ℕ
utf8 c =
    if ltb c 128
    then c ∷ []
    else (if ltb c 2048
        then (192 + c / 64) ∷ (128 + c % 64) ∷ []
        else (if ltb c 65536
            then (224 + c / 4096) ∷ (128 + c / 64 % 64) ∷ (128 + c % 64) ∷ []
            else (240 + c / 262144)
              ∷ (128 + c / 4096 % 64)
              ∷ (128 + c / 64 % 64)
              ∷ (128 + c % 64)
              ∷ []))

abbrev pub bytes_of : List ℕ → List ℕ
bytes_of [] = []
bytes_of (c ∷ cs) = utf8 c ++ bytes_of cs

module _ (digests : Digests) (fold : ℕ → ℕ) (encode : String → Value → String)
    (hex_to_bytes : String → List ℕ) where
  -- The loop over the arguments: what it appends to the key.
  unfoldable pub argument_hashes : List String → List String → List Value → Option (List ℕ)
  unfolding do_hash
  argument_hashes keys hashers [] = some []
  argument_hashes [] hashers (a ∷ as') = none
  argument_hashes (k ∷ ks) [] (a ∷ as') = none
  argument_hashes (k ∷ ks) (h ∷ hs) (a ∷ as') = elim (argument_hashes ks hs as') [
    | none ↦ none
    | some rest ↦ some (do_hash digests (hex_to_bytes (encode k a)) h ++ rest)
  ]

  abbrev pub prefix : String → String → List ℕ
  prefix m s =
      twox_hash digests (bytes_of (codes m)) 128 ++ twox_hash digests (bytes_of (codes s)) 128

  abbrev pub request_for : RuntimeModule → RuntimeMethod → String → List ℕ → Requested
  request_for m s stored_type suffix = requested (record {
    module_name = m.name;
    method_name = s.name;
    storage_key = prefix m.name s.name ++ suffix;
    stored_type = stored_type;
  })

  abbrev pub with_hashes : RuntimeModule → RuntimeMethod → String → Option (List ℕ) → Requested
  with_hashes m s stored_type none = panicked
  with_hashes m s stored_type (some hashes) = request_for m s stored_type hashes

  unfoldable pub request_of : RuntimeModule → RuntimeMethod → StorageType → List Value → Requested
  unfolding argument_hashes
  request_of m s (map_type value keys hashers) args =
      if ltb (length keys) (length args)
      then too_many_arguments
      else with_hashes m s value (argument_hashes keys hashers args)
  request_of m s (plain_type t) args = request_for m s t []
  request_of m s other_type args = request_for m s "" []

  -- The inner loop; the methods of a module that lacks the name are followed by the other modules.
  unfoldable pub search_methods :
      RuntimeModule → String → List Value → Requested → List RuntimeMethod → Requested
  unfolding request_of
  search_methods m method args rest [] = rest
  search_methods m method args rest (s ∷ ss) =
      let more = search_methods m method args rest ss in
      if equal_fold fold s.name method then request_of m s s.kind args else more

  unfoldable pub new_storage_request : String → String → List Value → List RuntimeModule → Requested
  unfolding search_methods
  new_storage_request module_name method args [] = not_found
  new_storage_request module_name method args (m ∷ ms) =
      let rest = new_storage_request module_name method args ms in
      if equal_fold fold m.name module_name
      then search_methods m method args rest m.storage
      else rest

  -- All methods with their modules, in the order of the metadata.
  abbrev pub of_module : RuntimeModule → List RuntimeMethod → List (RuntimeModule × RuntimeMethod)
  of_module m [] = []
  of_module m (s ∷ ss) = (m, s) ∷ of_module m ss

  abbrev pub entries : List RuntimeModule → List (RuntimeModule × RuntimeMethod)
  entries [] = []
  entries (m ∷ ms) = of_module m m.storage ++ entries ms

  -- The request for the first entry whose two names are the given ones, in any case.
  unfoldable pub first_entry :
      String → String → List Value → List (RuntimeModule × RuntimeMethod) → Requested
  unfolding request_of
  first_entry module_name method args [] = not_found
  first_entry module_name method args ((m, s) ∷ r) =
      let rest = first_entry module_name method args r in
      if equal_fold fold m.name module_name && equal_fold fold s.name method
      then request_of m s s.kind args
      else rest

  search_methods-first_entry :
      (module_name method : String) (args : List Value) (m : RuntimeModule)
      (ss : List RuntimeMethod) (r : List (RuntimeModule × RuntimeMethod))
      → equal_fold fold m.name module_name ≡ true
      → search_methods m method args (first_entry module_name method args r) ss
        ≡ first_entry module_name method args (of_module m ss ++ r)
  unfolding search_methods first_entry
  search_methods-first_entry module_name method args m [] r h = refl
  search_methods-first_entry module_name method args m (s ∷ ss) r h =
      rw
        (
          h,
          first_entry,
          search_methods,
          search_methods-first_entry module_name method args m ss r h,
        )
        refl

  other_module :
      (module_name method : String) (args : List Value) (m : RuntimeModule)
      (ss : List RuntimeMethod) (r : List (RuntimeModule × RuntimeMethod))
      → equal_fold fold m.name module_name ≡ false
      → first_entry module_name method args (of_module m ss ++ r)
        ≡ first_entry module_name method args r
  unfolding first_entry
  other_module module_name method args m [] r h = refl
  other_module module_name method args m (s ∷ ss) r h =
      rw (h, first_entry) (other_module module_name method args m ss r h)

  -- The request is that for the first method of the metadata whose module's name and own name are
  -- the given ones, in any case; a module that lacks the method does not end the search.
  pub new_storage_request-first_entry :
      (module_name method : String) (args : List Value) (ms : List RuntimeModule)
      → new_storage_request module_name method args ms
        ≡ first_entry module_name method args (entries ms)
  unfolding new_storage_request first_entry
  new_storage_request-first_entry module_name method args [] = refl
  new_storage_request-first_entry module_name method args (m ∷ ms) =
      let rest = new_storage_request-first_entry module_name method args ms in
      elim (Bool-cases (equal_fold fold m.name module_name)) [
        | inl h ↦
            rw (h, new_storage_request, rest)
              (search_methods-first_entry module_name method args m m.storage (entries ms) h)
        | inr h ↦
            rw (h, new_storage_request, rest)
              (sym (other_module module_name method args m m.storage (entries ms) h))
      ]
