-- ===== src/Substrate/Extension/Keys.antt =====
-- The storage keys that the extension asks for.
use Prim.Native.String
use mathlib.Core.List.{append-nil}
use substrate_rpc_proxy.Decoder.Hash.{do_hash}
use substrate_rpc_proxy.Decoder.Storage.{
  RuntimeMethod, RuntimeModule, StorageType, map_type, plain_type, other_type, StorageRequest,
  requested, request_of, argument_hashes, entries, first_entry, prefix,
  new_storage_request-first_entry,
}
use substrate_rpc_proxy.Dto.{RpcFrame}
use substrate_rpc_proxy.Dto.Mapped.{Value}
use substrate_rpc_proxy.Middleware.Deny.{equal_fold}
use substrate_rpc_proxy.Prelude.{
  ℕ, ◌≡◌, inl, inr, ◌∙◌, ap, String, true, ◌&&◌, List, [], ◌∷◌, ◌++◌, Option, none, some, some_inj,
  none-ne-some, str_eq, if◌then◌else◌, ltb, length, false, arith, eq_iff, Bool-cases,
}
use substrate_rpc_proxy.Rpc.Client.Calls.{state_get_storage}
use substrate_rpc_proxy.Rpc.Client.Connections.{Network, Session}
use substrate_rpc_proxy.Substrate.Extension.{
  Scale, Served, respond, after_request, get_storage, serve,
}

-- The first entry of the metadata with the two names, in any case.
unfoldable pub first_match :
    (ℕ → ℕ)
    → String
    → String
    → List (RuntimeModule × RuntimeMethod)
    → Option (RuntimeModule × RuntimeMethod)
unfolding equal_fold
first_match fold module_name method [] = none
first_match fold module_name method ((m, s) ∷ es) =
    let rest = first_match fold module_name method es in
    if equal_fold fold m.name module_name && equal_fold fold s.name method
    then some (m, s)
    else rest

enough_keys : (k : String) (ks : List String) → ltb (length (k ∷ ks)) 1 ≡ false
enough_keys k ks = ground arith

module _ {P : Type 0} (scale : Scale P) where
  -- The type of an entry and what its key has behind the prefix, where all params are the one key.
  unfoldable pub key_suffix : StorageType → Value → Option (String × List ℕ)
  key_suffix (map_type t (k ∷ ks) (h ∷ hs)) params =
      some (t, do_hash scale.digests (scale.hex_to_bytes (scale.encode k params)) h)
  key_suffix (plain_type t) params = some (t, [])
  key_suffix other_type params = some ("", [])
  key_suffix _ params = none

  abbrev pub entry_request : RuntimeModule → RuntimeMethod → String → List ℕ → StorageRequest
  entry_request m s t suffix = record {
    module_name = m.name;
    method_name = s.name;
    storage_key =
        prefix scale.digests scale.fold scale.encode scale.hex_to_bytes m.name s.name ++ suffix;
    stored_type = t;
  }

  request_of-key_suffix :
      (m : RuntimeModule) (s : RuntimeMethod) (kind : StorageType) (params : Value) (t : String)
      (suffix : List ℕ)
      → key_suffix kind params ≡ some (t, suffix)
      → request_of scale.digests scale.fold scale.encode scale.hex_to_bytes m s kind (params ∷ [])
        ≡ requested (entry_request m s t suffix)
  unfolding key_suffix request_of argument_hashes
  request_of-key_suffix m s (map_type v (k ∷ ks) (h ∷ hs)) params t suffix e =
      let hash = do_hash scale.digests (scale.hex_to_bytes (scale.encode k params)) h in
      rw (enough_keys k ks) (
        ap (λ r. requested (entry_request m s v r)) (append-nil hash)
        ∙ ap (λ q. requested (entry_request m s q.0 q.1)) (some_inj e))
  request_of-key_suffix m s (plain_type v) params t suffix e =
      ap (λ q. requested (entry_request m s q.0 q.1)) (some_inj e)
  request_of-key_suffix m s other_type params t suffix e =
      ap (λ q. requested (entry_request m s q.0 q.1)) (some_inj e)
  request_of-key_suffix m s (map_type v [] hs) params t suffix e = absurd (none-ne-some e)
  request_of-key_suffix m s (map_type v (k ∷ ks) []) params t suffix e = absurd (none-ne-some e)

  first_entry-first_match :
      (module_name method : String) (params : Value) (es : List (RuntimeModule × RuntimeMethod))
      (m : RuntimeModule) (s : RuntimeMethod)
      → first_match scale.fold module_name method es ≡ some (m, s)
      → first_entry scale.digests scale.fold scale.encode scale.hex_to_bytes module_name method
          (params ∷ [])
          es
        ≡ request_of scale.digests scale.fold scale.encode scale.hex_to_bytes m s s.kind
            (params ∷ [])
  unfolding first_match first_entry
  first_entry-first_match module_name method params [] m s e = absurd (none-ne-some e)
  first_entry-first_match module_name method params ((n, t) ∷ es) m s e =
      elim (Bool-cases
        (equal_fold scale.fold n.name module_name && equal_fold scale.fold t.name method)) [
          | inl y ↦
              rw (first_entry, y)
                (ap
                  (λ q.
                    request_of scale.digests scale.fold scale.encode scale.hex_to_bytes q.0 q.1
                      q.1.kind (params ∷ []))
                  (some_inj (rw (first_match, y) at e)))
          | inr n' ↦
              rw (first_entry, n')
                (first_entry-first_match module_name method params es m s
                  (rw (first_match, n') at e))
        ]

  module _ (net : Network) (find_submatch : String → Option (String × String))
      (metadata : List RuntimeModule) where
    open net use {World}

    -- What is answered once the node's storage is read at the entry's prefix and that suffix.
    abbrev pub answered :
        String
        → String
        → RuntimeModule
        → RuntimeMethod
        → String
        → List ℕ
        → Session World
        → Served P × Session World
    answered module_name method m s t suffix session =
        let q = entry_request m s t suffix in
        let (resp, after) =
          state_get_storage net none (String.◌++◌ "0x" (scale.bytes_to_hex q.storage_key)) ""
            session in
        (respond scale net find_submatch metadata module_name method q resp, after)

    -- A get-storage request whose method names an entry of the metadata is answered with what the node
    -- has under the key of the first entry with these names, in any case; the key of a plain entry is
    -- its prefix, and behind that of a map stands the hash of the whole params as the first key, and
    -- of no other key.
    pub serve-first_entry :
        (frame : RpcFrame) (session : Session World) (module_name method : String)
        (m : RuntimeModule) (s : RuntimeMethod) (t : String) (suffix : List ℕ)
        → frame.rpc ≡ "extensions/get-storage/1.0"
        → find_submatch frame.method ≡ some (module_name, method)
        → first_match scale.fold module_name method
            (entries scale.digests scale.fold scale.encode scale.hex_to_bytes metadata)
          ≡ some (m, s)
        → key_suffix s.kind frame.params ≡ some (t, suffix)
        → serve scale net find_submatch metadata (some frame) session
          ≡ answered module_name method m s t suffix session
    unfolding serve get_storage after_request
    serve-first_entry frame session module_name method m s t suffix ext parsed first key =
        let is_ext : str_eq frame.rpc "extensions/get-storage/1.0" ≡ true =
          (eq_iff frame.rpc "extensions/get-storage/1.0").1 ext in
        let request =
          new_storage_request-first_entry scale.digests scale.fold scale.encode scale.hex_to_bytes
            module_name method (frame.params ∷ []) metadata
          ∙ first_entry-first_match module_name method frame.params
              (entries scale.digests scale.fold scale.encode scale.hex_to_bytes metadata) m s first
          ∙ request_of-key_suffix m s s.kind frame.params t suffix key in
        rw (serve, is_ext, get_storage, parsed, request)
