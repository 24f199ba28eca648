-- ===== src/Substrate/Extension.antt =====
-- GetStorageExtension of pkg/middleware-substrate/getstorage_json.go. The regular expression's match is
-- a parameter: the two groups, `none` without a match. The response is kept as the value that is
-- encoded as JSON.
pub mod Keys
use Prim.Native.String
use substrate_rpc_proxy.Decoder.Events.{Event, Processed, decode_events, decode_response}
use substrate_rpc_proxy.Decoder.Hash.{Digests}
use substrate_rpc_proxy.Decoder.Storage.{
  RuntimeModule, StorageRequest, Requested, requested, too_many_arguments, not_found,
  new_storage_request,
}
use substrate_rpc_proxy.Decoder.Storage as Storage
use substrate_rpc_proxy.Dto.{RpcFrame}
use substrate_rpc_proxy.Middleware.Deny.{equal_fold}
use substrate_rpc_proxy.Prelude.{
  ℕ, String, ◌&&◌, List, [], ◌∷◌, Option, none, some, str_eq, if◌then◌else◌,
}
use substrate_rpc_proxy.Dto.Mapped.{Value}
use substrate_rpc_proxy.Rpc.Client.Connections.{Failure, Result, ok, err, Network, Session}
use substrate_rpc_proxy.Rpc.Client.Calls.{state_get_storage}

-- What the SCALE library and the hash functions do; `process` is that of a value of a
-- type, `none` where it panics.
pub record Scale (P : Type 0) : Type 0 where
  pub digests : Digests
  pub fold : ℕ → ℕ
  pub encode : String → Value → String
  pub hex_to_bytes : String → List ℕ
  pub bytes_to_hex : List ℕ → String
  pub process_events : String → Processed P
  pub process : String → String → Option P

-- The requests for other handlers, the two error pages, and the two kinds of answer.
pub data Served (P : Type 0) : Type 0 where
  passed_on : Served P
  unable_to_parse : Served P
  no_such_method : Served P
  get_storage_error : Failure → Served P
  events : List (Event P) → Served P
  answer : Option P → Served P
  crashed : Served P

module _ {P : Type 0} (scale : Scale P) (net : Network)
    (find_submatch : String → Option (String × String)) (metadata : List RuntimeModule) where
  open net use {World}

  -- The response as it is written, for the names of the request.
  unfoldable pub respond : String → String → StorageRequest → Result String → Served P
  unfolding equal_fold decode_events decode_response
  respond module_name method q (err e) = get_storage_error e
  respond module_name method q (ok resp) =
      if equal_fold scale.fold module_name "system" && equal_fold scale.fold method "events"
      then events (decode_events (scale.process_events resp))
      else answer (decode_response scale.process q.stored_type resp)

  unfoldable pub after_request :
      String → String → Requested → Session World → Served P × Session World
  unfolding respond state_get_storage
  after_request module_name method (requested q) s =
      let (resp, s') =
        state_get_storage net none (String.◌++◌ "0x" (scale.bytes_to_hex q.storage_key)) "" s in
      (respond module_name method q resp, s')
  after_request module_name method too_many_arguments s = (no_such_method, s)
  after_request module_name method not_found s = (no_such_method, s)
  after_request module_name method Storage.panicked s = (crashed, s)

  -- The params of the frame are one argument.
  unfoldable pub get_storage : RpcFrame → Session World → Served P × Session World
  unfolding after_request new_storage_request
  get_storage frame s = elim (find_submatch frame.method) [
    | none ↦ (unable_to_parse, s)
    | some (module_name, method) ↦
        after_request module_name method
          (new_storage_request scale.digests scale.fold scale.encode scale.hex_to_bytes module_name
            method (frame.params ∷ []) metadata)
          s
  ]

  unfoldable pub serve : Option RpcFrame → Session World → Served P × Session World
  unfolding get_storage
  serve none s = (passed_on, s)
  serve (some frame) s =
      if str_eq frame.rpc "extensions/get-storage/1.0" then get_storage frame s else (passed_on, s)
