-- ===== src/Dto.antt =====
-- pkg/dto/types.go: the frames of JSON-RPC, blocks, extrinsics and stored messages, over the
-- values that a JSON text decodes to. pkg/dto/mapped.go is Dto/Mapped.antt.
pub mod Mapped
use substrate_rpc_proxy.Dto.Mapped.{Value, Fields, obj, str, empty}
use substrate_rpc_proxy.Prelude.{ℕ, ℤ, String, Bool, List, Option}

pub record RpcError : Type 0 where
  pub code : ℤ
  pub message : String

-- `Error == nil` is `none`; `Params == nil` and `Result == nil` are `Value.null`.
pub record RpcFrame : Type 0 where
  pub id : ℕ
  pub rpc : String
  pub method : String
  pub raw : String
  pub params : Value
  pub result : Value
  pub error : Option RpcError

unfoldable pub mapped_result : RpcFrame → Fields
mapped_result f = elim (f.result) [ obj m ↦ m | _ ↦ empty ]

unfoldable pub string_result : RpcFrame → String
string_result f = elim (f.result) [ str s ↦ s | _ ↦ "" ]

pub record Block : Type 0 where
  pub raw : String
  pub number : ℕ
  pub parent_hash : String
  pub hash : String
  pub extrinsics : List String

pub record ExtrinsicData : Type 0 where
  pub payload : String
  pub hash : String
  pub era : String
  pub lifetime_in_blocks : ℕ
  pub first_seen_block_no : ℕ

pub record StoredMessage : Type 0 where
  pub rpc_frame : RpcFrame
  pub extrinsic : ExtrinsicData
  pub contains_extrinsic : Bool
