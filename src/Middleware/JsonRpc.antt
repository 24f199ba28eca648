-- ===== src/Middleware/JsonRpc.antt =====
-- pkg/middleware/jsonrpc.go: a payload is a batch, a frame or neither, and a batch is answered by
-- the answers of its frames. `next` is the rest of the chain of handlers, which leaves the body of
-- its last write; the JSON codec is a parameter. The frames of a batch are served concurrently; the
-- handlers do not share what `next` returns.
pub mod Batch
use substrate_rpc_proxy.Dto.{RpcFrame}
use substrate_rpc_proxy.Prelude.{
  ℕ, zero, suc, ◌+◌, String, Bool, List, [], ◌∷◌, map, Option, none, some, ltb, length,
  if◌then◌else◌,
}

-- The JSON codec: a text as a batch, as a frame, and a frame as a text.
pub record Codec : Type 0 where
  pub starts_with_bracket : String → Bool
  pub decode_batch : String → Option (List RpcFrame)
  pub decode_frame : String → Option RpcFrame
  pub encode_frame : RpcFrame → String
  pub encode_batch : List RpcFrame → String

pub data Payload : Type 0 where
  batch : List RpcFrame → Payload
  frame : RpcFrame → Payload
  unparsed : Payload

-- `writers[0]` of an empty batch panics.
pub data Outcome : Type 0 where
  responded : String → Outcome
  cancelled : Outcome
  panicked : Outcome

abbrev pub max_batch : ℕ
max_batch = 50

module _ (codec : Codec) where
  open codec use {starts_with_bracket, decode_batch, decode_frame, encode_frame, encode_batch}

  abbrev pub with_raw : RpcFrame → RpcFrame
  with_raw f = record f { raw = encode_frame f }

  -- The empty text has no bracket.
  unfoldable pub parse_payload : String → Payload
  parse_payload text =
      if starts_with_bracket text
      then elim (decode_batch text) [ none ↦ unparsed | some fs ↦ batch (map with_raw fs) ]
      else elim (decode_frame text) [ none ↦ unparsed | some f ↦ frame (record f { raw = text }) ]

  -- The loop of writeBatchResponse: the first body that is no frame ends it.
  unfoldable pub collect : List String → Option (List RpcFrame)
  collect [] = some []
  collect (b ∷ bs) = elim (decode_frame b) [
    | none ↦ none
    | some f ↦ elim (collect bs) [ none ↦ none | some fs ↦ some (f ∷ fs) ]
  ]

  unfoldable pub respond : List String → Option (List RpcFrame) → Outcome
  respond bodies none = cancelled
  respond [] (some fs) = panicked
  respond (b ∷ bs) (some fs) = responded (encode_batch fs)

  unfoldable pub write_batch_response : List String → Outcome
  unfolding collect respond
  write_batch_response bodies = respond bodies (collect bodies)

  -- splitBatchToSubrequests, and the handlers of the subrequests.
  unfoldable pub serve_batch : (RpcFrame → String) → List RpcFrame → Outcome
  unfolding write_batch_response
  serve_batch next fs =
      if ltb max_batch (length fs) then cancelled else write_batch_response (map next fs)

  -- The handler: `next` serves a frame in a context with its id and method, `next_raw` a request
  -- that has neither.
  unfoldable pub serve : (RpcFrame → String) → (String → String) → String → Outcome
  unfolding parse_payload serve_batch
  serve next next_raw text = elim (parse_payload text) [
    | batch fs ↦ serve_batch next fs
    | frame f ↦ responded (next f)
    | unparsed ↦ responded (next_raw text)
  ]
