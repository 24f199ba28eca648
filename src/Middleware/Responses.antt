-- ===== src/Middleware/Responses.antt =====
-- The error pages and WithNewBody of pkg/middleware/types.go, the writer of
-- pkg/middleware/inmemorywriter.go, and what JsonRPC of pkg/middleware/jsonrpc.go does to a request
-- before it reads the body, to the requests of a batch, and to the headers of its answer. `decimal` is
-- the printed form of a number, and the JSON codec is that of Middleware/JsonRpc.antt.
use substrate_rpc_proxy.Dto.{RpcFrame}
use substrate_rpc_proxy.Middleware.Headers.{Header, values, set_value, copy_header}
use substrate_rpc_proxy.Middleware.JsonRpc.{Codec, max_batch}
use substrate_rpc_proxy.Prelude.{
  ℕ, ◌≡◌, refl, String, ◌||◌, List, [], ◌∷◌, map, Option, none, some, ltb, length, str_eq,
  if◌then◌else◌,
}

pub record ErrorResponse : Type 0 where
  pub http_status_code : ℕ
  pub status_text : String
  pub error_text : String

abbrev pub error_invalid_request : String → ErrorResponse
error_invalid_request e = record {
  http_status_code = 400;
  status_text = "Invalid request";
  error_text = e;
}

abbrev pub error_internal_server : String → ErrorResponse
error_internal_server e = record {
  http_status_code = 500;
  status_text = "Internal server error";
  error_text = e;
}

abbrev pub error_bad_gateway : String → ErrorResponse
error_bad_gateway e = record { http_status_code = 502; status_text = "Bad gateway"; error_text = e }

-- The part of a request that these functions look at; the length is none for -1.
pub record Request : Type 0 where
  pub method : String
  pub header : Header
  pub body : String
  pub content_length : Option ℕ

-- The clone, and the request itself, which gets the body as well.
abbrev pub with_new_body : Request → String → Request × Request
with_new_body r b = (record r { body = b }, record r { body = b })

unfoldable pub force_method : String → String
force_method method = if str_eq method "GET" || str_eq method "OPTIONS" then "POST" else method

unfoldable pub force_json : Request → Request
unfolding force_method
force_json r = record r {
  method = force_method r.method;
  header =
      set_value "Accept" "application/json" (set_value "Content-Type" "application/json" r.header);
}

-- InMemoryWriter: each Write replaces what was written before.
pub record InMemoryWriter : Type 0 where
  pub buf : String
  pub status : ℕ
  pub header : Header

abbrev pub new_in_memory_writer : InMemoryWriter
new_in_memory_writer = record { buf = ""; status = 0; header = [] }

unfoldable pub write : String → InMemoryWriter → InMemoryWriter
write b w = record w { buf = b }

unfoldable pub write_header : ℕ → InMemoryWriter → InMemoryWriter
write_header code w = record w { status = code }

module _ (codec : Codec) (decimal : ℕ → String) where
  -- One request for each frame: its text encoded anew, and no length.
  abbrev subrequest : Request → RpcFrame → Request
  subrequest r f = record r { body = codec.encode_frame f; content_length = none }

  unfoldable pub split_batch_to_subrequests : Request → List RpcFrame → Option (List Request)
  split_batch_to_subrequests r batch =
      if ltb max_batch (length batch) then none else some (map (subrequest r) batch)

  -- The headers of the answer to a batch, whose length in bytes is known: those of the first writer.
  unfoldable pub batch_header : Header → List InMemoryWriter → ℕ → Option Header
  unfolding copy_header
  batch_header dst [] size = none
  batch_header dst (w ∷ ws) size =
      some (set_value "Content-Length" (decimal size) (copy_header dst w.header))

  -- The lengths that the answers of the frames state are not those of the batch's answer.
  pub batch_header-content_length :
      (dst : Header) (w : InMemoryWriter) (ws : List InMemoryWriter) (size : ℕ)
      → (h : Header) × (batch_header dst (w ∷ ws) size ≡ some h)
        × (values "Content-Length" h ≡ decimal size ∷ [])
  unfolding batch_header values
  batch_header-content_length dst w ws size =
      (set_value "Content-Length" (decimal size) (copy_header dst w.header), refl, refl)
