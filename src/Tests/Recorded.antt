-- ===== src/Tests/Recorded.antt =====
-- The inspector over a node that fails first, websocket messages, and a line of the log.
use substrate_rpc_proxy.Consumer.{with_lifetime, process_round}
use substrate_rpc_proxy.Consumer.Overflow.{IsExpiry}
use substrate_rpc_proxy.Decoder.Extrinsic.{Extracted, extracted}
use substrate_rpc_proxy.Dto.{RpcFrame, ExtrinsicData}
use substrate_rpc_proxy.Dto.Mapped.{Value, empty}
use substrate_rpc_proxy.Prelude.{
  ℕ, zero, suc, ◌⊎◌, eq_iff, ◌+◌, ◌≡◌, ◌↔◌, inl, ltb, ◌&&◌, if◌then◌else◌, refl, String, Bool, true,
  false, List, [], ◌∷◌, Option, none, some, arith,
}
use substrate_rpc_proxy.Rpc.Client.Connections.{
  failed, ok, err, Network, Session, get_or_create_connection, store, connection_name,
}
use substrate_rpc_proxy.Rpc.Client.Calls.{chain_get_header, chain_get_block}
use substrate_rpc_proxy.Substrate.Inspector.{new_inspector, needs_inspection, message_of, log_to_db}
use substrate_rpc_proxy.Substrate.Inspector.Stored.{header_for, log_to_db-blind}
use substrate_rpc_proxy.Substrate.Inspector.{Inspector}
use substrate_rpc_proxy.Middleware.Deny.{denied_frame, equal_fold}
use substrate_rpc_proxy.Proxy.Pipeline.{
  Settings, denied, proxied, route, IsDenied, route-submission,
}
use substrate_rpc_proxy.Tests.Extension.{scale, names}
use substrate_rpc_proxy.Tests.Follow.{consumer, start}
use substrate_rpc_proxy.Tests.Nodes.{reply as answer, chain}
use substrate_rpc_proxy.Middleware.Websocket.{Counter, ClientContext, websocket}
use substrate_rpc_proxy.Middleware.Logger.{
  LogFields, get_field, text, line, silent, LogRequest, panicked, log_request_details,
}
use substrate_rpc_proxy.Middleware.Logger.Chain.{
  LoggerOption, log_with_params, log_with_ignore_methods, apply_options, new_frame_context,
  log_batch_frame, log_batch_frame-ignored,
}
use substrate_rpc_proxy.Middleware.Logger.Details.{HasNoMethod, log_request_details-panicked_iff}

-- The node fails in world 0 and answers in all others.
abbrev pub flaky : Network
flaky = record {
  World = ℕ;
  dial = λ w. (ok 3, w);
  close = λ ws w. w;
  ws_request = λ b f w. elim w [ zero ↦ (err (failed "EOF"), zero) | suc n ↦ (ok answer, suc n) ];
  parse_frame = λ msg. ok answer;
}

abbrev pub session_at : ℕ → Session ℕ
session_at w = record { cache = record { blocks = []; capacity = 4 }; connections = []; world = w }

abbrev pub submit : RpcFrame
submit = record answer { method = "author_submitExtrinsic" }

abbrev pub data_of : ExtrinsicData
data_of = record {
  payload = "0x0b";
  hash = "0x0c";
  era = "0x00";
  lifetime_in_blocks = 2;
  first_seen_block_no = 0;
}

abbrev decode : Value → Extracted
decode v = extracted data_of

abbrev methods : List String
methods = "author_submitExtrinsic" ∷ []

pub wanted : needs_inspection (λ c. c) methods "author_submitExtrinsic" ≡ true
unfolding needs_inspection
wanted = refl

-- Nothing is denied.
abbrev pub settings : Settings
settings = record {
  fold = λ c. c;
  deny_methods = "author_rotateKeys" ∷ [];
  inspect_extrinsics = true;
  inspect_methods = methods;
  extract = decode;
}

route-submission_example :
    let before : Inspector ℕ = new_inspector (session_at 1) in
    let after = route settings scale flaky names [] 100 (some submit) before in
    (IsDenied settings scale flaky names [] submit × (after ≡ (denied (denied_frame 1), before)))
    ⊎ ((IsDenied settings scale flaky names [] submit → ⊥)
        × (after.0 ≡ proxied)
        × (after.1.stored
            ≡ message_of flaky submit data_of
                (header_for flaky 100 before (chain_get_header flaky none "" before.session).0)
              ∷ [])
        × (after.1.counted ≡ 0 + 1))
route-submission_example =
    route-submission settings scale flaky names [] 100 submit data_of (new_inspector (session_at 1))
      refl wanted refl (λ e. cc ((eq_iff "2.0" "extensions/get-storage/1.0").1 e))

silent_node : (chain_get_header flaky none "" (session_at 0)).0 ≡ err (failed "EOF")
unfolding chain_get_header get_or_create_connection store connection_name
silent_node = refl

latest : (chain_get_block flaky none "" (session_at 1)).0 ≡ ok (chain "")
unfolding chain_get_block get_or_create_connection store connection_name
latest = refl

latest_number : (chain "").number ≡ 7
unfolding chain_get_block
latest_number = refl

short_lived :
    (with_lifetime (message_of flaky submit data_of empty)).extrinsic.lifetime_in_blocks ≡ 2
unfolding with_lifetime
short_lived = refl

log_to_db-blind_example :
    ((log_to_db flaky
        (λ c. c)
        methods
        decode
        100
        (some submit)
        (new_inspector (session_at 0))).1.stored
      ≡ message_of flaky submit data_of empty ∷ [])
    × IsExpiry flaky consumer
        (with_lifetime (message_of flaky submit data_of empty))
        (record start { session = session_at 1 })
        (chain "")
        (process_round flaky consumer
          (with_lifetime (message_of flaky submit data_of empty))
          (record start { session = session_at 1 }))
log_to_db-blind_example =
    log_to_db-blind flaky (λ c. c) methods decode 100 submit data_of (new_inspector (session_at 0))
      (failed "EOF") consumer (record start { session = session_at 1 }) (chain "") wanted refl refl
      silent_node latest (omega (arith, latest_number)) (omega (arith, latest_number, short_lived))

abbrev two_added : Counter
two_added = record { reqid = 2; numbers = [] }

-- A client with two messages.
abbrev read : ℕ → Option String × ℕ
read zero = (none, zero)
read (suc w) = (some "{}", w)

abbrev next : ClientContext → String → ℕ → Bool × ℕ
next ctx b w = (false, w)

abbrev client : ClientContext
client = record { id = "1"; connection_type = websocket }

-- A request whose payload did not parse.
abbrev unparsed : LogRequest
unparsed = record {
  log_fields = some [];
  with_params = some true;
  ignore_methods = some ("chain_getHeader" ∷ []);
  frame = none;
  rpc_method = "";
  rpc_request_id = 0;
  start_time = none;
  forwarded_host = "";
  remote_addr = "10.0.0.9:4000";
}

log_request_details-panicked_iff_example :
    (log_request_details (λ v. "") (λ n. "") (λ c. c) true unparsed 5 ≡ panicked) ↔ (
      (true ≡ true)
      × HasNoMethod unparsed
      × ((m : String) × (ms : List String) × (unparsed.ignore_methods ≡ some (m ∷ ms))))
log_request_details-panicked_iff_example =
    log_request_details-panicked_iff (λ v. "") (λ n. "") (λ c. c) true unparsed 5

-- A request before the Logger, and a batch's frame with a method to ignore.
abbrev plain_request : LogRequest
plain_request = record unparsed { with_params = none; ignore_methods = none }

abbrev options : List LoggerOption
options = log_with_params ∷ log_with_ignore_methods ("Author_SubmitExtrinsic" ∷ []) ∷ []

abbrev to_lower : ℕ → ℕ
to_lower c = if ltb 64 c && ltb c 91 then c + 32 else c

in_any_case : equal_fold to_lower "Author_SubmitExtrinsic" "author_submitExtrinsic" ≡ true
unfolding equal_fold
in_any_case = refl

with_options :
    (apply_options options (new_frame_context submit 3 [] plain_request)).ignore_methods
    ≡ some ("Author_SubmitExtrinsic" ∷ [])
unfolding apply_options new_frame_context
with_options = refl

log_batch_frame-ignored_example :
    let (wrapped, again) =
      log_batch_frame
        (λ v. "")
        (λ n. "")
        to_lower
        options
        (new_frame_context submit 3 [] plain_request)
        5
        5 in
    (wrapped ≡ silent)
    × ((shown : LogFields) × (again ≡ line shown)
        × (get_field "method" shown ≡ some (text "author_submitExtrinsic")))
log_batch_frame-ignored_example =
    log_batch_frame-ignored (λ v. "") (λ n. "") to_lower submit options plain_request
      ("Author_SubmitExtrinsic" ∷ []) [] 3 5 5 (λ e. cc) refl with_options (inl in_any_case)

log_panic-run : log_request_details (λ v. "") (λ n. "") (λ c. c) true unparsed 5 ≡ panicked
unfolding log_request_details
log_panic-run = refl
