-- ===== src/Tests/Entered.antt =====
-- A codec that writes a frame as the digits of its id in unary behind an `f`, and payloads for it.
use Prim.Native.Char.{code}
use Prim.Native.String
use Prim.Native.String.{count}
use Prim.Native.String.append
use Prim.Native.String.count as count_laws
use mathlib.Core.Bool.{true≢false}
use substrate_rpc_proxy.Decoder.Extrinsic.{Extracted}
use substrate_rpc_proxy.Decoder.Extrinsic as Extrinsic
use substrate_rpc_proxy.Dto.{RpcFrame}
use substrate_rpc_proxy.Middleware.Deny.{denied_frame, equal_fold}
use substrate_rpc_proxy.Middleware.JsonRpc.{
  Codec, with_raw, batch, unparsed, Outcome, responded, parse_payload,
}
use substrate_rpc_proxy.Prelude.{
  ℕ, zero, suc, ◌≡◌, refl, sym, ◌∙◌, ap, inl, inr, String, true, false, [], ◌∷◌, Option, none, some,
  str_eq, ◌==◌, if◌then◌else◌, arith,
}
use substrate_rpc_proxy.Proxy.Entry.{Turn, Ends, Logging, entry, turn_of, logged_of}
use substrate_rpc_proxy.Middleware.Logger.Chain.{log_with_params, apply_options}
use substrate_rpc_proxy.Proxy.Entry.Answers.{IsBlind, entry-unparsed, entry-batch}
use substrate_rpc_proxy.Middleware.Websocket.{ClientContext, websocket}
use substrate_rpc_proxy.Proxy.Session.{Client, session, outcome, answers_of, session-answered}
use substrate_rpc_proxy.Proxy.Pipeline.{Settings}
use substrate_rpc_proxy.Substrate.Extension.{Served}
use substrate_rpc_proxy.Substrate.Inspector.{new_inspector}
use substrate_rpc_proxy.Tests.Extension.{scale, names}
use substrate_rpc_proxy.Tests.Recorded.{flaky, session_at}

abbrev ones : ℕ → String
ones zero = ""
ones (suc n) = String.◌++◌ "1" (ones n)

abbrev decode_ones : String → Option RpcFrame
decode_ones String.[] = none
decode_ones (String.◌∷◌ c s) = if code c == b'f' then some (denied_frame (count s)) else none

-- The frame with id 1 is denied.
abbrev unsafe_frame : RpcFrame
unsafe_frame = record (denied_frame 1) { method = "author_rotateKeys" }

abbrev safe_frame : RpcFrame
safe_frame = record (denied_frame 2) { method = "chain_getHeader" }

abbrev codec : Codec
codec = record {
  starts_with_bracket = λ t. str_eq t "[f1,f11]";
  decode_batch = λ t. some (unsafe_frame ∷ safe_frame ∷ []);
  decode_frame = decode_ones;
  encode_frame = λ f. String.◌++◌ "f" (ones f.id);
  encode_batch = λ fs. "[f1,f111]";
}

count-ones : (n : ℕ) → count (ones n) ≡ n
count-ones zero = refl
count-ones (suc n) = rw (append.cons, append.nil, count_laws.cons) (ap suc (count-ones n))

decodes :
    (id : ℕ) → codec.decode_frame (codec.encode_frame (denied_frame id)) ≡ some (denied_frame id)
decodes id = rw (append.cons, append.nil) (ap (λ n. some (denied_frame n)) (count-ones id))

-- An HTTP client, and a node that answers to everything with a frame of id 3.
abbrev ends : Ends
ends = record {
  websocket = false;
  refusal = "Server capacity exceeded.";
  exchange = λ body. some "f111";
}

-- The parameters are logged, and no methods are ignored.
abbrev log : Logging
log = record {
  show = λ v. "";
  show_duration = λ n. "";
  fold = λ c. c;
  options = log_with_params ∷ [];
  request = record {
    log_fields = none;
    with_params = none;
    ignore_methods = none;
    frame = none;
    rpc_method = "";
    rpc_request_id = 0;
    start_time = none;
    forwarded_host = "";
    remote_addr = "10.0.0.9:4000";
  };
  fields = λ f. [];
  start = 100;
  now = 101;
  later = 102;
}

sees : IsBlind log → ⊥
unfolding apply_options
sees h = cc h.1.2

abbrev settings : Settings
settings = record {
  fold = λ c. c;
  deny_methods = "author_rotateKeys" ∷ [];
  inspect_extrinsics = true;
  inspect_methods = [];
  extract = λ v. Extrinsic.nothing;
}

abbrev turn : Option RpcFrame → Turn String
turn =
    turn_of settings scale flaky names [] (λ f. false) (λ f. 100)
      (λ f. new_inspector (session_at 1))

abbrev write : Served String → String
write s = "null"

behind_blank : parse_payload codec " [f1,f11]" ≡ unparsed
unfolding parse_payload
behind_blank = refl

in_brackets :
    parse_payload codec "[f1,f11]"
    ≡ batch (with_raw codec unsafe_frame ∷ with_raw codec safe_frame ∷ [])
unfolding parse_payload
in_brackets = refl

unsafe : equal_fold (λ c. c) "author_rotateKeys" "author_rotateKeys" ≡ true
unfolding equal_fold
unsafe = refl

safe : equal_fold (λ c. c) "author_rotateKeys" "chain_getHeader" ≡ false
unfolding equal_fold
safe = refl

entry-unparsed_example : entry codec write ends turn (logged_of log) " [f1,f11]" ≡ responded "f111"
entry-unparsed_example =
    entry-unparsed codec write ends settings scale flaky names [] (λ f. false) (λ f. 100)
      (λ f. new_inspector (session_at 1)) log " [f1,f11]" behind_blank refl sees

entry-batch_example : entry codec write ends turn (logged_of log) "[f1,f11]" ≡ responded "[f1,f111]"
entry-batch_example =
    entry-batch codec write ends settings scale flaky names [] (λ f. false) (λ f. 100)
      (λ f. new_inspector (session_at 1)) log decodes "[f1,f11]"
      (with_raw codec unsafe_frame ∷ with_raw codec safe_frame ∷ [])
      (denied_frame 1 ∷ denied_frame 3 ∷ []) in_brackets (λ e. cc) (omega arith)
      ((((λ e. cc), (λ e. cc)), refl), ((((λ e. cc), (λ e. cc)), refl), tt))
      (
        inl (((λ e. cc), inl unsafe, (λ e. cc)), refl),
        (
          inr (
            (λ h. elim h.1 [ inl e ↦ true≢false (sym e ∙ safe) | inr e ↦ e ]),
            ("f111", refl, refl),
          ),
          tt,
        ),
      )

abbrev client : ClientContext
client = record { id = "1"; connection_type = websocket }

-- The node answers to the first message only.
abbrev first_only : ℕ → String → Option String
first_only zero body = some "f111"
first_only (suc n) body = none

abbrev outcomes : ℕ → String → Outcome
outcomes = outcome codec write first_only (λ n. turn) (λ n. logged_of log)

session-answered_example :
    (c : Client) × (session outcomes client 3 ("[f1,f11]" ∷ " [f1,f11]" ∷ []) ≡ some c)
    × (c.answers ≡ answers_of outcomes 0 ("[f1,f11]" ∷ " [f1,f11]" ∷ []))
session-answered_example =
    session-answered codec write first_only (λ n. turn) (λ n. logged_of log) client 2
      ("[f1,f11]" ∷ " [f1,f11]" ∷ []) (omega arith)
