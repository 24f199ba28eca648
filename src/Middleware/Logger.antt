-- ===== src/Middleware/Logger.antt =====
-- pkg/middleware/jsonrpc_logger.go: the log fields of a request. The form of parameters and of times
-- in the log is a parameter.
pub mod Details
pub mod Chain
use substrate_rpc_proxy.Dto.{RpcFrame}
use substrate_rpc_proxy.Dto.Mapped.{Value, must_map, must_string}
use substrate_rpc_proxy.Middleware.Deny.{equal_fold}
use substrate_rpc_proxy.Prelude.{
  ℕ, ◌+◌, ◌-◌, String, Bool, true, false, List, [], ◌∷◌, ◌++◌, Option, none, some, str_eq,
  if◌then◌else◌,
}

pub data LogValue : Type 0 where
  text : String → LogValue
  number : ℕ → LogValue

abbrev pub LogFields : Type 0
LogFields = List (String × LogValue)

-- A later entry is found first.
unfoldable pub get_field : String → LogFields → Option LogValue
get_field key [] = none
get_field key ((k, v) ∷ r) = let rest = get_field key r in if str_eq k key then some v else rest

-- What the functions read of a request and its context. `log_fields` are those of the context, which
-- AddLogField fills with texts.
pub record LogRequest : Type 0 where
  pub log_fields : Option (List (String × String))
  pub with_params : Option Bool
  pub ignore_methods : Option (List String)
  pub frame : Option RpcFrame
  pub rpc_method : String
  pub rpc_request_id : ℕ
  pub start_time : Option ℕ
  pub forwarded_host : String
  pub remote_addr : String

-- Without a map in the context nothing is added.
unfoldable pub add_log_field :
    String → String → Option (List (String × String)) → Option (List (String × String))
add_log_field k v none = none
add_log_field k v (some fields) = some ((k, v) ∷ fields)

unfoldable pub find_text : String → List (String × String) → String
find_text key [] = ""
find_text key ((k, v) ∷ r) = let rest = find_text key r in if str_eq k key then v else rest

unfoldable pub get_log_field : String → Option (List (String × String)) → String
unfolding find_text
get_log_field k none = ""
get_log_field k (some fields) = find_text k fields

abbrev pub as_texts : List (String × String) → LogFields
as_texts [] = []
as_texts ((k, v) ∷ r) = (k, text v) ∷ as_texts r

abbrev pub copied : Option (List (String × String)) → LogFields
copied none = []
copied (some fields) = as_texts fields

unfoldable pub log_fields_from_request : LogRequest → LogFields
log_fields_from_request r =
    let fields = copied r.log_fields in
    let hosted = ("forwarded_host", text r.forwarded_host) ∷ fields in
    ("client", text r.remote_addr) ∷ (if str_eq r.forwarded_host "" then fields else hosted)

unfoldable pub subscription_fields : String → String → RpcFrame → LogFields
unfolding must_map must_string
subscription_fields client upstream f =
    ("method", text f.method)
    ∷ ("sub_id", text (must_string "subscription" (must_map f.params)))
    ∷ ("direction", text "server-push")
    ∷ ("upsteam", text upstream)
    ∷ ("client", text client)
    ∷ []

-- What LogRequestDetails does: a line with fields, nothing, or the panic of `.(string)` on what is
-- no text.
pub data Logged : Type 0 where
  line : LogFields → Logged
  silent : Logged
  panicked : Logged

module _ (show : Value → String) (show_duration : ℕ → String) (fold : ℕ → ℕ) where
  -- With parameters only a frame has a method.
  unfoldable pub frame_fields : LogRequest → LogFields → LogFields
  frame_fields r fields = elim (r.frame) [
    | none ↦ fields
    | some f ↦
        ("params", text (show f.params)) ∷ ("id", number f.id) ∷ ("method", text f.method) ∷ fields
  ]

  abbrev pub context_fields : LogRequest → LogFields → LogFields
  context_fields r fields = ("id", number r.rpc_request_id) ∷ ("method", text r.rpc_method) ∷ fields

  unfoldable pub method_fields : LogRequest → LogFields → LogFields
  unfolding frame_fields
  method_fields r fields = elim (r.with_params) [
    | none ↦ context_fields r fields
    | some false ↦ context_fields r fields
    | some true ↦ frame_fields r fields
  ]

  -- A request with the empty method is a batch.
  abbrev pub is_empty_text : Option LogValue → Bool
  is_empty_text (some (text s)) = str_eq s ""
  is_empty_text _ = false

  unfoldable pub name_batch : LogFields → LogFields
  unfolding get_field
  name_batch fields =
      if is_empty_text (get_field "method" fields)
      then ("id", number 0) ∷ ("method", text "batch") ∷ fields
      else fields

  -- The loop over the methods to ignore: `none` is the panic.
  unfoldable pub is_ignored : Option LogValue → List String → Option Bool
  unfolding equal_fold
  is_ignored method [] = some false
  is_ignored (some (text s)) (m ∷ ms) =
      let rest = is_ignored (some (text s)) ms in if equal_fold fold m s then some true else rest
  is_ignored _ (m ∷ ms) = none

  abbrev pub with_duration : Option ℕ → ℕ → LogFields → LogFields
  with_duration none now fields = fields
  with_duration (some start) now fields = ("duration", text (show_duration (now - start))) ∷ fields

  unfoldable pub write_line : LogRequest → ℕ → LogFields → Logged
  write_line r now fields =
      line (("direction", text "request") ∷ with_duration r.start_time now fields)

  unfoldable pub unless_ignored : Option Bool → Logged → Logged
  unless_ignored none l = panicked
  unless_ignored (some true) l = silent
  unless_ignored (some false) l = l

  unfoldable pub filter_line : LogRequest → ℕ → LogFields → Logged
  unfolding write_line is_ignored unless_ignored get_field
  filter_line r now fields = elim (r.ignore_methods) [
    | none ↦ write_line r now fields
    | some ms ↦ unless_ignored (is_ignored (get_field "method" fields) ms) (write_line r now fields)
  ]

  -- `has_log` says that the logger of the program is set.
  unfoldable pub log_request_details : Bool → LogRequest → ℕ → Logged
  unfolding log_fields_from_request method_fields name_batch filter_line
  log_request_details has_log r now =
      let fields = name_batch (method_fields r (log_fields_from_request r)) in
      if has_log then filter_line r now fields else silent
