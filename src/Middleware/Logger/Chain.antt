-- ===== src/Middleware/Logger/Chain.antt =====
-- The Logger around the other handlers, and JsonRPC around the Logger: which lines a frame gives.
use substrate_rpc_proxy.Dto.{RpcFrame}
use substrate_rpc_proxy.Dto.Mapped.{Value}
use substrate_rpc_proxy.Middleware.Deny.{equal_fold, IsListed}
use substrate_rpc_proxy.Middleware.Logger.{
  text, LogFields, get_field, LogRequest, log_fields_from_request, frame_fields, method_fields,
  name_batch, is_ignored, unless_ignored, filter_line, write_line, log_request_details, Logged,
  line, silent,
}
use substrate_rpc_proxy.Prelude.{
  ℕ, ◌-◌, ◌≡◌, ◌≢◌, refl, ap, ◌∙◌, inl, inr, String, true, List, [], ◌∷◌, none, some, str_eq,
  eq_iff, Bool-cases, Option-cases,
}

-- LogWithParams and LogWithIgnoreMethods.
pub data LoggerOption : Type 0 where
  log_with_params : LoggerOption
  log_with_ignore_methods : List String → LoggerOption

unfoldable pub apply_option : LoggerOption → LogRequest → LogRequest
apply_option log_with_params r = record r { with_params = some true }
apply_option (log_with_ignore_methods methods) r = record r { ignore_methods = some methods }

-- The loop over the options.
unfoldable pub apply_options : List LoggerOption → LogRequest → LogRequest
unfolding apply_option
apply_options [] r = r
apply_options (o ∷ os) r = apply_options os (apply_option o r)

-- NewFrameContext, on what the log reads: `fields` is the new map, as the handlers behind fill it.
unfoldable pub new_frame_context : RpcFrame → ℕ → List (String × String) → LogRequest → LogRequest
new_frame_context f start fields r = record r {
  frame = some f;
  log_fields = some fields;
  start_time = some start;
  rpc_request_id = f.id;
  rpc_method = f.method;
}

module _ (show : Value → String) (show_duration : ℕ → String) (fold : ℕ → ℕ) where
  -- The line behind the next handler, with the options in the context.
  unfoldable pub logger : List LoggerOption → LogRequest → ℕ → Logged
  unfolding apply_options log_request_details
  logger options r now =
      log_request_details show show_duration fold true (apply_options options r) now

  -- The goroutine of a batch's frame: the handlers, the Logger among them, and LogRequestDetails for
  -- the request as it was before the Logger.
  unfoldable pub log_batch_frame : List LoggerOption → LogRequest → ℕ → ℕ → Logged × Logged
  unfolding logger log_request_details
  log_batch_frame options r now later =
      (logger options r now, log_request_details show show_duration fold true r later)

  -- The request is that of the frame, whatever else is set.
  abbrev pub IsOf : RpcFrame → LogRequest → Type 0
  IsOf f r = (r.frame ≡ some f) × (r.rpc_method ≡ f.method)

  pub apply_options-IsOf :
      (f : RpcFrame) (options : List LoggerOption) (r : LogRequest)
      → IsOf f r
      → IsOf f (apply_options options r)
  unfolding apply_options
  apply_options-IsOf f [] r h = h
  apply_options-IsOf f (log_with_params ∷ os) r h =
      apply_options-IsOf f os (apply_option log_with_params r) h
  apply_options-IsOf f (log_with_ignore_methods ms ∷ os) r h =
      apply_options-IsOf f os (apply_option (log_with_ignore_methods ms) r) h

  name_batch-named :
      (m : String) (fields : LogFields)
      → m ≢ ""
      → get_field "method" fields ≡ some (text m)
      → name_batch show show_duration fold fields ≡ fields
  unfolding name_batch
  name_batch-named m fields named e = elim (Bool-cases (str_eq m "")) [
    | inl t ↦ absurd (named ((eq_iff m "").0 t))
    | inr n ↦ rw (name_batch, e, n)
  ]

  field-method_fields :
      (f : RpcFrame) (r : LogRequest) (fields : LogFields)
      → IsOf f r
      → get_field "method" (method_fields show show_duration fold r fields) ≡ some (text f.method)
  unfolding method_fields frame_fields get_field
  field-method_fields f r fields (framed, named) = elim (Option-cases r.with_params) [
    | inl unset ↦ rw (method_fields, unset, get_field, named)
    | inr (on, set) ↦ elim (Bool-cases on) [
      | inl t ↦ rw (method_fields, set, t, frame_fields, framed)
      | inr n ↦ rw (method_fields, set, n, named)
    ]
  ]

  is_ignored-listed :
      (m : String) (ms : List String)
      → IsListed fold m ms
      → is_ignored show show_duration fold (some (text m)) ms ≡ some true
  unfolding is_ignored
  is_ignored-listed m [] h = absurd h
  is_ignored-listed m (n ∷ ms) (inl e) = rw (e, is_ignored)
  is_ignored-listed m (n ∷ ms) (inr h) = elim (Bool-cases (equal_fold fold n m)) [
    | inl t ↦ rw (t, is_ignored)
    | inr f ↦ rw (f, is_ignored) (is_ignored-listed m ms h)
  ]

  -- The fields of a named frame.
  named_fields : LogRequest → LogFields
  named_fields r = method_fields show show_duration fold r (log_fields_from_request r)

  log_request_details-named :
      (f : RpcFrame) (r : LogRequest) (now : ℕ)
      → f.method ≢ ""
      → IsOf f r
      → log_request_details show show_duration fold true r now
        ≡ filter_line show show_duration fold r now (named_fields r)
  unfolding log_request_details named_fields
  log_request_details-named f r now named h = ap (filter_line show show_duration fold r now) (
      name_batch-named f.method (named_fields r) named
        (field-method_fields f r (log_fields_from_request r) h))

  filter_line-listed :
      (m : String) (r : LogRequest) (now : ℕ) (shown : LogFields) (ms : List String)
      → r.ignore_methods ≡ some ms
      → get_field "method" shown ≡ some (text m)
      → IsListed fold m ms
      → filter_line show show_duration fold r now shown ≡ silent
  unfolding filter_line unless_ignored
  filter_line-listed m r now shown ms ignored named listed =
      let l = write_line show show_duration fold r now shown in
      rw (ignored, filter_line)
        (ap
            (λ x.
              unless_ignored show show_duration fold (is_ignored show show_duration fold x ms) l)
            named
          ∙ ap (λ x. unless_ignored show show_duration fold x l) (is_ignored-listed m ms listed))

  -- The frame of a batch has a method that the options tell to ignore, and the request had no options
  -- before the Logger: the Logger writes nothing, and behind it a line of the frame's method is written
  -- all the same.
  pub log_batch_frame-ignored :
      (f : RpcFrame) (options : List LoggerOption) (r : LogRequest) (ms : List String)
      (fields : List (String × String)) (start now later : ℕ)
      → f.method ≢ ""
      → r.ignore_methods ≡ none
      → let request = new_frame_context f start fields r in
        (apply_options options request).ignore_methods ≡ some ms
        → IsListed fold f.method ms
        → let (wrapped, again) = log_batch_frame options request now later in
          (wrapped ≡ silent)
          × ((shown : LogFields) × (again ≡ line shown)
              × (get_field "method" shown ≡ some (text f.method)))
  unfolding log_batch_frame logger new_frame_context filter_line unless_ignored write_line get_field
      named_fields
  log_batch_frame-ignored f options r ms fields start now later named plain ignored listed =
      let request = new_frame_context f start fields r in
      let optioned = apply_options options request in
      let h = apply_options-IsOf f options request (refl, refl) in
      (
        log_request_details-named f optioned now named h
            ∙ filter_line-listed f.method optioned now (named_fields optioned) ms ignored
                (field-method_fields f optioned (log_fields_from_request optioned) h) listed,
        (
          ("direction", text "request")
              ∷ ("duration", text (show_duration (later - start)))
              ∷ named_fields request,
          log_request_details-named f request later named (refl, refl)
              ∙ rw (plain, filter_line, write_line),
          field-method_fields f request (log_fields_from_request request) (refl, refl),
        ),
      )
