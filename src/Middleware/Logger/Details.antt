-- ===== src/Middleware/Logger/Details.antt =====
-- When the line of a request cannot be written.
use mathlib.Core.Path.{subst}
use substrate_rpc_proxy.Dto.Mapped.{Value}
use substrate_rpc_proxy.Prelude.{
  ℕ, ◌≡◌, ◌≢◌, ◌↔◌, ◌⊎◌, inl, inr, refl, sym, ◌∙◌, ap, String, Bool, true, false, List, [], ◌∷◌,
  Option, none, some, str_eq, Bool-cases, Option-cases, none-ne-some, some_inj, arith,
}
use substrate_rpc_proxy.Middleware.Logger.{
  text, LogFields, get_field, LogRequest, log_fields_from_request, frame_fields, method_fields,
  name_batch, is_ignored, unless_ignored, filter_line, write_line, log_request_details, Logged,
  panicked, as_texts, copied,
}

-- The parameters of the requests are logged, but the request has no frame, and its context has no
-- field with the name of the method.
pub record HasNoMethod (r : LogRequest) : Type 0 where
  pub with_params : r.with_params ≡ some true
  pub no_frame : r.frame ≡ none
  pub no_field : get_field "method" (copied r.log_fields) ≡ none

module _ (show : Value → String) (show_duration : ℕ → String) (fold : ℕ → ℕ) where
  is_ignored_of_text :
      (s : String) (ms : List String) → is_ignored show show_duration fold (some (text s)) ms ≢ none
  unfolding is_ignored
  is_ignored_of_text s [] = λ e. cc
  is_ignored_of_text s (m ∷ ms) = ground (arith, is_ignored_of_text s ms)

  -- The fields have a method, and it is a text.
  abbrev IsNamed : LogFields → Type 0
  IsNamed fields = (s : String) × (get_field "method" fields ≡ some (text s))

  as_texts-IsNamed :
      (l : List (String × String)) → (get_field "method" (as_texts l) ≡ none) ⊎ IsNamed (as_texts l)
  unfolding get_field
  as_texts-IsNamed [] = inl refl
  as_texts-IsNamed ((k, v) ∷ r) = elim (Bool-cases (str_eq k "method")) [
    | inl t ↦ inr (v, rw (t, get_field))
    | inr f ↦ rw (f, get_field) (as_texts-IsNamed r)
  ]

  copied-IsNamed :
      (o : Option (List (String × String)))
      → (get_field "method" (copied o) ≡ none) ⊎ IsNamed (copied o)
  unfolding get_field
  copied-IsNamed none = inl refl
  copied-IsNamed (some l) = as_texts-IsNamed l

  field-log_fields_from_request :
      (r : LogRequest)
      → get_field "method" (log_fields_from_request r) ≡ get_field "method" (copied r.log_fields)
  unfolding log_fields_from_request get_field
  field-log_fields_from_request r = elim (Bool-cases (str_eq r.forwarded_host "")) [
    | inl t ↦ rw t
    | inr f ↦ rw f
  ]

  name_batch-IsNamed :
      (fields : LogFields) → IsNamed fields → IsNamed (name_batch show show_duration fold fields)
  unfolding name_batch get_field
  name_batch-IsNamed fields (s, e) = elim (Bool-cases (str_eq s "")) [
    | inl t ↦ ("batch", rw (e, name_batch, t))
    | inr f ↦ (s, rw (e, name_batch, f) e)
  ]

  name_batch_unnamed :
      (fields : LogFields)
      → get_field "method" fields ≡ none
      → get_field "method" (name_batch show show_duration fold fields) ≡ none
  unfolding name_batch
  name_batch_unnamed fields e = rw (e, name_batch) e

  text-ne-panicked :
      (s : String) (ms : List String) (l : Logged)
      → l ≢ panicked
      → unless_ignored show show_duration fold
          (is_ignored show show_duration fold (some (text s)) ms)
          l
        ≢ panicked
  unfolding unless_ignored
  text-ne-panicked s ms l n =
      elim (Option-cases (is_ignored show show_duration fold (some (text s)) ms)) [
        | inl i ↦ absurd (is_ignored_of_text s ms i)
        | inr (b, i) ↦ elim (Bool-cases b) [
          | inl t ↦ λ p. cc (rw (i, t) at p)
          | inr t ↦ λ p. n (rw (i, t) at p)
        ]
      ]

  nothing-panicked_iff :
      (ms : List String) (l : Logged)
      → l ≢ panicked
      → (unless_ignored show show_duration fold (is_ignored show show_duration fold none ms) l
          ≡ panicked)
        ↔ ((m : String) × (rest : List String) × (ms ≡ m ∷ rest))
  unfolding unless_ignored is_ignored
  nothing-panicked_iff [] l n = (λ p. absurd (n p), λ h. cc)
  nothing-panicked_iff (m ∷ rest) l n = (λ p. (m, rest, refl), λ h. refl)

  write_line-ne-panicked :
      (r : LogRequest) (now : ℕ) (fields : LogFields)
      → write_line show show_duration fold r now fields ≢ panicked
  unfolding write_line
  write_line-ne-panicked r now fields p = cc

  -- A named line is written or left out.
  IsNamed-filter_line :
      (r : LogRequest) (now : ℕ) (fields : LogFields)
      → IsNamed fields
      → filter_line show show_duration fold r now fields ≢ panicked
  unfolding filter_line
  IsNamed-filter_line r now fields (s, e) p =
      let l = write_line show show_duration fold r now fields in
      let clean = write_line-ne-panicked r now fields in
      elim (Option-cases r.ignore_methods) [
        | inl q ↦ clean (rw (q, filter_line) at p)
        | inr (ms, q) ↦
            subst
              (λ o.
                unless_ignored show show_duration fold (is_ignored show show_duration fold o ms) l
                ≢ panicked)
              (sym e) (text-ne-panicked s ms l clean) (rw (q, filter_line) at p)
      ]

  unnamed-filter_line_iff :
      (r : LogRequest) (now : ℕ) (fields : LogFields)
      → get_field "method" fields ≡ none
      → (filter_line show show_duration fold r now fields ≡ panicked)
        ↔ ((m : String) × (ms : List String) × (r.ignore_methods ≡ some (m ∷ ms)))
  unfolding filter_line
  unnamed-filter_line_iff r now fields e =
      let l = write_line show show_duration fold r now fields in
      let clean = write_line-ne-panicked r now fields in
      elim (Option-cases r.ignore_methods) [
        | inl q ↦ (
          λ p. absurd (clean (rw (q, filter_line) at p)),
          λ h. absurd (none-ne-some (sym q ∙ h.2)),
        )
        | inr (ms, q) ↦
            let both =
              subst
                (λ o.
                  (unless_ignored show show_duration fold (is_ignored show show_duration fold o ms)
                      l
                    ≡ panicked)
                  ↔ ((m : String) × (rest : List String) × (ms ≡ m ∷ rest)))
                (sym e) (nothing-panicked_iff ms l clean) in
            (
              λ p. let (m, rest, n) = both.0 (rw (q, filter_line) at p) in (m, rest, q ∙ ap some n),
              λ h. rw (q, filter_line) (both.1 (h.0, h.1, some_inj (sym q ∙ h.2))),
            )
      ]

  HasNoMethod-method_fields :
      (r : LogRequest)
      → HasNoMethod r
      → get_field "method" (method_fields show show_duration fold r (log_fields_from_request r))
        ≡ none
  unfolding method_fields frame_fields
  HasNoMethod-method_fields r h =
      rw (h.with_params, method_fields, h.no_frame, frame_fields)
        (field-log_fields_from_request r ∙ h.no_field)

  -- The request's method is a text, or the request has none.
  method_fields-cases :
      (r : LogRequest)
      → IsNamed (method_fields show show_duration fold r (log_fields_from_request r))
        ⊎ ((get_field "method" (method_fields show show_duration fold r (log_fields_from_request r))
              ≡ none)
            × HasNoMethod r)
  unfolding method_fields frame_fields get_field log_fields_from_request
  method_fields-cases r = elim (Option-cases r.with_params) [
    | inl q ↦ inl (r.rpc_method, rw (q, method_fields))
    | inr (b, q) ↦ elim (Bool-cases b) [
      | inr off ↦ inl (r.rpc_method, rw (q, method_fields, off))
      | inl on ↦ elim (Option-cases r.frame) [
        | inr (f, g) ↦ inl (f.method, rw (q, method_fields, on, frame_fields, g))
        | inl g ↦
            let same : method_fields show show_duration fold r (log_fields_from_request r)
                ≡ log_fields_from_request r =
              rw (q, method_fields, on, frame_fields, g) in
            elim (copied-IsNamed r.log_fields) [
              | inr (s, e) ↦ inl (s, rw same (field-log_fields_from_request r ∙ e))
              | inl e ↦ inr (
                rw same (field-log_fields_from_request r ∙ e),
                record { with_params = q ∙ ap some on; no_frame = g; no_field = e },
              )
            ]
      ]
    ]
  ]

  -- The line of a request panics exactly if the program logs, with the parameters of requests and
  -- with at least one method to ignore, and the request has neither a frame nor a field with the
  -- name of the method, as one whose payload does not parse.
  pub log_request_details-panicked_iff :
      (has_log : Bool) (r : LogRequest) (now : ℕ)
      → (log_request_details show show_duration fold has_log r now ≡ panicked) ↔ (
          (has_log ≡ true)
          × HasNoMethod r
          × ((m : String) × (ms : List String) × (r.ignore_methods ≡ some (m ∷ ms))))
  unfolding log_request_details
  log_request_details-panicked_iff false r now = (λ p. cc, λ h. cc)
  log_request_details-panicked_iff true r now =
      let fields = method_fields show show_duration fold r (log_fields_from_request r) in
      elim (method_fields-cases r) [
        | inl named ↦ (
          λ p. absurd (
              IsNamed-filter_line r now (name_batch show show_duration fold fields)
                (name_batch-IsNamed fields named) p),
          λ h. absurd (none-ne-some (sym (HasNoMethod-method_fields r h.1) ∙ named.1)),
        )
        | inr (unnamed, h) ↦
            let panics =
              unnamed-filter_line_iff r now (name_batch show show_duration fold fields)
                (name_batch_unnamed fields unnamed) in
            (λ p. (refl, h, panics.0 p), λ x. panics.1 x.2)
      ]
