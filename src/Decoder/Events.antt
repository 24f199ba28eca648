-- ===== src/Decoder/Events.antt =====
-- DecodeEvents and DecodeResponse of pkg/decoder/decoder.go, over what the SCALE library decodes. `P`
-- is the type of the decoded parameters, those of an event once they went through JSON.
use substrate_rpc_proxy.Prelude.{ℕ, String, List, [], ◌∷◌, ◌++◌, Option, none, some}

pub record Event (P : Type 0) : Type 0 where
  pub module_id : String
  pub event_id : String
  pub extrinsic_idx : ℕ
  pub params : P

-- A decoded record that is a map, with the entries that have the type which the code asserts.
pub record EventRecord (P : Type 0) : Type 0 where
  pub module_id : Option String
  pub event_id : Option String
  pub extrinsic_idx : Option ℕ
  pub params : P

-- `decoder.Value` after Process, which may panic; `none` is a record that is no map.
pub data Processed (P : Type 0) : Type 0 where
  records : List (Option (EventRecord P)) → Processed P
  other_value : Processed P
  process_panicked : Processed P

module _ {P : Type 0} where
  -- The type assertions of the loop's body; `none` is a panic.
  unfoldable pub asserted : Option String → Option String → Option ℕ → P → Option (Event P)
  asserted (some module_id) (some event_id) (some extrinsic_idx) params = some (record {
    module_id = module_id;
    event_id = event_id;
    extrinsic_idx = extrinsic_idx;
    params = params;
  })
  asserted _ _ _ params = none

  unfoldable pub event_of : Option (EventRecord P) → Option (Event P)
  unfolding asserted
  event_of none = none
  event_of (some e) = asserted e.module_id e.event_id e.extrinsic_idx e.params

  unfoldable pub events_loop :
      List (Event P) → List (Option (EventRecord P)) → Option (List (Event P))
  unfolding event_of
  events_loop events [] = some events
  events_loop events (r ∷ rs) = elim (event_of r) [
    | none ↦ none
    | some e ↦ events_loop (events ++ e ∷ []) rs
  ]

  -- A panic is recovered from, and nil returned.
  abbrev pub recovered : Option (List (Event P)) → List (Event P)
  recovered none = []
  recovered (some events) = events

  unfoldable pub decode_events : Processed P → List (Event P)
  unfolding events_loop
  decode_events (records rs) = recovered (events_loop [] rs)
  decode_events other_value = []
  decode_events process_panicked = []

  -- `process` is the library's, `none` where it panics: the result is then nil, `none` again.
  unfoldable pub decode_response : (String → String → Option P) → String → String → Option P
  decode_response process stored_type payload = process payload stored_type
