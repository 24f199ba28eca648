-- ===== src/Programs/Follow/Limit.antt =====
-- How many messages are in progress.
use mathlib.Core.Path.{subst}
use substrate_rpc_proxy.Dto.{StoredMessage}
use substrate_rpc_proxy.Prelude.{
  ℕ, ◌+◌, ◌≤◌, ◌≡◌, refl, sym, ◌∙◌, inl, inr, String, List, [], ◌∷◌, Option, none, some,
  none-ne-some, some_inj, ltb, Option-cases, Bool-cases, arith, tests,
}
use substrate_rpc_proxy.Programs.Follow.{
  Loop, reading, holding, crashed, Follower, busy_limit, start_task, finish_task, Happening, reads,
  dispatches, starts, returns, after_consume, dispatch, step, run, begin,
}
use substrate_rpc_proxy.Storage.{
  Reply, Redis, Consumed, consumed, nothing_new, consume_failed, consume_panicked, consume,
}
use substrate_rpc_proxy.Programs.Follow.Tasks.{
  running_count, spawned_count, running_count-new, start_task-Starts, finish_task-Ends,
}

-- InProgress is the number of the goroutines that run, and `late` bounds those that have yet to start
-- where the loop starts another one.
abbrev IsWithin : {W : Type 0} → ℕ → Follower W → Type 0
IsWithin late s =
    (s.in_progress ≡ running_count s.tasks)
    × (running_count s.tasks + spawned_count s.tasks ≤ 1001 + late)

module _ (r : Redis) (marshal : StoredMessage → Reply String)
    (unmarshal : String → StoredMessage × Option String) (stream group consumer : String)
    (late : ℕ) where
  open r use {World}

  -- The loop starts a goroutine only while at most `late` others have yet to start.
  abbrev IsPromptHere : Happening → Follower World → Type 0
  IsPromptHere dispatches s = spawned_count s.tasks ≤ late
  IsPromptHere _ s = Unit

  after_consume-IsWithin :
      (s : Follower World) (x : Consumed × World)
      → IsWithin late s
      → IsWithin late (after_consume r marshal unmarshal stream group consumer s x)
  unfolding after_consume
  after_consume-IsWithin s (consumed id m, w) h = h
  after_consume-IsWithin s (nothing_new, w) h = h
  after_consume-IsWithin s (consume_failed e, w) h = h
  after_consume-IsWithin s (consume_panicked, w) h = h

  dispatch-IsWithin :
      (l : Loop) (s s' : Follower World)
      → IsWithin late s
      → spawned_count s.tasks ≤ late
      → dispatch r marshal unmarshal stream group consumer l s ≡ some s'
      → IsWithin late s'
  unfolding dispatch
  dispatch-IsWithin reading s s' h prompt e = absurd (none-ne-some e)
  dispatch-IsWithin crashed s s' h prompt e = absurd (none-ne-some e)
  dispatch-IsWithin (holding id none) s s' h prompt e =
      elim (Bool-cases (ltb busy_limit s.in_progress)) [
        | inl full ↦ absurd (none-ne-some (rw (dispatch, full) at e))
        | inr free ↦ subst (IsWithin late) (some_inj (rw (dispatch, free) at e)) h
      ]
  dispatch-IsWithin (holding id (some m)) s s' h prompt e =
      elim (Bool-cases (ltb busy_limit s.in_progress)) [
        | inl full ↦ absurd (none-ne-some (rw (dispatch, full) at e))
        | inr free ↦
            let (same_running, one_more) = running_count-new s.tasks id m in
            let room : s.in_progress ≤ 1000 = grind (tests, free) in
            subst (IsWithin late) (some_inj (rw (dispatch, free) at e))
              (h.0 ∙ sym same_running, omega (arith, h.0, room, same_running, one_more, prompt))
      ]

  step-IsWithin :
      (x : Happening) (s s' : Follower World)
      → IsWithin late s
      → IsPromptHere x s
      → step r marshal unmarshal stream group consumer x s ≡ some s'
      → IsWithin late s'
  unfolding step
  step-IsWithin reads s s' h prompt e = by_loop s.loop e
    where
      by_loop :
          (l : Loop)
          → (elim l as (λ x. Option (Follower World)) [
            | reading ↦ some (
                after_consume r marshal unmarshal stream group consumer s
                  (consume r marshal unmarshal stream group consumer s.world))
            | holding id m ↦ none
            | crashed ↦ none
          ])
            ≡ some s'
          → IsWithin late s'
      by_loop reading k =
          subst (IsWithin late) (some_inj k)
            (after_consume-IsWithin s (consume r marshal unmarshal stream group consumer s.world) h)
      by_loop (holding id m) k = absurd (none-ne-some k)
      by_loop crashed k = absurd (none-ne-some k)
  step-IsWithin dispatches s s' h prompt e = dispatch-IsWithin s.loop s s' h prompt e
  step-IsWithin (starts i) s s' h prompt e = elim (Option-cases (start_task i s.tasks)) [
    | inl nothing ↦ absurd (none-ne-some (rw (step, nothing) at e))
    | inr (ts, found) ↦
        let (one_more, one_less) = start_task-Starts i s.tasks ts found in
        subst (IsWithin late) (some_inj (rw (step, found) at e))
          (omega (arith, h.0, one_more), omega (arith, h.1, one_more, one_less))
  ]
  step-IsWithin (returns i) s s' h prompt e = elim (Option-cases (finish_task i s.tasks)) [
    | inl nothing ↦ absurd (none-ne-some (rw (step, nothing) at e))
    | inr (x, found) ↦
        let (one_less, same) = finish_task-Ends i s.tasks x found in
        subst (IsWithin late) (some_inj (rw (step, found) at e))
          (omega (arith, h.0, one_less), omega (arith, h.1, one_less, same))
  ]

  -- Each goroutine of a run is started while at most `late` others have yet to start.
  unfoldable pub IsPrompt : List Happening → Follower World → Type 0
  unfolding step
  IsPrompt [] s = Unit
  IsPrompt (x ∷ xs) s =
      IsPromptHere x s × elim (step r marshal unmarshal stream group consumer x s) [
        | none ↦ Unit
        | some s' ↦ IsPrompt xs s'
      ]

  run-IsWithin :
      (xs : List Happening) (s s' : Follower World)
      → IsWithin late s
      → IsPrompt xs s
      → run r marshal unmarshal stream group consumer xs s ≡ some s'
      → IsWithin late s'
  unfolding run IsPrompt
  run-IsWithin [] s s' h prompt e = subst (IsWithin late) (some_inj e) h
  run-IsWithin (x ∷ xs) s s' h prompt e =
      elim (Option-cases (step r marshal unmarshal stream group consumer x s)) [
        | inl nothing ↦ absurd (none-ne-some (rw (run, nothing) at e))
        | inr (s1, found) ↦
            run-IsWithin xs s1 s' (step-IsWithin x s s1 h prompt.0 found)
              (rw (IsPrompt, found) at (prompt.1)) (rw (run, found) at e)
      ]

  -- At any time after the consumer's loop began, InProgress is the number of the goroutines that
  -- follow a message, have counted themselves and have not returned. If each one is started while at most
  -- `late` others have yet to count themselves, then these and those that have yet to start are
  -- never more than 1001 + late.
  pub run-in_progress :
      (xs : List Happening) (w : World) (s : Follower World)
      → IsPrompt xs (begin w)
      → run r marshal unmarshal stream group consumer xs (begin w) ≡ some s
      → (s.in_progress ≡ running_count s.tasks)
        × (s.in_progress + spawned_count s.tasks ≤ 1001 + late)
  unfolding running_count spawned_count
  run-in_progress xs w s prompt e =
      let (counted, few) = run-IsWithin xs (begin w) s (refl, omega arith) prompt e in
      (counted, omega (arith, counted, few))
