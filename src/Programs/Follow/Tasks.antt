-- ===== src/Programs/Follow/Tasks.antt =====
-- How many goroutines run, and how many have yet to start.
use substrate_rpc_proxy.Dto.{StoredMessage}
use substrate_rpc_proxy.Prelude.{
  ℕ, zero, suc, ◌+◌, ◌≡◌, refl, sym, ap, ◌∙◌, inl, inr, String, List, [], ◌∷◌, ◌++◌, Option, none,
  some, none-ne-some, some_inj, Option-cases, arith,
}
use substrate_rpc_proxy.Programs.Follow.{
  Stage, spawned, running, returned, Task, new_task, start_task, finish_task,
}

abbrev one_if_running : Stage → ℕ
one_if_running running = 1
one_if_running _ = 0

abbrev one_if_spawned : Stage → ℕ
one_if_spawned spawned = 1
one_if_spawned _ = 0

-- The goroutines that have counted themselves and not returned, and those that have yet to start.
unfoldable pub running_count : List Task → ℕ
running_count [] = 0
running_count (t ∷ ts) = one_if_running t.stage + running_count ts

unfoldable pub spawned_count : List Task → ℕ
spawned_count [] = 0
spawned_count (t ∷ ts) = one_if_spawned t.stage + spawned_count ts

pub running_count-new :
    (ts : List Task) (id : String) (m : StoredMessage)
    → (running_count (ts ++ new_task id m ∷ []) ≡ running_count ts)
      × (spawned_count (ts ++ new_task id m ∷ []) ≡ spawned_count ts + 1)
unfolding running_count spawned_count
running_count-new [] id m = (refl, refl)
running_count-new (t ∷ ts) id m =
    let (e, d) = running_count-new ts id m in (omega (arith, e), omega (arith, d))

-- One goroutine more runs, or one less.
abbrev Starts : List Task → List Task → Type 0
Starts ts ts' =
    (running_count ts' ≡ running_count ts + 1) × (spawned_count ts' + 1 ≡ spawned_count ts)

abbrev Ends : List Task → List Task → Type 0
Ends ts ts' = (running_count ts' + 1 ≡ running_count ts) × (spawned_count ts' ≡ spawned_count ts)

abbrev pub put : Task → Option (List Task) → Option (List Task)
put t r = elim r [ none ↦ none | some ts ↦ some (t ∷ ts) ]

abbrev pub put_behind : Task → Option (String × List Task) → Option (String × List Task)
put_behind t r = elim r [ none ↦ none | some x ↦ some (x.0, t ∷ x.1) ]

pub start_task-Starts : (i : ℕ) (ts ts' : List Task) → start_task i ts ≡ some ts' → Starts ts ts'
unfolding start_task running_count spawned_count
start_task-Starts i [] ts' e = absurd (none-ne-some e)
start_task-Starts zero (t ∷ ts) ts' e = at_stage t.stage e
  where
    at_stage :
        (s : Stage)
        → (elim s as (λ x. Option (List Task)) [
          | spawned ↦ some (record t { stage = running } ∷ ts)
          | running ↦ none
          | returned ↦ none
        ])
          ≡ some ts'
        → (running_count ts' ≡ one_if_running s + running_count ts + 1)
          × (spawned_count ts' + 1 ≡ one_if_spawned s + spawned_count ts)
    at_stage spawned h =
        let e = some_inj h in (omega (arith, ap running_count e), omega (arith, ap spawned_count e))
    at_stage running h = absurd (none-ne-some h)
    at_stage returned h = absurd (none-ne-some h)
start_task-Starts (suc i) (t ∷ ts) ts' e = elim (Option-cases (start_task i ts)) [
  | inl nothing ↦ absurd (none-ne-some (sym (ap (put t) nothing) ∙ e))
  | inr (us, found) ↦
      let same = some_inj (sym (ap (put t) found) ∙ e) in
      let (h, k) = start_task-Starts i ts us found in
      (omega (arith, ap running_count same, h), omega (arith, ap spawned_count same, k))
]

pub finish_task-Ends :
    (i : ℕ) (ts : List Task) (x : String × List Task) → finish_task i ts ≡ some x → Ends ts x.1
unfolding finish_task running_count spawned_count
finish_task-Ends i [] x e = absurd (none-ne-some e)
finish_task-Ends zero (t ∷ ts) x e = at_stage t.stage e
  where
    at_stage :
        (s : Stage)
        → (elim s as (λ x. Option (String × List Task)) [
          | running ↦ some (t.id, record t { stage = returned } ∷ ts)
          | spawned ↦ none
          | returned ↦ none
        ])
          ≡ some x
        → (running_count x.1 + 1 ≡ one_if_running s + running_count ts)
          × (spawned_count x.1 ≡ one_if_spawned s + spawned_count ts)
    at_stage running h =
        let e = ap (λ y. y.1) (some_inj h) in
        (omega (arith, ap running_count e), omega (arith, ap spawned_count e))
    at_stage spawned h = absurd (none-ne-some h)
    at_stage returned h = absurd (none-ne-some h)
finish_task-Ends (suc i) (t ∷ ts) x e = elim (Option-cases (finish_task i ts)) [
  | inl nothing ↦ absurd (none-ne-some (sym (ap (put_behind t) nothing) ∙ e))
  | inr (y, found) ↦
      let same = ap (λ z. z.1) (some_inj (sym (ap (put_behind t) found) ∙ e)) in
      let (h, k) = finish_task-Ends i ts y found in
      (omega (arith, ap running_count same, h), omega (arith, ap spawned_count same, k))
]
