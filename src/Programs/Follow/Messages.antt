-- ===== src/Programs/Follow/Messages.antt =====
-- The messages of the goroutines do not change while they run.
use substrate_rpc_proxy.Dto.{StoredMessage}
use substrate_rpc_proxy.Prelude.{
  ℕ, zero, suc, ◌≡◌, refl, sym, ap, ◌∙◌, inl, inr, String, List, [], ◌∷◌, ◌++◌, map, Option, none,
  some, none-ne-some, some_inj, Option-cases,
}
use substrate_rpc_proxy.Programs.Follow.{
  Stage, spawned, running, returned, Task, new_task, start_task, finish_task,
}
use substrate_rpc_proxy.Programs.Follow.Tasks.{put, put_behind}

abbrev pub messages : List Task → List StoredMessage
messages ts = map (λ t. t.message) ts

pub messages-new :
    (ts : List Task) (id : String) (m : StoredMessage)
    → messages (ts ++ new_task id m ∷ []) ≡ messages ts ++ m ∷ []
messages-new [] id m = refl
messages-new (t ∷ ts) id m = ap (λ r. t.message ∷ r) (messages-new ts id m)

pub start_task-messages :
    (i : ℕ) (ts ts' : List Task) → start_task i ts ≡ some ts' → messages ts' ≡ messages ts
unfolding start_task
start_task-messages i [] ts' e = absurd (none-ne-some e)
start_task-messages zero (t ∷ ts) ts' e = at_stage t.stage e
  where
    at_stage :
        (s : Stage)
        → (elim s as (λ x. Option (List Task)) [
          | spawned ↦ some (record t { stage = running } ∷ ts)
          | running ↦ none
          | returned ↦ none
        ])
          ≡ some ts'
        → messages ts' ≡ t.message ∷ messages ts
    at_stage spawned h = ap messages (sym (some_inj h))
    at_stage running h = absurd (none-ne-some h)
    at_stage returned h = absurd (none-ne-some h)
start_task-messages (suc i) (t ∷ ts) ts' e = elim (Option-cases (start_task i ts)) [
  | inl nothing ↦ absurd (none-ne-some (sym (ap (put t) nothing) ∙ e))
  | inr (us, found) ↦
      ap messages (sym (some_inj (sym (ap (put t) found) ∙ e)))
      ∙ ap (λ r. t.message ∷ r) (start_task-messages i ts us found)
]

pub finish_task-messages :
    (i : ℕ) (ts : List Task) (x : String × List Task)
    → finish_task i ts ≡ some x
    → messages x.1 ≡ messages ts
unfolding finish_task
finish_task-messages i [] x e = absurd (none-ne-some e)
finish_task-messages zero (t ∷ ts) x e = at_stage t.stage e
  where
    at_stage :
        (s : Stage)
        → (elim s as (λ x. Option (String × List Task)) [
          | running ↦ some (t.id, record t { stage = returned } ∷ ts)
          | spawned ↦ none
          | returned ↦ none
        ])
          ≡ some x
        → messages x.1 ≡ t.message ∷ messages ts
    at_stage running h = ap (λ y. messages y.1) (sym (some_inj h))
    at_stage spawned h = absurd (none-ne-some h)
    at_stage returned h = absurd (none-ne-some h)
finish_task-messages (suc i) (t ∷ ts) x e = elim (Option-cases (finish_task i ts)) [
  | inl nothing ↦ absurd (none-ne-some (sym (ap (put_behind t) nothing) ∙ e))
  | inr (y, found) ↦
      ap (λ z. messages z.1) (sym (some_inj (sym (ap (put_behind t) found) ∙ e)))
      ∙ ap (λ r. t.message ∷ r) (finish_task-messages i ts y found)
]
