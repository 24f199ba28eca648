-- ===== src/Programs/Follow/Dispatched.antt =====
-- Which messages the goroutines follow.
use mathlib.Core.List.{append_assoc}
use mathlib.Core.Path.{subst}
use substrate_rpc_proxy.Dto.{StoredMessage}
use substrate_rpc_proxy.Prelude.{
  ◌≡◌, refl, sym, ap, ◌∙◌, ◌⊎◌, inl, inr, String, true, List, [], ◌∷◌, ◌++◌, Option, none, some,
  none-ne-some, some_inj, ltb, Option-cases, Bool-cases,
}
use substrate_rpc_proxy.Programs.Follow.{
  Loop, reading, holding, crashed, Follower, busy_limit, start_task, finish_task, Happening, reads,
  dispatches, starts, returns, after_consume, dispatch, step, run, begin,
}
use substrate_rpc_proxy.Storage.{
  Reply, failed, Redis, Consumed, consume_failed, consume, after_read_group,
}
use substrate_rpc_proxy.Storage.Queue.{Delivers, Encodes, consume-oldest}
use substrate_rpc_proxy.Programs.Follow.Messages.{
  messages, messages-new, start_task-messages, finish_task-messages,
}

-- The message that the loop holds.
abbrev pub held : Loop → List StoredMessage
held (holding id (some m)) = m ∷ []
held _ = []

-- The loop has not crashed and will not: it holds no nil.
abbrev pub IsLive : Loop → Type 0
IsLive reading = Unit
IsLive (holding id (some m)) = Unit
IsLive _ = ⊥

-- What Redis documents beyond Delivers: a read of a group that has got all entries waits and, where the
-- wait ends, is an error; an acknowledgement leaves what the group has not got yet.
pub record Waits {r : Redis} {stream group : String} (d : Delivers r stream group) : Type 1 where
  pub idle :
      (consumer : String) (w : r.World)
      → d.queue w ≡ []
      → (e : String) × (w' : r.World) × (r.x_read_group stream group consumer 1 true w
          ≡ (failed e, w'))
        × (d.queue w' ≡ [])
  pub acked : (id : String) (w : r.World) → d.queue ((r.x_ack stream group id w).1) ≡ d.queue w

module _ (r : Redis) (marshal : StoredMessage → Reply String)
    (unmarshal : String → StoredMessage × Option String) (stream group consumer : String)
    (d : Delivers r stream group) (waits : Waits d) (all : List StoredMessage) where
  open r use {World}

  -- The messages that are followed, the one that the loop holds and those that the group has yet to get
  -- are all messages, in their order.
  abbrev IsInOrder : Follower World → Type 0
  IsInOrder s =
      (ms : List StoredMessage) × Encodes r marshal unmarshal stream group consumer ms
        (d.queue s.world)
      × (messages s.tasks ++ (held s.loop ++ ms) ≡ all)
      × IsLive s.loop

  -- The equation after the loop has read.
  abbrev Reads : Follower World → Consumed × World → Type 0
  Reads s x = IsInOrder (after_consume r marshal unmarshal stream group consumer s x)

  consume-failed :
      (e : String) (w w' : World)
      → r.x_read_group stream group consumer 1 true w ≡ (failed e, w')
      → consume r marshal unmarshal stream group consumer w ≡ (consume_failed e, w')
  unfolding consume after_read_group
  consume-failed e w w' got = rw (consume, got, after_read_group)

  read-IsInOrder :
      (s : Follower World) (ms : List StoredMessage) (bs : List String)
      → Encodes r marshal unmarshal stream group consumer ms bs
      → d.queue s.world ≡ bs
      → messages s.tasks ++ ms ≡ all
      → s.loop ≡ reading
      → Reads s (consume r marshal unmarshal stream group consumer s.world)
  unfolding after_consume
  read-IsInOrder s [] [] h q e l =
      let (text, w', got, after) = waits.idle consumer s.world q in
      subst (Reads s) (sym (consume-failed text s.world w' got)) (
        [],
        subst (Encodes r marshal unmarshal stream group consumer []) (sym after) tt,
        ap (λ x. messages s.tasks ++ (held x ++ [])) l ∙ e,
        subst IsLive (sym l) tt,
      )
  read-IsInOrder s [] (b ∷ bs) h q e l = absurd h
  read-IsInOrder s (m ∷ ms) [] h q e l = absurd h
  read-IsInOrder s (m ∷ ms) (b ∷ bs) h q e l =
      let (id, w', got, after) =
        consume-oldest r marshal unmarshal stream group consumer d m b bs s.world h.0.1 q in
      subst (Reads s) (sym got)
        (ms, subst (Encodes r marshal unmarshal stream group consumer ms) (sym after) h.1, e, tt)

  dispatch-IsInOrder :
      (l : Loop) (s s' : Follower World) (ms : List StoredMessage)
      → Encodes r marshal unmarshal stream group consumer ms (d.queue s.world)
      → messages s.tasks ++ (held l ++ ms) ≡ all
      → IsLive l
      → dispatch r marshal unmarshal stream group consumer l s ≡ some s'
      → IsInOrder s'
  unfolding dispatch
  dispatch-IsInOrder reading s s' ms q h live e = absurd (none-ne-some e)
  dispatch-IsInOrder crashed s s' ms q h live e = absurd live
  dispatch-IsInOrder (holding id none) s s' ms q h live e = absurd live
  dispatch-IsInOrder (holding id (some m)) s s' ms q h live e =
      elim (Bool-cases (ltb busy_limit s.in_progress)) [
        | inl full ↦ absurd (none-ne-some (rw (dispatch, full) at e))
        | inr free ↦ subst IsInOrder (some_inj (rw (dispatch, free) at e)) (
          ms,
          q,
          ap (λ x. x ++ ms) (messages-new s.tasks id m)
              ∙ append_assoc (messages s.tasks) (m ∷ []) ms
              ∙ h,
          tt,
        )
      ]

  -- The loop is reading, or a read cannot happen.
  loop_cases :
      (l : Loop)
      → (l ≡ reading)
        ⊎ ((A : Option (Follower World))
            → (elim l as (λ x. Option (Follower World)) [
              | reading ↦ A
              | holding id m ↦ none
              | crashed ↦ none
            ])
              ≡ none)
  loop_cases reading = inl refl
  loop_cases (holding id m) = inr (λ A. refl)
  loop_cases crashed = inr (λ A. refl)

  step-IsInOrder :
      (x : Happening) (s s' : Follower World)
      → IsInOrder s
      → step r marshal unmarshal stream group consumer x s ≡ some s'
      → IsInOrder s'
  unfolding step
  step-IsInOrder reads s s' (ms, q, h, live) e = elim (loop_cases s.loop) [
    | inl l ↦ subst IsInOrder (some_inj (rw (step, l) at e)) (
        read-IsInOrder s ms (d.queue s.world) q refl
          (ap (λ x. messages s.tasks ++ (held x ++ ms)) (sym l) ∙ h) l)
    | inr other ↦ absurd (none-ne-some (sym (other _) ∙ e))
  ]
  step-IsInOrder dispatches s s' (ms, q, h, live) e = dispatch-IsInOrder s.loop s s' ms q h live e
  step-IsInOrder (starts i) s s' (ms, q, h, live) e = elim (Option-cases (start_task i s.tasks)) [
    | inl nothing ↦ absurd (none-ne-some (rw (step, nothing) at e))
    | inr (ts, found) ↦ subst IsInOrder (some_inj (rw (step, found) at e)) (
      ms,
      q,
      ap (λ x. x ++ (held s.loop ++ ms)) (start_task-messages i s.tasks ts found) ∙ h,
      live,
    )
  ]
  step-IsInOrder (returns i) s s' (ms, q, h, live) e = elim (Option-cases (finish_task i s.tasks)) [
    | inl nothing ↦ absurd (none-ne-some (rw (step, nothing) at e))
    | inr (x, found) ↦ subst IsInOrder (some_inj (rw (step, found) at e)) (
      ms,
      subst (Encodes r marshal unmarshal stream group consumer ms) (sym (waits.acked x.0 s.world))
          q,
      ap (λ y. y ++ (held s.loop ++ ms)) (finish_task-messages i s.tasks x found) ∙ h,
      live,
    )
  ]

  run-IsInOrder :
      (xs : List Happening) (s s' : Follower World)
      → IsInOrder s
      → run r marshal unmarshal stream group consumer xs s ≡ some s'
      → IsInOrder s'
  unfolding run
  run-IsInOrder [] s s' h e = subst IsInOrder (some_inj e) h
  run-IsInOrder (x ∷ xs) s s' h e =
      elim (Option-cases (step r marshal unmarshal stream group consumer x s)) [
        | inl nothing ↦ absurd (none-ne-some (rw (run, nothing) at e))
        | inr (s1, found) ↦
            run-IsInOrder xs s1 s' (step-IsInOrder x s s1 h found) (rw (run, found) at e)
      ]

  -- While Redis answers and the JSON library reads the messages back: at any time after the consumer's
  -- loop began on a stream with these messages, those that goroutines follow, the one that the
  -- loop holds and those that the group has not got yet are, in this order, exactly these messages, each
  -- of them once; and the loop has not crashed and holds no nil.
  pub run-messages :
      (xs : List Happening) (w : World) (s : Follower World)
      → Encodes r marshal unmarshal stream group consumer all (d.queue w)
      → run r marshal unmarshal stream group consumer xs (begin w) ≡ some s
      → (ms : List StoredMessage) × Encodes r marshal unmarshal stream group consumer ms
          (d.queue s.world)
        × (messages s.tasks ++ (held s.loop ++ ms) ≡ all)
        × IsLive s.loop
  run-messages xs w s q e = run-IsInOrder xs (begin w) s (all, q, refl, tt) e
