-- ===== src/Storage/Registration.antt =====
-- RegisterConsumer against the groups that Redis keeps.
use substrate_rpc_proxy.Dto.{StoredMessage}
use substrate_rpc_proxy.Prelude.{
  ◌≡◌, ◌⊎◌, inl, inr, refl, sym, ◌∙◌, ap, String, true, false, List, [], ◌∷◌, Option, none, some,
  str_eq, str_eq_self, if◌then◌else◌, Bool-cases, Option-cases,
}
use substrate_rpc_proxy.Storage.{
  Reply, reply, Redis, has_name, add_consumer, after_group, create_group, after_groups,
  register_consumer,
}

-- The groups of a stream, each with its consumers.
abbrev pub Groups : Type 0
Groups = List (String × List String)

unfoldable pub names : Groups → List String
names [] = []
names ((g, cs) ∷ gs) = g ∷ names gs

unfoldable pub consumers_of : String → Groups → Option (List String)
consumers_of group [] = none
consumers_of group ((g, cs) ∷ gs) = if str_eq group g then some cs else consumers_of group gs

-- A new consumer in a group.
unfoldable pub with_consumer : String → String → Groups → Groups
with_consumer group consumer [] = []
with_consumer group consumer ((g, cs) ∷ gs) =
    if str_eq group g then (g, consumer ∷ cs) ∷ gs else (g, cs) ∷ with_consumer group consumer gs

-- The groups once a consumer is registered, each missing part added and the rest kept.
unfoldable pub registered : String → String → Groups → Groups
unfolding consumers_of with_consumer has_name
registered group consumer gs = elim (consumers_of group gs) [
  | none ↦ (group, consumer ∷ []) ∷ gs
  | some cs ↦ if has_name consumer cs then gs else with_consumer group consumer gs
]

abbrev pub or_empty : Option Groups → Groups
or_empty none = []
or_empty (some gs) = gs

-- What Redis documents of the commands while it answers: `groups` are those of the stream, `none`
-- where there is no stream.
pub record Answers (r : Redis) (stream : String) : Type 1 where
  pub groups : r.World → Option Groups
  pub info_missing : (w : r.World) → groups w ≡ none → r.x_info_stream stream w ≡ (false, w)
  pub info_stream :
      (gs : Groups) (w : r.World) → groups w ≡ some gs → r.x_info_stream stream w ≡ (true, w)
  pub info_groups :
      (gs : Groups) (w : r.World)
      → groups w ≡ some gs
      → r.x_info_groups stream w ≡ (reply (names gs), w)
  pub info_consumers :
      (g : String) (gs : Groups) (cs : List String) (w : r.World)
      → groups w ≡ some gs
      → consumers_of g gs ≡ some cs
      → r.x_info_consumers stream g w ≡ (reply cs, w)
  pub create :
      (g : String) (w : r.World)
      → consumers_of g (or_empty (groups w)) ≡ none
      → (w' : r.World) × (r.x_group_create_mkstream stream g "0-0" w ≡ (reply tt, w'))
        × (groups w' ≡ some ((g, []) ∷ or_empty (groups w)))
  pub create_consumer :
      (g c : String) (gs : Groups) (cs : List String) (w : r.World)
      → groups w ≡ some gs
      → consumers_of g gs ≡ some cs
      → has_name c cs ≡ false
      → (w' : r.World) × (r.x_group_create_consumer stream g c w ≡ (reply tt, w'))
        × (groups w' ≡ some (with_consumer g c gs))

-- A group is listed exactly if it has consumers to list.
has_name-names :
    (group : String) (gs : Groups)
    → ((has_name group (names gs) ≡ false) × (consumers_of group gs ≡ none))
      ⊎ ((cs : List String) × (has_name group (names gs) ≡ true)
          × (consumers_of group gs ≡ some cs))
unfolding has_name names consumers_of
has_name-names group [] = inl (refl, refl)
has_name-names group ((g, cs) ∷ gs) = elim (Bool-cases (str_eq group g)) [
  | inl t ↦ inr (cs, rw t, rw t)
  | inr f ↦ elim (has_name-names group gs) [
    | inl (a, b) ↦ inl (rw f a, rw f b)
    | inr (ds, a, b) ↦ inr (ds, rw f a, rw f b)
  ]
]

consumers_of-new : (group : String) (gs : Groups) → consumers_of group ((group, []) ∷ gs) ≡ some []
unfolding consumers_of
consumers_of-new group gs = rw (str_eq_self group)

with_consumer-new :
    (group consumer : String) (gs : Groups)
    → with_consumer group consumer ((group, []) ∷ gs) ≡ (group, consumer ∷ []) ∷ gs
unfolding with_consumer
with_consumer-new group consumer gs = rw (str_eq_self group)

registered-missing :
    (group consumer : String) (o : Option Groups)
    → consumers_of group (or_empty o) ≡ none
    → some (registered group consumer (or_empty o)) ≡ some ((group, consumer ∷ []) ∷ or_empty o)
unfolding registered
registered-missing group consumer o h = rw (registered, h)

registered-there :
    (group consumer : String) (gs : Groups) (cs : List String) (o : Option Groups)
    → o ≡ some gs
    → consumers_of group gs ≡ some cs
    → some (registered group consumer (or_empty o))
      ≡ some (if has_name consumer cs then gs else with_consumer group consumer gs)
unfolding registered
registered-there group consumer gs cs o e h =
    ap (λ q. some (registered group consumer (or_empty q))) e ∙ rw (registered, h)

module _ (r : Redis) (marshal : StoredMessage → Reply String)
    (unmarshal : String → StoredMessage × Option String) (stream : String)
    (a : Answers r stream) where
  open a use {groups}

  -- The group is there.
  add_consumer-registered :
      (group consumer : String) (gs : Groups) (cs : List String) (w : r.World)
      → groups w ≡ some gs
      → consumers_of group gs ≡ some cs
      → (w' : r.World) × (after_group r marshal unmarshal stream group consumer (reply tt, w)
          ≡ (reply tt, w'))
        × (groups w' ≡ some (if has_name consumer cs then gs else with_consumer group consumer gs))
  unfolding after_group add_consumer
  add_consumer-registered group consumer gs cs w here found =
      elim (Bool-cases (has_name consumer cs)) [
        | inl t ↦ (w, rw (a.info_consumers group gs cs w here found, add_consumer, t), rw t here)
        | inr f ↦
            let (w', done, after) = a.create_consumer group consumer gs cs w here found f in
            (w', rw (a.info_consumers group gs cs w here found, add_consumer, f) done, rw f after)
      ]

  -- The group is missing.
  create_group-registered :
      (group consumer : String) (w : r.World)
      → consumers_of group (or_empty (groups w)) ≡ none
      → (w' : r.World) × (create_group r marshal unmarshal stream group consumer true w
          ≡ (reply tt, w'))
        × (groups w' ≡ some ((group, consumer ∷ []) ∷ or_empty (groups w)))
  unfolding create_group
  create_group-registered group consumer w missing =
      let gs = or_empty (groups w) in
      let (w', done, after) = a.create group w missing in
      let (w'', done', after') =
        add_consumer-registered group consumer ((group, []) ∷ gs) [] w' after
          (consumers_of-new group gs) in
      (
        w'',
        ap (λ q. after_group r marshal unmarshal stream group consumer q) done ∙ done',
        after' ∙ ap (λ q. some q) (with_consumer-new group consumer gs),
      )

  -- RegisterConsumer, while Redis answers, returns no error and leaves the groups of the stream with
  -- the consumer registered in the group: each of the stream, the group and the consumer is made if it
  -- is missing, and everything else is kept.
  pub register_consumer-registered :
      (group consumer : String) (w : r.World)
      → (w' : r.World) × (register_consumer r marshal unmarshal stream group consumer w
          ≡ (reply tt, w'))
        × (groups w' ≡ some (registered group consumer (or_empty (groups w))))
  unfolding register_consumer after_groups registered
  register_consumer-registered group consumer w = elim (Option-cases (groups w)) [
    | inl e ↦
        let missing : consumers_of group (or_empty (groups w)) ≡ none = rw (e, consumers_of) in
        let (w', done, after) = create_group-registered group consumer w missing in
        (
          w',
          rw (a.info_missing w e) done,
          after ∙ sym (registered-missing group consumer (groups w) missing),
        )
    | inr (gs, e) ↦ elim (has_name-names group gs) [
      | inl (absent, q) ↦
          let missing : consumers_of group (or_empty (groups w)) ≡ none = rw e q in
          let (w', done, after) = create_group-registered group consumer w missing in
          (
            w',
            rw (a.info_stream gs w e, a.info_groups gs w e, after_groups, absent) done,
            after ∙ sym (registered-missing group consumer (groups w) missing),
          )
      | inr (cs, there, q) ↦
          let (w', done, after) = add_consumer-registered group consumer gs cs w e q in
          (
            w',
            rw (a.info_stream gs w e, a.info_groups gs w e, after_groups, there, create_group) done,
            after ∙ sym (registered-there group consumer gs cs (groups w) e q),
          )
    ]
  ]
