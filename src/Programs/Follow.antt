-- ===== src/Programs/Follow.antt =====
-- The loop of cmd/consumer/main.go: messages are read from the stream one at a time, and each is
-- followed by a goroutine, of which the loop starts no more while over 1000 are in progress. The steps
-- of the loop and of the goroutines come in any order; a sleep is the time in which others step. A
-- goroutine takes two: it counts itself, and, when it is done with its message, which is the subject of
-- Consumer.antt, it acknowledges it and counts down. The extrinsic of a stored message is not nil.
pub mod Tasks
pub mod Messages
pub mod Limit
pub mod Dispatched
use substrate_rpc_proxy.Dto.{StoredMessage}
use substrate_rpc_proxy.Prelude.{
  ℕ, zero, suc, ◌+◌, ◌-◌, String, List, [], ◌∷◌, ◌++◌, Option, none, some, ltb, if◌then◌else◌,
}
use substrate_rpc_proxy.Storage.{
  Reply, Redis, Consumed, consumed, nothing_new, consume_failed, consume_panicked, consume,
  ack_message,
}

-- Between two calls of Consume the loop has an id and a message, which may be nil; without one, it
-- reads msg.Extrinsic.Hash of nil.
pub data Loop : Type 0 where
  reading : Loop
  holding : String → Option StoredMessage → Loop
  crashed : Loop

-- The goroutine counts itself in InProgress when it starts to run.
pub data Stage : Type 0 where
  spawned running returned : Stage

pub record Task : Type 0 where
  pub id : String
  pub message : StoredMessage
  pub stage : Stage

pub record Follower (W : Type 0) : Type 0 where
  pub world : W
  pub loop : Loop
  pub tasks : List Task
  pub in_progress : ℕ

abbrev pub busy_limit : ℕ
busy_limit = 1000

abbrev pub new_task : String → StoredMessage → Task
new_task id m = record { id = id; message = m; stage = spawned }

-- consumer.InProgress++ of the goroutine with this number.
unfoldable pub start_task : ℕ → List Task → Option (List Task)
start_task i [] = none
start_task zero (t ∷ ts) = elim t.stage [
  | spawned ↦ some (record t { stage = running } ∷ ts)
  | _ ↦ none
]
start_task (suc i) (t ∷ ts) = elim (start_task i ts) [ none ↦ none | some ts' ↦ some (t ∷ ts') ]

-- The goroutine returns, with the id of its message.
unfoldable pub finish_task : ℕ → List Task → Option (String × List Task)
finish_task i [] = none
finish_task zero (t ∷ ts) = elim t.stage [
  | running ↦ some (t.id, record t { stage = returned } ∷ ts)
  | _ ↦ none
]
finish_task (suc i) (t ∷ ts) = elim (finish_task i ts) [
  | none ↦ none
  | some x ↦ some (x.0, t ∷ x.1)
]

-- What can happen next; the tasks are numbered in their order.
pub data Happening : Type 0 where
  reads dispatches : Happening
  starts returns : ℕ → Happening

module _ (r : Redis) (marshal : StoredMessage → Reply String)
    (unmarshal : String → StoredMessage × Option String) (stream group consumer : String) where
  open r use {World}

  -- After an error the loop sleeps and reads again.
  unfoldable pub after_consume : Follower World → Consumed × World → Follower World
  after_consume s (consumed id m, w) = record s { world = w; loop = holding id (some m) }
  after_consume s (nothing_new, w) = record s { world = w; loop = holding "" none }
  after_consume s (consume_failed e, w) = record s { world = w }
  after_consume s (consume_panicked, w) = record s { world = w; loop = crashed }

  -- The loop over InProgress is left.
  unfoldable pub dispatch : Loop → Follower World → Option (Follower World)
  dispatch (holding id (some m)) s =
      if ltb busy_limit s.in_progress
      then none
      else some (record s { loop = reading; tasks = s.tasks ++ new_task id m ∷ [] })
  dispatch (holding id none) s =
      if ltb busy_limit s.in_progress then none else some (record s { loop = crashed })
  dispatch _ s = none

  -- `none` is a step that cannot happen now.
  unfoldable pub step : Happening → Follower World → Option (Follower World)
  unfolding after_consume dispatch start_task finish_task consume
  step reads s = elim s.loop [
    | reading ↦ some (after_consume s (consume r marshal unmarshal stream group consumer s.world))
    | _ ↦ none
  ]
  step dispatches s = dispatch s.loop s
  step (starts i) s = elim (start_task i s.tasks) [
    | none ↦ none
    | some ts ↦ some (record s { tasks = ts; in_progress = s.in_progress + 1 })
  ]
  step (returns i) s = elim (finish_task i s.tasks) [
    | none ↦ none
    | some (id, ts) ↦ some (record s {
      world = (ack_message r marshal unmarshal stream group id s.world).1;
      tasks = ts;
      in_progress = s.in_progress - 1;
    })
  ]

  unfoldable pub run : List Happening → Follower World → Option (Follower World)
  unfolding step
  run [] s = some s
  run (h ∷ hs) s = elim (step h s) [ none ↦ none | some s' ↦ run hs s' ]

-- The program when its loop begins.
abbrev pub begin : {W : Type 0} → W → Follower W
begin w = record { world = w; loop = reading; tasks = []; in_progress = 0 }
