-- ===== src/Storage.antt =====
-- DBClient of pkg/storage/redis.go: the stream of stored messages and its consumer groups. The
-- commands of the Redis library and the JSON library are parameters. A reply that is an error has the
-- error's text; the id of an entry is its text.
pub mod Registration
pub mod Queue
use substrate_rpc_proxy.Dto.{StoredMessage}
use substrate_rpc_proxy.Prelude.{
  ℕ, zero, suc, String, Bool, true, false, ◌||◌, List, [], ◌∷◌, ◌++◌, Option, none, some, not,
  str_eq, length, ◌==◌, if◌then◌else◌,
}

pub data Reply (A : Type 0) : Type 0 where
  reply : A → Reply A
  failed : String → Reply A

-- An entry of a stream, with `Values["message"]` where that is a text.
pub record Entry : Type 0 where
  pub id : String
  pub message : Option String

-- XAdd, XInfoStream (whether it returns a description), XInfoGroups and XInfoConsumers (the names),
-- XGroupCreateMkStream, XGroupCreateConsumer, XPending (the count, `none` for the nil that Val
-- returns after an error), XPendingExt, XRange (what Val returns), XReadGroup with NoAck, XAck.
pub record Redis : Type 1 where
  pub World : Type 0
  pub x_add : String → ℕ → Bool → String → World → Reply Unit × World
  pub x_info_stream : String → World → Bool × World
  pub x_info_groups : String → World → Reply (List String) × World
  pub x_info_consumers : String → String → World → Reply (List String) × World
  pub x_group_create_mkstream : String → String → String → World → Reply Unit × World
  pub x_group_create_consumer : String → String → String → World → Reply Unit × World
  pub x_pending : String → String → World → Option ℕ × World
  pub x_pending_ext : String → String → ℕ → ℕ → String → World → Reply (List String) × World
  pub x_range : String → String → String → World → List Entry × World
  pub x_read_group : String → String → String → ℕ → Bool → World → Reply (List (List Entry)) × World
  pub x_ack : String → String → String → World → Reply Unit × World

-- The loop over the names that Redis lists.
unfoldable pub has_name : String → List String → Bool
has_name name [] = false
has_name name (n ∷ ns) = str_eq name n || has_name name ns

pub data Consumed : Type 0 where
  consumed : String → StoredMessage → Consumed
  nothing_new : Consumed
  consume_failed : String → Consumed
  consume_panicked : Consumed

pub data PendingMessages : Type 0 where
  pending : List String → List StoredMessage → PendingMessages
  pending_failed : String → PendingMessages
  pending_panicked : PendingMessages

-- `marshal` is jsoniter.Marshal; `unmarshal` gives the message as far as it is filled, and the error.
module _ (r : Redis) (marshal : StoredMessage → Reply String)
    (unmarshal : String → StoredMessage × Option String) (stream : String) where
  open r use {World}

  unfoldable pub log_marshalled : Reply String → World → Reply Unit × World
  log_marshalled (failed e) w = (failed e, w)
  log_marshalled (reply b) w = r.x_add stream 8000 true b w

  unfoldable pub log_message : StoredMessage → World → Reply Unit × World
  unfolding log_marshalled
  log_message message w = log_marshalled (marshal message) w

  -- The part of RegisterConsumer from the reply to XInfoConsumers.
  unfoldable pub add_consumer : String → String → Reply (List String) × World → Reply Unit × World
  unfolding has_name
  add_consumer group consumer (failed e, w) = (failed e, w)
  add_consumer group consumer (reply names, w) =
      if has_name consumer names
      then (reply tt, w)
      else r.x_group_create_consumer stream group consumer w

  -- From `createConsumer := true`, behind the reply to the group's creation.
  unfoldable pub after_group : String → String → Reply Unit × World → Reply Unit × World
  unfolding add_consumer
  after_group group consumer (failed e, w) = (failed e, w)
  after_group group consumer (reply _, w) =
      add_consumer group consumer (r.x_info_consumers stream group w)

  unfoldable pub create_group : String → String → Bool → World → Reply Unit × World
  unfolding after_group
  create_group group consumer create w =
      if create
      then after_group group consumer (r.x_group_create_mkstream stream group "0-0" w)
      else after_group group consumer (reply tt, w)

  unfoldable pub after_groups : String → String → Reply (List String) × World → Reply Unit × World
  unfolding create_group has_name
  after_groups group consumer (failed e, w) = (failed e, w)
  after_groups group consumer (reply names, w) =
      create_group group consumer (not (has_name group names)) w

  unfoldable pub register_consumer : String → String → World → Reply Unit × World
  unfolding after_groups create_group
  register_consumer group consumer w =
      let (exists, w') = r.x_info_stream stream w in
      if exists
      then after_groups group consumer (r.x_info_groups stream w')
      else create_group group consumer true w'

  -- `[0].Values["message"].(string)`; `none` panics.
  abbrev pub first_message : List Entry → Option String
  first_message [] = none
  first_message (e ∷ es) = e.message

  -- The loop over the pending ids; an entry is read a second time for its text.
  unfoldable pub read_entries :
      List String → List String → List StoredMessage → World → PendingMessages × World
  read_entries [] ids msgs w = (pending ids msgs, w)
  read_entries (p ∷ ps) ids msgs w =
      let (first, w1) = r.x_range stream p p w in
      let (again, w2) = r.x_range stream p p w1 in
      let skipped = read_entries ps ids msgs w1 in
      if length first == 1
      then elim (first_message again) [
        | none ↦ (pending_panicked, w2)
        | some raw ↦ read_entries ps (ids ++ p ∷ []) (msgs ++ (unmarshal raw).0 ∷ []) w2
      ]
      else skipped

  unfoldable pub after_pending : Reply (List String) × World → PendingMessages × World
  unfolding read_entries
  after_pending (failed e, w) = (pending_failed e, w)
  after_pending (reply ids, w) = read_entries ids [] [] w

  -- `idle` is the duration.
  unfoldable pub read_pending_messages : String → String → ℕ → World → PendingMessages × World
  unfolding after_pending
  read_pending_messages group consumer idle w =
      let (count, w') = r.x_pending stream group w in
      elim count [
        | none ↦ (pending_panicked, w')
        | some n ↦ after_pending (r.x_pending_ext stream group idle n consumer w')
      ]

  unfoldable pub consume_raw : String → StoredMessage × Option String → Consumed
  consume_raw id (msg, some e) = consume_failed e
  consume_raw id (msg, none) = consumed id msg

  -- The first message of the first stream.
  unfoldable pub after_read_group : Reply (List (List Entry)) → Consumed
  unfolding consume_raw
  after_read_group (failed e) = consume_failed e
  after_read_group (reply ((m ∷ ms) ∷ streams)) = elim m.message [
    | none ↦ consume_panicked
    | some raw ↦ consume_raw m.id (unmarshal raw)
  ]
  after_read_group (reply streams) = nothing_new

  -- One message, without the wait for an acknowledgement.
  unfoldable pub consume : String → String → World → Consumed × World
  unfolding after_read_group
  consume group consumer w =
      let (streams, w') = r.x_read_group stream group consumer 1 true w in
      (after_read_group streams, w')

  abbrev pub ack_message : String → String → World → Reply Unit × World
  ack_message group id w = r.x_ack stream group id w
