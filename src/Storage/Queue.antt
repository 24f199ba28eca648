-- ===== src/Storage/Queue.antt =====
-- LogMessage and Consume as the two ends of a queue.
use mathlib.Core.List.{append_assoc, append-nil}
use substrate_rpc_proxy.Dto.{StoredMessage}
use substrate_rpc_proxy.Prelude.{
  ℕ, zero, suc, ◌+◌, ◌≤◌, ◌<◌, ◌≡◌, refl, sym, ◌∙◌, ap, String, true, List, [], ◌∷◌, ◌++◌, map,
  Option, none, some, length, length-append, arith,
}
use substrate_rpc_proxy.Storage.{
  Reply, reply, failed, Redis, Consumed, consumed, log_message, log_marshalled, consume,
  consume_raw, after_read_group,
}

-- What Redis documents of XADD and XREADGROUP while it answers: `queue` are the texts of the stream
-- that the group has not got yet, the oldest first; an addition keeps the newest 8000 entries.
pub record Delivers (r : Redis) (stream group : String) : Type 1 where
  pub queue : r.World → List String
  pub added :
      (b : String) (w : r.World)
      → length (queue w) < 8000
      → (w' : r.World) × (r.x_add stream 8000 true b w ≡ (reply tt, w'))
        × (queue w' ≡ queue w ++ b ∷ [])
  pub read :
      (consumer b : String) (rest : List String) (w : r.World)
      → queue w ≡ b ∷ rest
      → (id : String) × (w' : r.World) × (r.x_read_group stream group consumer 1 true w
          ≡ (reply ((record { id = id; message = some b } ∷ []) ∷ []), w'))
        × (queue w' ≡ rest)

module _ (r : Redis) (marshal : StoredMessage → Reply String)
    (unmarshal : String → StoredMessage × Option String) (stream group consumer : String) where
  open r use {World}

  -- The texts are those of the messages, and the JSON library reads them back.
  abbrev pub Encodes : List StoredMessage → List String → Type 0
  Encodes [] [] = Unit
  Encodes (m ∷ ms) (b ∷ bs) = ((marshal m ≡ reply b) × (unmarshal b ≡ (m, none))) × Encodes ms bs
  Encodes _ _ = ⊥

  abbrev after_reply : Reply Unit × World → Option World
  after_reply (reply _, w) = some w
  after_reply (failed e, w) = none

  -- All messages one after the other, until one fails.
  unfoldable pub log_all : List StoredMessage → World → Option World
  unfolding log_message
  log_all [] w = some w
  log_all (m ∷ ms) w = elim (after_reply (log_message r marshal unmarshal stream m w)) [
    | none ↦ none
    | some w' ↦ log_all ms w'
  ]

  abbrev pub message_in : Consumed → Option StoredMessage
  message_in (consumed id m) = some m
  message_in _ = none

  -- The messages of so many reads.
  unfoldable pub consume_all : ℕ → World → List (Option StoredMessage)
  unfolding consume
  consume_all zero w = []
  consume_all (suc n) w =
      let (c, w') = consume r marshal unmarshal stream group consumer w in
      message_in c ∷ consume_all n w'

  module _ (d : Delivers r stream group) where
    open d use {queue}

    log_message-added :
        (m : StoredMessage) (b : String) (w : World)
        → marshal m ≡ reply b
        → length (queue w) < 8000
        → (w' : World) × (log_message r marshal unmarshal stream m w ≡ (reply tt, w'))
          × (queue w' ≡ queue w ++ b ∷ [])
    unfolding log_message log_marshalled
    log_message-added m b w text room =
        let (w', done, after) = d.added b w room in
        (w', rw (log_message, text, log_marshalled) done, after)

    pub log_all-queue :
        (ms : List StoredMessage) (bs : List String) (w : World)
        → Encodes ms bs
        → length (queue w) + length ms ≤ 8000
        → (w' : World) × (log_all ms w ≡ some w') × (queue w' ≡ queue w ++ bs)
    unfolding log_all
    log_all-queue [] [] w h room = (w, refl, sym (append-nil (queue w)))
    log_all-queue [] (b ∷ bs) w h room = absurd h
    log_all-queue (m ∷ ms) [] w h room = absurd h
    log_all-queue (m ∷ ms) (b ∷ bs) w (h, hs) room =
        let (w1, done, after) = log_message-added m b w h.0 (omega arith) in
        let (w2, done', after') =
          log_all-queue ms bs w1 hs
            (omega (arith, ap length after, length-append (queue w) (b ∷ []))) in
        (
          w2,
          rw (log_all, done) done',
          after' ∙ ap (λ q. q ++ bs) after ∙ append_assoc (queue w) (b ∷ []) bs,
        )

    pub consume-oldest :
        (m : StoredMessage) (b : String) (rest : List String) (w : World)
        → unmarshal b ≡ (m, none)
        → queue w ≡ b ∷ rest
        → (id : String) × (w' : World) × (consume r marshal unmarshal stream group consumer w
            ≡ (consumed id m, w'))
          × (queue w' ≡ rest)
    unfolding consume after_read_group consume_raw
    consume-oldest m b rest w back e =
        let (id, w', got, after) = d.read consumer b rest w e in
        (
          id,
          w',
          rw (consume, got, after_read_group)
              (ap (λ q. (consume_raw r marshal unmarshal stream id q, w')) back),
          after,
        )

    consume_all-queue :
        (ms : List StoredMessage) (bs : List String) (w : World)
        → Encodes ms bs
        → queue w ≡ bs
        → consume_all (length ms) w ≡ map some ms
    unfolding consume_all
    consume_all-queue [] bs w h e = refl
    consume_all-queue (m ∷ ms) [] w h e = absurd h
    consume_all-queue (m ∷ ms) (b ∷ bs) w (h, hs) e =
        let (id, w', got, after) = consume-oldest m b bs w h.1 e in
        ap (λ x. message_in x.0 ∷ consume_all (length ms) x.1) got
        ∙ ap (λ q. some m ∷ q) (consume_all-queue ms bs w' hs after)

    -- At most 8000 messages, which the JSON library reads back as they were, are logged on an empty
    -- queue while Redis answers: all are taken, and so many reads of the consumer then give exactly
    -- these messages, in their order.
    pub consume_all-log_all :
        (ms : List StoredMessage) (bs : List String) (w : World)
        → Encodes ms bs
        → queue w ≡ []
        → length ms ≤ 8000
        → (w' : World) × (log_all ms w ≡ some w') × (consume_all (length ms) w' ≡ map some ms)
    consume_all-log_all ms bs w h empty few =
        let (w', done, after) = log_all-queue ms bs w h (omega (arith, ap length empty)) in
        (w', done, consume_all-queue ms bs w' h (after ∙ ap (λ q. q ++ bs) empty))
