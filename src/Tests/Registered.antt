-- ===== src/Tests/Registered.antt =====
-- RegisterConsumer on a Redis with one stream.
use substrate_rpc_proxy.Dto.{StoredMessage}
use substrate_rpc_proxy.Prelude.{
  ◌≡◌, ◌≤◌, ◌+◌, refl, ap, ◌∙◌, String, Bool, true, false, List, [], ◌∷◌, ◌++◌, arith, Option, none,
  some,
}
use substrate_rpc_proxy.Programs.Follow.{
  Follower, holding, returned, Happening, reads, dispatches, starts, returns, run, begin,
}
use substrate_rpc_proxy.Programs.Follow.Messages.{messages}
use substrate_rpc_proxy.Programs.Follow.Dispatched.{held, IsLive, Waits, run-messages}
use substrate_rpc_proxy.Programs.Follow.Limit.{IsPrompt, run-in_progress}
use substrate_rpc_proxy.Programs.Follow.Tasks.{running_count, spawned_count}
use substrate_rpc_proxy.Storage.{Entry, Reply, reply, Redis, register_consumer}
use substrate_rpc_proxy.Storage as Storage
use substrate_rpc_proxy.Storage.Registration.{
  Groups, names, consumers_of, with_consumer, or_empty, registered, Answers,
  register_consumer-registered,
}
use substrate_rpc_proxy.Storage.Queue.{Delivers, Encodes}
use substrate_rpc_proxy.Tests.Follow.{message}

-- A Redis whose state is the groups of its one stream.
abbrev names_in : Option Groups → List String
names_in none = []
names_in (some gs) = names gs

abbrev exists : Option Groups → Bool
exists none = false
exists (some gs) = true

abbrev or_no_group : Option (List String) → Reply (List String)
or_no_group none = Storage.failed "NOGROUP"
or_no_group (some cs) = reply cs

abbrev consumers_in : String → Option Groups → Reply (List String)
consumers_in group w = or_no_group (consumers_of group (or_empty w))

abbrev redis : Redis
redis = record {
  World = Option Groups;
  x_add = λ s n approx b w. (reply tt, w);
  x_info_stream = λ s w. (exists w, w);
  x_info_groups = λ s w. (reply (names_in w), w);
  x_info_consumers = λ s g w. (consumers_in g w, w);
  x_group_create_mkstream = λ s g from w. (reply tt, some ((g, []) ∷ or_empty w));
  x_group_create_consumer = λ s g c w. (reply tt, some (with_consumer g c (or_empty w)));
  x_pending = λ s g w. (some 0, w);
  x_pending_ext = λ s g idle n c w. (reply [], w);
  x_range = λ s a b w. ([], w);
  x_read_group = λ s g c n no_ack w. (reply [], w);
  x_ack = λ s g id w. (reply tt, w);
}

answers : Answers redis "extrinsics"
answers = record {
  groups = λ w. w;
  info_missing = λ w e. ap (λ o. (exists o, w)) e;
  info_stream = λ gs w e. ap (λ o. (exists o, w)) e;
  info_groups = λ gs w e. ap (λ o. (reply (names_in o), w)) e;
  info_consumers =
      λ g gs cs w e f. ap (λ o. (consumers_in g o, w)) e ∙ ap (λ o. (or_no_group o, w)) f;
  create = λ g w f. (some ((g, []) ∷ or_empty w), refl, refl);
  create_consumer = λ g c gs cs w e f h. (
    some (with_consumer g c (or_empty w)),
    refl,
    ap (λ o. some (with_consumer g c (or_empty o))) e,
  );
}

abbrev pub marshal : StoredMessage → Reply String
marshal m = reply "{}"

abbrev unmarshal : String → StoredMessage × Option String
unmarshal s = (message 1, none)

register_consumer-registered_example :
    (w' : Option Groups) × (register_consumer redis marshal unmarshal "extrinsics" "workers" "a"
        (some (("workers", []) ∷ []))
      ≡ (reply tt, w'))
    × (w' ≡ some (registered "workers" "a" (("workers", []) ∷ [])))
unfolding answers
register_consumer-registered_example =
    register_consumer-registered redis marshal unmarshal "extrinsics" answers "workers" "a"
      (some (("workers", []) ∷ []))

-- A Redis whose state is the queue of texts, and two messages.
abbrev oldest : List String → Reply (List (List Entry))
oldest [] = Storage.failed "redis: nil"
oldest (b ∷ bs) = reply ((record { id = "1-0"; message = some b } ∷ []) ∷ [])

abbrev behind : List String → List String
behind [] = []
behind (b ∷ bs) = bs

abbrev pub queue_redis : Redis
queue_redis = record {
  World = List String;
  x_add = λ s n approx b w. (reply tt, w ++ b ∷ []);
  x_info_stream = λ s w. (true, w);
  x_info_groups = λ s w. (reply [], w);
  x_info_consumers = λ s g w. (reply [], w);
  x_group_create_mkstream = λ s g from w. (reply tt, w);
  x_group_create_consumer = λ s g c w. (reply tt, w);
  x_pending = λ s g w. (some 0, w);
  x_pending_ext = λ s g idle n c w. (reply [], w);
  x_range = λ s a b w. ([], w);
  x_read_group = λ s g c n no_ack w. (oldest w, behind w);
  x_ack = λ s g id w. (reply tt, w);
}

unfoldable pub delivers : Delivers queue_redis "extrinsics" "workers"
delivers = record {
  queue = λ w. w;
  added = λ b w room. (w ++ b ∷ [], refl, refl);
  read = λ c b rest w e. ("1-0", behind w, ap (λ q. (oldest q, behind w)) e, ap behind e);
}

abbrev two_messages : List StoredMessage
two_messages = message 1 ∷ message 1 ∷ []

pub waits : Waits delivers
unfolding delivers
waits = record {
  idle = λ c w e. ("redis: nil", behind w, ap (λ q. (oldest q, behind w)) e, ap behind e);
  acked = λ id w. refl;
}

-- Both messages are read, and the first is followed to its end.
abbrev happenings : List Happening
happenings = reads ∷ dispatches ∷ starts 0 ∷ reads ∷ returns 0 ∷ []

abbrev afterwards : Follower (List String)
afterwards = record {
  world = [];
  loop = holding "1-0" (some (message 1));
  tasks = record { id = "1-0"; message = message 1; stage = returned } ∷ [];
  in_progress = 0;
}

happened :
    run queue_redis marshal unmarshal "extrinsics" "workers" "a" happenings
      (begin ("{}" ∷ "{}" ∷ []))
    ≡ some afterwards
unfolding run
happened = refl

run-messages_example :
    (ms : List StoredMessage) × Encodes queue_redis marshal unmarshal "extrinsics" "workers" "a" ms
      []
    × (messages afterwards.tasks ++ (held afterwards.loop ++ ms) ≡ two_messages)
    × IsLive afterwards.loop
unfolding delivers
run-messages_example =
    run-messages queue_redis marshal unmarshal "extrinsics" "workers" "a" delivers waits
      two_messages happenings ("{}" ∷ "{}" ∷ []) afterwards ((refl, refl), ((refl, refl), tt))
      happened

prompt :
    IsPrompt queue_redis marshal unmarshal "extrinsics" "workers" "a" 0 happenings
      (begin ("{}" ∷ "{}" ∷ []))
unfolding IsPrompt spawned_count
prompt = (tt, (omega arith, (tt, (tt, (tt, tt)))))

run-in_progress_example :
    (afterwards.in_progress ≡ running_count afterwards.tasks)
    × (afterwards.in_progress + spawned_count afterwards.tasks ≤ 1001 + 0)
run-in_progress_example =
    run-in_progress queue_redis marshal unmarshal "extrinsics" "workers" "a" 0 happenings
      ("{}" ∷ "{}" ∷ []) afterwards prompt happened
