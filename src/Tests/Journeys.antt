-- ===== src/Tests/Journeys.antt =====
-- A submission from the proxy's client to a goroutine of the consumer program.
use mathlib.Core.List.{Permᴰ}
use mathlib.Core.List.Permᴰ as Orders
use mathlib.Core.Path.{subst}
use substrate_rpc_proxy.Middleware.Deny.{equal_fold}
use substrate_rpc_proxy.Dto.{StoredMessage, RpcFrame}
use substrate_rpc_proxy.Prelude.{
  ℕ, ◌≡◌, ◌++◌, refl, eq_iff, String, List, [], ◌∷◌, Option, none, some, false, arith,
}
use substrate_rpc_proxy.Programs.Follow.{
  Follower, holding, returned, Happening, reads, dispatches, starts, returns, run, begin,
}
use substrate_rpc_proxy.Programs.Follow.Messages.{messages}
use substrate_rpc_proxy.Programs.Follow.Dispatched.{held}
use substrate_rpc_proxy.Programs.Journey.{oldest_first, route_all, accepted, frames, journey}
use substrate_rpc_proxy.Rpc.Client.Connections.{get_or_create_connection, store, connection_name}
use substrate_rpc_proxy.Storage.Queue.{Encodes, log_all}
use substrate_rpc_proxy.Substrate.Inspector.{Inspector, new_inspector}
use substrate_rpc_proxy.Tests.Extension.{scale, names}
use substrate_rpc_proxy.Tests.Recorded.{flaky, session_at, submit, data_of, settings, wanted}
use substrate_rpc_proxy.Tests.Registered.{queue_redis, marshal, delivers, waits}

-- Two requests within the five seconds of one header.
abbrev requests : List (ℕ × RpcFrame)
requests = (100, submit) ∷ (101, submit) ∷ []

abbrev fresh : Inspector ℕ
fresh = new_inspector (session_at 1)

abbrev seen : StoredMessage
seen = record {
  rpc_frame = submit;
  extrinsic = record data_of { first_seen_block_no = 7 };
  contains_extrinsic = false;
}

stored_in_order :
    oldest_first (route_all settings scale flaky names [] requests fresh).stored ≡ seen ∷ seen ∷ []
unfolding route_all oldest_first store connection_name get_or_create_connection
stored_in_order = refl

forwarded : accepted settings scale flaky names [] requests ≡ submit ∷ submit ∷ []
unfolding accepted equal_fold
forwarded = refl

abbrev unmarshal : String → StoredMessage × Option String
unmarshal s = (seen, none)

-- The first message is followed to its end, and the loop holds the second.
abbrev happenings : List Happening
happenings = reads ∷ dispatches ∷ starts 0 ∷ reads ∷ returns 0 ∷ []

abbrev afterwards : Follower (List String)
afterwards = record {
  world = [];
  loop = holding "1-0" (some seen);
  tasks = record { id = "1-0"; message = seen; stage = returned } ∷ [];
  in_progress = 0;
}

happened :
    run queue_redis marshal unmarshal "extrinsics" "workers" "a" happenings
      (begin ("{}" ∷ "{}" ∷ []))
    ≡ some afterwards
unfolding run
happened = refl

logged :
    log_all queue_redis marshal unmarshal "extrinsics" "workers" "a" (seen ∷ seen ∷ []) []
    ≡ some ("{}" ∷ "{}" ∷ [])
unfolding log_all
logged = refl

journey_example :
    (ms : List StoredMessage) × Encodes queue_redis marshal unmarshal "extrinsics" "workers" "a" ms
      []
    × Permᴰ
        (accepted settings scale flaky names [] requests)
        (frames (messages afterwards.tasks ++ (held afterwards.loop ++ ms)))
unfolding delivers
journey_example =
    journey settings scale flaky names [] queue_redis marshal unmarshal "extrinsics" "workers" "a"
      delivers waits requests fresh refl refl
      (
        (wanted, (data_of, refl), λ e. cc ((eq_iff "2.0" "extensions/get-storage/1.0").1 e)),
        ((wanted, (data_of, refl), λ e. cc ((eq_iff "2.0" "extensions/get-storage/1.0").1 e)), tt),
      )
      (seen ∷ seen ∷ [])
      (subst (Permᴰ (oldest_first (route_all settings scale flaky names [] requests fresh).stored))
        stored_in_order (Orders.refl _))
      ("{}" ∷ "{}" ∷ []) [] ("{}" ∷ "{}" ∷ []) ((refl, refl), ((refl, refl), tt)) refl (omega arith)
      logged happenings afterwards happened
