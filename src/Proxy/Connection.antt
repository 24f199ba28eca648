-- ===== src/Proxy/Connection.antt =====
-- ProxiedConnection of cmd/proxy/handler/wsproxy.go. The map of running requests is an association
-- list and a channel is a number in a store, because an entry of the map and a waiting reader share
-- it. Each method is a step, and UpstreamRead is two: the lookup, and the end of its wait.
pub mod Entries
pub mod Sound
pub mod Answer
pub mod Race
use substrate_rpc_proxy.Dto.{RpcFrame}
use substrate_rpc_proxy.Prelude.{
  ℕ, suc, String, Bool, true, false, not, ◌&&◌, ◌||◌, List, [], ◌∷◌, ◌++◌, Option, none, some, ◌==◌,
  if◌then◌else◌,
}
use substrate_rpc_proxy.Prelude.Family.{put}

-- A channel with room for one response; a closed one keeps what it holds for its reader.
pub data Channel : Type 0 where
  vacant : Channel
  holding : String → Channel
  closed : Option String → Channel

abbrev pub is_closed : Channel → Bool
is_closed (closed rest) = true
is_closed _ = false

-- The channel after close; the second close of a channel panics.
abbrev pub close : Channel → Channel
close vacant = closed none
close (holding b) = closed (some b)
close (closed rest) = closed rest

pub record RequestPayload : Type 0 where
  pub request : String
  pub ready : ℕ

-- `channels` from `next` on are not made yet. `to_upstream` and `to_client` are the messages
-- written, the last one first.
pub record ProxiedConnection : Type 0 where
  pub requests : List (ℕ × RequestPayload)
  pub channels : ℕ → Channel
  pub next : ℕ
  pub unrecoverable : Bool
  pub to_upstream : List String
  pub to_client : List String

unfoldable pub load : ℕ → List (ℕ × RequestPayload) → Option RequestPayload
load id [] = none
load id ((k, p) ∷ r) = let rest = load id r in if k == id then some p else rest

unfoldable pub delete : ℕ → List (ℕ × RequestPayload) → List (ℕ × RequestPayload)
delete id [] = []
delete id ((k, p) ∷ r) = let rest = delete id r in if k == id then rest else (k, p) ∷ rest

pub data Written : Type 0 where
  written : Written
  duplicate : Written
  write_failed : Written

-- `upstreamConn.Write`, whose outcome is given.
abbrev pub sent : Bool → String → ProxiedConnection → ProxiedConnection
sent accepted b pc = if accepted then record pc { to_upstream = b ∷ pc.to_upstream } else pc

-- LoadOrStore found nothing.
unfoldable pub store_and_write : ℕ → String → Bool → ProxiedConnection → Written × ProxiedConnection
store_and_write id b accepted pc =
    let stored = record pc {
      requests = (id, record { request = b; ready = pc.next }) ∷ pc.requests;
      channels = put pc.channels (pc.next) vacant;
      next = suc (pc.next);
    } in
    (if not accepted && pc.unrecoverable then write_failed else written, sent accepted b stored)

-- LoadOrStore found `p`; Delete and close, which Race takes apart, are one step here.
unfoldable pub drop_duplicate : ℕ → RequestPayload → ProxiedConnection → ProxiedConnection
unfolding delete
drop_duplicate id p pc = record pc {
  requests = delete id pc.requests;
  channels = put pc.channels (p.ready) (close (pc.channels p.ready));
}

unfoldable pub upstream_write : ℕ → String → Bool → ProxiedConnection → Written × ProxiedConnection
unfolding load store_and_write drop_duplicate
upstream_write id b accepted pc = elim (load id pc.requests) [
  | none ↦ store_and_write id b accepted pc
  | some p ↦ (duplicate, drop_duplicate id p pc)
]

-- UpstreamRead's lookup: the channel to wait on.
unfoldable pub begin_read : ℕ → ProxiedConnection → Option ℕ
unfolding load
begin_read id pc = elim (load id pc.requests) [ none ↦ none | some p ↦ some p.ready ]

-- The end of UpstreamRead: a response, where a closed channel that is empty gives no bytes and no error, or a
-- context that is done; `none` while the reader waits. The entry is deleted by its id.
unfoldable pub receive : ℕ → ℕ → ProxiedConnection → Option (String × ProxiedConnection)
unfolding delete
receive id ready pc =
    let pc' = record pc { requests = delete id pc.requests } in
    elim (pc.channels ready) [
      | vacant ↦ none
      | holding b ↦ some (b, record pc' { channels = put pc.channels ready vacant })
      | closed none ↦ some ("", pc')
      | closed (some b) ↦ some (b, record pc' { channels = put pc.channels ready (closed none) })
    ]

unfoldable pub abandon : ℕ → ProxiedConnection → ProxiedConnection
unfolding delete
abandon id pc = record pc { requests = delete id pc.requests }

-- The loop over the running requests, which ends at the first failed write.
unfoldable pub retry_loop :
    (String → Bool) → List (ℕ × RequestPayload) → ProxiedConnection → Bool × ProxiedConnection
retry_loop accepts [] pc = (true, pc)
retry_loop accepts ((k, p) ∷ r) pc =
    let rest = retry_loop accepts r (sent true p.request pc) in
    if accepts p.request then rest else (false, pc)

unfoldable pub retry_running_requests :
    (String → Bool) → ProxiedConnection → Bool × ProxiedConnection
unfolding retry_loop
retry_running_requests accepts pc = retry_loop accepts pc.requests pc

-- How a response is handled. A full channel blocks the poll, a closed one would make it panic.
pub data Handled : Type 0 where
  delivered : Handled
  pushed : Bool → Handled
  invalid : Handled
  blocked : Handled
  panicked : Handled

unfoldable pub deliver : String → RequestPayload → ProxiedConnection → Handled × ProxiedConnection
deliver response p pc = elim (pc.channels p.ready) [
  | vacant ↦ (delivered, record pc { channels = put pc.channels (p.ready) (holding response) })
  | holding b ↦ (blocked, pc)
  | closed rest ↦ (panicked, pc)
]

-- An upstream push; `accepted` is the outcome of the write to the client.
unfoldable pub push : String → Bool → ProxiedConnection → Handled × ProxiedConnection
push response accepted pc = (
  pushed accepted,
  record pc {
    unrecoverable = true;
    to_client = if accepted then response ∷ pc.to_client else pc.to_client;
  },
)

-- `parse` is ParsePayload, where it gives a frame.
unfoldable pub handle_upstream_response :
    (String → Option RpcFrame) → String → Bool → ProxiedConnection → Handled × ProxiedConnection
unfolding load deliver push
handle_upstream_response parse response accepted pc = elim (parse response) [
  | none ↦ (invalid, pc)
  | some f ↦ elim (load f.id pc.requests) [
    | some p ↦ deliver response p pc
    | none ↦ push response accepted pc
  ]
]

pub data ReadError : Type 0 where
  context_canceled : ReadError
  deadline_exceeded : ReadError
  broken : ReadError

unfoldable pub is_recoverable : Bool → ReadError → ProxiedConnection → Bool
is_recoverable parent_done context_canceled pc = false
is_recoverable parent_done deadline_exceeded pc = false
is_recoverable parent_done broken pc = not parent_done && not pc.unrecoverable

-- What one round of `poll` meets: the parent context, a message, or a failed read with the outcome
-- of the new connection.
pub data PollEvent : Type 0 where
  parent_closed : PollEvent
  message : String → Bool → PollEvent
  read_failed : Bool → ReadError → Bool → PollEvent

-- After a send on a full channel the poll does not come back.
abbrev pub goes_on : Handled → Bool
goes_on delivered = true
goes_on (pushed accepted) = accepted
goes_on _ = false

-- One round: whether the loop goes on. Nothing is written before a new connection is there.
unfoldable pub poll_round :
    (String → Option RpcFrame)
    → (String → Bool)
    → PollEvent
    → ProxiedConnection
    → Bool × ProxiedConnection
unfolding handle_upstream_response is_recoverable retry_running_requests
poll_round parse accepts parent_closed pc = (false, pc)
poll_round parse accepts (message response accepted) pc =
    let (handled, pc') = handle_upstream_response parse response accepted pc in
    (goes_on handled, pc')
poll_round parse accepts (read_failed parent_done e connected) pc =
    if is_recoverable parent_done e pc && connected
    then retry_running_requests accepts pc
    else (false, pc)

-- GetOrCreateUpstreamConnection makes it.
abbrev pub new_connection : ProxiedConnection
new_connection = record {
  requests = [];
  channels = λ c. vacant;
  next = 0;
  unrecoverable = false;
  to_upstream = [];
  to_client = [];
}

-- What the goroutines of the requests and of the poll do, in any order.
pub data Action : Type 0 where
  writes : ℕ → String → Bool → Action
  reads : ℕ → ℕ → Action
  abandons : ℕ → Action
  polls : (String → Bool) → PollEvent → Action

module _ (parse : String → Option RpcFrame) where
  abbrev pub after_receive :
      ProxiedConnection → Option (String × ProxiedConnection) → ProxiedConnection
  after_receive pc none = pc
  after_receive pc (some (b, pc')) = pc'

  unfoldable pub perform : Action → ProxiedConnection → ProxiedConnection
  unfolding upstream_write receive abandon poll_round
  perform (writes id b accepted) pc = (upstream_write id b accepted pc).1
  perform (reads id ready) pc = after_receive pc (receive id ready pc)
  perform (abandons id) pc = abandon id pc
  perform (polls accepts e) pc = (poll_round parse accepts e pc).1

  unfoldable pub perform_all : List Action → ProxiedConnection → ProxiedConnection
  unfolding perform
  perform_all [] pc = pc
  perform_all (a ∷ as') pc = perform_all as' (perform a pc)
