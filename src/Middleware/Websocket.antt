-- ===== src/Middleware/Websocket.antt =====
-- pkg/middleware/websocket.go: which requests are websockets, the numbers of connections, and the
-- loop that makes a request of every message of a client. The acceptance of a websocket, its reads,
-- the next handler, which may cancel the connection, and the printed form of a connection's number
-- are parameters.
pub mod Loop
pub mod Numbers
use substrate_rpc_proxy.Dto.Mapped.{codes}
use substrate_rpc_proxy.Middleware.Deny.{equal_fold}
use substrate_rpc_proxy.Middleware.Headers.{Header, values}
use substrate_rpc_proxy.Prelude.{
  ℕ, zero, suc, ◌+◌, ◌%◌, ◌^◌, String, Bool, true, false, ◌&&◌, List, [], ◌∷◌, Option, none, some,
  if◌then◌else◌,
}

-- Header.Get: the first value, or the empty text.
unfoldable pub first_value : List String → String
first_value [] = ""
first_value (v ∷ vs) = v

unfoldable pub get_header : String → Header → String
unfolding first_value values
get_header key h = first_value (values key h)

-- `at_least_1_1` is r.ProtoAtLeast(1, 1).
unfoldable pub is_websocket : (ℕ → ℕ) → Bool → Header → Bool
unfolding get_header equal_fold
is_websocket fold at_least_1_1 h =
    at_least_1_1
    && equal_fold fold (get_header "Connection" h) "Upgrade"
    && equal_fold fold (get_header "Upgrade" h) "Websocket"

-- The values that AcceptConnection puts in a request's context.
pub data ConnectionType : Type 0 where
  http websocket : ConnectionType

pub record ClientContext : Type 0 where
  pub id : String
  pub connection_type : ConnectionType

-- GetClientConnectionType and GetConnectionID, in a context that may lack the values; `random` is the
-- identifier made of random bytes.
unfoldable pub get_client_connection_type : Option ClientContext → String
get_client_connection_type none = ""
get_client_connection_type (some c) = elim (c.connection_type) [
  | http ↦ "http"
  | websocket ↦ "websocket"
]

unfoldable pub get_connection_id : String → Option ClientContext → String
get_connection_id random none = random
get_connection_id random (some c) = c.id

-- The two uses of the shared counter by the request with a number: the addition, and later the read
-- for its identifier.
pub data Use : Type 0 where
  add_one : ℕ → Use
  read_number : ℕ → Use

-- `numbers` are the reads, the last one first.
pub record Counter : Type 0 where
  pub reqid : ℕ
  pub numbers : List (ℕ × ℕ)

unfoldable pub use_counter : Use → Counter → Counter
use_counter (add_one i) c = record c { reqid = (c.reqid + 1) % 2 ^ 64 }
use_counter (read_number i) c = record c { numbers = (i, c.reqid) ∷ c.numbers }

unfoldable pub use_all : List Use → Counter → Counter
unfolding use_counter
use_all [] c = c
use_all (u ∷ us) c = use_all us (use_counter u c)

module _ {W : Type 0} (read : W → Option String × W)
    (next : ClientContext → String → W → Bool × W) where
  -- At most `fuel` messages: `none` for a loop that still goes on. The Boolean of `next` says that
  -- the connection was cancelled.
  unfoldable pub read_loop : ClientContext → ℕ → W → Option W
  read_loop ctx zero w = none
  read_loop ctx (suc fuel) w =
      let (message, w') = read w in
      elim message [
        | none ↦ some w'
        | some b ↦
            let (cancelled, w'') = next ctx b w' in
            let rest = read_loop ctx fuel w'' in if cancelled then some w'' else rest
      ]

  -- `accepts` is the outcome of websocket.Accept; the answer is a status or the end of the loop.
  pub data Accepted : Type 0 where
    served_http : Bool × W → Accepted
    internal_error : Accepted
    closed : Option W → Accepted

  unfoldable pub accept_connection : (ℕ → String) → ℕ → Bool → Bool → String → ℕ → W → Accepted
  unfolding read_loop
  accept_connection printed number upgrade accepts body fuel w =
      let id = printed number in
      let plain = served_http (next (record { id = id; connection_type = http }) body w) in
      let looped = closed (read_loop (record { id = id; connection_type = websocket }) fuel w) in
      if upgrade then (if accepts then looped else internal_error) else plain
