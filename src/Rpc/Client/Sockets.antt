-- ===== src/Rpc/Client/Sockets.antt =====
-- RPCClient.GetAliveServer, openWSConnection, closeWSConnection and WithConnection, and the two
-- subscriptions of the client. The websocket library is a parameter.
use substrate_rpc_proxy.Dto.{RpcFrame}
use substrate_rpc_proxy.Dto.Mapped.{null}
use substrate_rpc_proxy.Endpoint.Choice.{get_alive_endpoint}
use substrate_rpc_proxy.Endpoint.Rating.{Upstreams}
use substrate_rpc_proxy.Prelude.{ℕ, String, Option, none, some, str_eq, if◌then◌else◌}
use substrate_rpc_proxy.Rpc.Client.Calls.{request}
use substrate_rpc_proxy.Rpc.Client.Connections.{
  Failure, Result, ok, err, Broker, Network, Session, connection_name, get_or_create_connection,
}

-- The status that a socket is closed with.
pub data Status : Type 0 where
  normal_closure internal_error : Status

-- Dial and Close of the library; a Close of a socket that is closed is an error, which nobody looks at.
pub record Sockets : Type 1 where
  pub World : Type 0
  pub dial : String → World → Result ℕ × World
  pub close : ℕ → Status → World → World

-- What ends a call: a result, or the panic of a provider that has no address.
pub data Ended : Type 0 where
  done : Ended
  failed_with : Failure → Ended
  panicked : Ended

module _ (at : ℕ → Upstreams) (rand : ℕ → ℕ → ℕ) (net : Sockets) where
  open net use {World}

  unfoldable pub get_alive_server : String → Option String
  unfolding get_alive_endpoint
  get_alive_server kind = get_alive_endpoint at rand kind 1

  unfoldable pub server_or_alive : String → Option String
  unfolding get_alive_server
  server_or_alive server = if str_eq server "" then get_alive_server "websocket" else some server

  -- `none` is the panic.
  unfoldable pub open_ws_connection : String → World → Option (Result ℕ × World)
  unfolding server_or_alive
  open_ws_connection server w = elim (server_or_alive server) [
    | none ↦ none
    | some address ↦ some (net.dial address w)
  ]

  -- The deferred Close runs last.
  unfoldable pub close_ws_connection : ℕ → World → World
  close_ws_connection c w = net.close c internal_error (net.close c normal_closure w)

  abbrev pub ended : Option Failure → Ended
  ended none = done
  ended (some e) = failed_with e

  unfoldable pub after_open :
      (ℕ → World → Option Failure × World) → Option (Result ℕ × World) → World → Ended × World
  unfolding close_ws_connection
  after_open act none before = (panicked, before)
  after_open act (some (err e, w)) before = (failed_with e, w)
  after_open act (some (ok c, w)) before =
      let (error, w') = act c w in (ended error, close_ws_connection c w')

  unfoldable pub with_connection :
      String → (ℕ → World → Option Failure × World) → World → Ended × World
  unfolding open_ws_connection after_open
  with_connection server act w = after_open act (open_ws_connection server w) w

-- The client's subscriptions: `subscribe` is that of a connection, in Rpc/Broker/Subscriptions.antt.
module _ (net : Network) {R : Type 0} (subscribe : Broker → RpcFrame → net.World → R × net.World)
    (refuse : Failure → R) where
  unfoldable pub after_connect : String → Result Broker × Session net.World → R × Session net.World
  after_connect method (err e, s) = (refuse e, s)
  after_connect method (ok conn, s) =
      let (r, w) = subscribe conn (request method null) s.world in (r, record s { world = w })

  unfoldable pub chain_subscribe_new_head :
      Option String → Session net.World → R × Session net.World
  unfolding after_connect get_or_create_connection
  chain_subscribe_new_head name s =
      after_connect "chain_subscribeNewHead" (get_or_create_connection net (connection_name name) s)

  unfoldable pub chain_subscribe_justifications :
      Option String → Session net.World → R × Session net.World
  unfolding after_connect get_or_create_connection
  chain_subscribe_justifications name s =
      after_connect "grandpa_subscribeJustifications"
        (get_or_create_connection net (connection_name name) s)
