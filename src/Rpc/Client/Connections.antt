-- ===== src/Rpc/Client/Connections.antt =====
-- RPCClient.GetOrCreateConnection, ReleaseConnection and RawRequest: named connections that are
-- reused while they work.
pub mod Reuse
use substrate_rpc_proxy.Dto.{RpcFrame, RpcError, Block}
use substrate_rpc_proxy.Prelude.{
  ℕ, String, Bool, true, false, not, List, [], ◌∷◌, Option, none, some, str_eq, if◌then◌else◌,
}
use substrate_rpc_proxy.Rpc.BlockCache.{BlockCache}

-- An error is passed on from the network, or made of the error of an RPC response.
pub data Failure : Type 0 where
  failed : String → Failure
  refused : RpcError → Failure

pub data Result (A : Type 0) : Type 0 where
  ok : A → Result A
  err : Failure → Result A

-- WSMessageBroker, as far as the client looks at it: the socket, and the error that ended its
-- read loop.
pub record Broker : Type 0 where
  pub ws : ℕ
  pub err : Option Failure

-- The network: `dial` opens a socket to an alive endpoint, `ws_request` is one request with its
-- response, `parse_frame` is the JSON decoder. `World` is all that they depend on.
pub record Network : Type 1 where
  pub World : Type 0
  pub dial : World → Result ℕ × World
  pub close : ℕ → World → World
  pub ws_request : Broker → RpcFrame → World → Result RpcFrame × World
  pub parse_frame : String → Result RpcFrame

-- `w.connections.Load`
unfoldable pub load : String → List (String × Broker) → Option Broker
load name [] = none
load name ((k, b) ∷ r) = if str_eq k name then some b else load name r

-- `w.connections.Delete`
unfoldable pub delete : String → List (String × Broker) → List (String × Broker)
delete name [] = []
delete name ((k, b) ∷ r) = if str_eq k name then delete name r else (k, b) ∷ delete name r

-- `w.connections.Store`
unfoldable pub store : String → Broker → List (String × Broker) → List (String × Broker)
unfolding delete
store name b m = (name, b) ∷ delete name m

-- The value under the connection's key in a context, or the default name.
abbrev pub default_connection : String
default_connection = "default"

unfoldable pub connection_name : Option String → String
connection_name none = default_connection
connection_name (some name) = name

pub record Session (W : Type 0) : Type 0 where
  pub cache : BlockCache
  pub connections : List (String × Broker)
  pub world : W

-- A step of the client: it may fail, and keeps the state that it reached.
abbrev pub M : Type 0 → Type 0 → Type 0
M W A = Session W → Result A × Session W

abbrev pub continue : {W A B : Type 0} → Result A × Session W → (A → M W B) → Result B × Session W
continue (ok a, s) f = f a s
continue (err e, s) f = (err e, s)

infixl 5 ◌>>=◌
abbrev pub ◌>>=◌ : {W A B : Type 0} → M W A → (A → M W B) → M W B
◌>>=◌ m f s = continue (m s) f

abbrev pub return : {W A : Type 0} → A → M W A
return a s = (ok a, s)

-- `if conn.err == nil`
abbrev pub works : Broker → Bool
works b = elim (b.err) [ none ↦ true | some _ ↦ false ]

module _ (net : Network) where
  open net use {World, dial, close, ws_request, parse_frame}

  -- The end of GetOrCreateConnection: a new socket is stored under the name.
  store_dialled : String → Session World → Result ℕ × World → Result Broker × Session World
  store_dialled name s (ok ws, w) =
      let b : Broker = record { ws = ws; err = none } in
      (ok b, record s { connections = store name b s.connections; world = w })
  store_dialled name s (err e, w) = (err e, record s { world = w })

  unfoldable pub open_connection : String → Session World → Result Broker × Session World
  unfolding store_dialled
  open_connection name s = store_dialled name s (dial s.world)

  -- closeWSConnection, with the failed connection taken out of the table.
  drop_failed : String → Broker → Session World → Session World
  drop_failed name b s = record s {
    connections = delete name s.connections;
    world = close b.ws s.world;
  }

  unfoldable pub get_or_create_connection : String → M World Broker
  unfolding open_connection drop_failed load
  get_or_create_connection name s = elim (load name s.connections) [
    | none ↦ open_connection name s
    | some b ↦ if works b then (ok b, s) else open_connection name (drop_failed name b s)
  ]

  unfoldable pub release_connection : Option String → Session World → Session World
  unfolding drop_failed load
  release_connection name s = elim (load (connection_name name) s.connections) [
    | none ↦ s
    | some b ↦ drop_failed (connection_name name) b s
  ]

  -- WSRequest on a connection.
  abbrev pub exchange : Broker → RpcFrame → M World RpcFrame
  exchange b f s = let (r, w) = ws_request b f s.world in (r, record s { world = w })

  -- A message that does not parse is an error, after the connection was made.
  unfoldable pub raw_request : Option String → String → M World RpcFrame
  unfolding get_or_create_connection
  raw_request name msg = do
    conn ← get_or_create_connection (connection_name name)
    frame ← (λ s. (parse_frame msg, s))
    exchange conn frame
