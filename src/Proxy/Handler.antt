-- ===== src/Proxy/Handler.antt =====
-- WSProxyHandler of cmd/proxy/handler/wsproxy.go: the table of upstream connections by the id of the
-- client's connection, and the three tries of connect. The provider and the dialling of a websocket
-- are parameters; sleeping has no effect.
use substrate_rpc_proxy.Prelude.{
  ℕ, zero, suc, String, Bool, List, [], ◌∷◌, ◌++◌, Option, none, some, str_eq, if◌then◌else◌,
}
use substrate_rpc_proxy.Proxy.Connection.{ProxiedConnection, new_connection}

-- What `GetAliveEndpoint("websocket", 1)` returns, and whether a dial succeeds.
pub record Outside : Type 1 where
  pub World : Type 0
  pub alive_endpoint : World → String × World
  pub dial : String → World → Bool × World

-- A connection with the address of its upstream.
pub record Proxied : Type 0 where
  pub upstream : String
  pub connection : ProxiedConnection

-- `tried` are the addresses of the error.
pub data Dialled : Type 0 where
  connected : String → Dialled
  no_upstream : List String → Dialled

unfoldable pub load : String → List (String × Proxied) → Option Proxied
load id [] = none
load id ((k, p) ∷ r) = let rest = load id r in if str_eq k id then some p else rest

-- connections.Store, and connections.Delete at the end of a poll.
unfoldable pub delete : String → List (String × Proxied) → List (String × Proxied)
delete id [] = []
delete id ((k, p) ∷ r) = let rest = delete id r in if str_eq k id then rest else (k, p) ∷ rest

unfoldable pub store : String → Proxied → List (String × Proxied) → List (String × Proxied)
unfolding delete
store id p r = (id, p) ∷ delete id r

-- GetOrCreateUpstreamConnection returns a connection, or an error and the nil pointer.
pub data Found : Type 0 where
  found : Proxied → Found
  nil_with_error : List String → Found

module _ (out : Outside) where
  open out use {World, alive_endpoint, dial}

  -- `left` more tries.
  unfoldable pub connect_loop : ℕ → List String → World → Dialled × World
  connect_loop zero tries w = (no_upstream tries, w)
  connect_loop (suc left) tries w =
      let (url, w') = alive_endpoint w in
      let (accepted, w'') = dial url w' in
      let again = connect_loop left (tries ++ url ∷ []) w'' in
      if accepted then (connected url, w'') else again

  abbrev pub connect : World → Dialled × World
  connect w = connect_loop 3 [] w

  unfoldable pub after_connect :
      String → List (String × Proxied) → Dialled × World → (Found × List (String × Proxied)) × World
  unfolding store
  after_connect id table (connected url, w) =
      let p : Proxied = record { upstream = url; connection = new_connection } in
      ((found p, store id p table), w)
  after_connect id table (no_upstream tries, w) = ((nil_with_error tries, table), w)

  unfoldable pub get_or_create :
      String → List (String × Proxied) → World → (Found × List (String × Proxied)) × World
  unfolding load after_connect connect_loop
  get_or_create id table w = elim (load id table) [
    | some p ↦ ((found p, table), w)
    | none ↦ after_connect id table (connect w)
  ]
