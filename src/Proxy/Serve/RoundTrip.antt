-- ===== src/Proxy/Serve/RoundTrip.antt =====
-- From a client's request to the message that the client gets.
use substrate_rpc_proxy.Dto.{RpcFrame}
use substrate_rpc_proxy.Prelude.{
  ℕ, ◌≡◌, ◌≢◌, refl, String, Bool, true, List, [], ◌∷◌, Option, none, some, arith, eq_iff,
}
use substrate_rpc_proxy.Proxy.Connection.{
  ProxiedConnection, Written, written, upstream_write, store_and_write, begin_read, receive,
  handle_upstream_response,
}
use substrate_rpc_proxy.Proxy.Connection as Connection
use substrate_rpc_proxy.Proxy.Connection.Answer.{
  answered, asked-fields, upstream_write-free, upstream_write-answered, ==_self,
}
use substrate_rpc_proxy.Proxy.Handler.{Outside, Proxied, load, delete, store, get_or_create}
use substrate_rpc_proxy.Proxy.Serve as Serve
use substrate_rpc_proxy.Proxy.Serve.{
  waiting, ready_to_read, after_write, lookup_channel, after_found, start_websocket,
  finish_websocket, write_response,
}

load-delete_other :
    (id other : String) (r : List (String × Proxied))
    → other ≢ id
    → load other (delete id r) ≡ load other r
unfolding load delete
load-delete_other id other [] n = refl
load-delete_other id other ((k, p) ∷ r) n =
    ground (arith, eq_iff k id, eq_iff k other, load-delete_other id other r n)

load-store_other :
    (id other : String) (p : Proxied) (r : List (String × Proxied))
    → other ≢ id
    → load other (store id p r) ≡ load other r
unfolding store load
load-store_other id other p r n = ground (arith, eq_iff id other, load-delete_other id other r n)

load-store_self :
    (id : String) (p : Proxied) (r : List (String × Proxied)) → load id (store id p r) ≡ some p
unfolding store load
load-store_self id p r = ground (arith, eq_iff id id)

module _ (parse : String → Option RpcFrame) where
  begin_read-asked :
      (id : ℕ) (b : String) (sends : Bool) (pc : ProxiedConnection)
      → Connection.load id pc.requests ≡ none
      → begin_read id (upstream_write id b sends pc).1 ≡ some pc.next
  unfolding begin_read Connection.load
  begin_read-asked id b sends pc free =
      rw ((asked-fields parse id b sends pc free).0, begin_read, ==_self id)

  after_write-asked :
      (id : ℕ) (b : String) (pc : ProxiedConnection)
      → Connection.load id pc.requests ≡ none
      → after_write id (upstream_write id b true pc) ≡ waiting pc.next
  unfolding after_write store_and_write
  after_write-asked id b pc free =
      let reader : begin_read id (store_and_write id b true pc).1 ≡ some pc.next =
        rw (upstream_write-free parse id b true pc free) at (begin_read-asked id b true pc free) in
      rw (upstream_write-free parse id b true pc free, reader)

  finish_websocket-receive :
      (id ready : ℕ) (response : String) (pc r : ProxiedConnection)
      → receive id ready pc ≡ some (response, r)
      → (finish_websocket id ready ready_to_read true pc).0 ≡ Serve.answered response
  unfolding finish_websocket
  finish_websocket-receive id ready response pc r e = rw (e, finish_websocket)

  -- A client with an upstream connection sends a request whose id is not running, and the upstream
  -- takes it: the request waits, a response with its id is the message that the client gets, and
  -- the connections of the other clients stay as they were.
  pub start_websocket-answered :
      (out : Outside) (cid : String) (id : ℕ) (body response : String) (writes : Bool)
      (f : RpcFrame) (table : List (String × Proxied)) (w : out.World) (p : Proxied)
      → load cid table ≡ some p
      → Connection.load id p.connection.requests ≡ none
      → parse response ≡ some f
      → f.id ≡ id
      → let started = start_websocket out cid id body true table w in
        (started.0.0 ≡ waiting p.connection.next)
        × ((q : Proxied) × (load cid started.0.1 ≡ some q)
            × ((finish_websocket id p.connection.next ready_to_read true
                  (handle_upstream_response parse response writes q.connection).1).0
                ≡ Serve.answered response))
        × ((other : String) → other ≢ cid → load other started.0.1 ≡ load other table)
  unfolding start_websocket after_found get_or_create finish_websocket
  start_websocket-answered out cid id body response writes f table w p known free parsed same =
      let reply =
        upstream_write-answered parse id body response true writes f p.connection free parsed
          same in
      rw (known, start_websocket, get_or_create)
        (
          after_write-asked id body p.connection free,
          (
            record p { connection = (upstream_write id body true p.connection).1 },
            load-store_self cid _ table,
            finish_websocket-receive id p.connection.next response
                (answered parse id body true response writes p.connection) reply.1.0 reply.1.1,
          ),
          λ other n. load-store_other cid other _ table n,
        )
