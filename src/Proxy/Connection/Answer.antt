-- ===== src/Proxy/Connection/Answer.antt =====
-- From a request to its response.
use mathlib.Core.Path.{subst}
use substrate_rpc_proxy.Dto.{RpcFrame}
use substrate_rpc_proxy.Prelude.{
  ℕ, ◌≡◌, inl, inr, refl, sym, ◌∙◌, ap, String, Bool, true, false, List, [], ◌∷◌, Option, none,
  some, ◌==◌, arith, Bool-cases, none-ne-some, All,
}
use substrate_rpc_proxy.Prelude.Family.{put}
use substrate_rpc_proxy.Proxy.Connection.{
  Channel, vacant, holding, RequestPayload, ProxiedConnection, load, delete, upstream_write,
  store_and_write, begin_read, receive, retry_loop, retry_running_requests, sent, deliver,
  handle_upstream_response,
}

delete-load : (id : ℕ) (xs : List (ℕ × RequestPayload)) → load id xs ≡ none → delete id xs ≡ xs
unfolding load delete
delete-load id [] e = refl
delete-load id ((k, p) ∷ r) e = elim (Bool-cases (k == id)) [
  | inl t ↦ absurd (none-ne-some (sym (rw (t, load) at e)))
  | inr t ↦ rw (t, delete) (ap (λ x. (k, p) ∷ x) (delete-load id r (rw (t, load) at e)))
]

put-same : (f : ℕ → Channel) (c : ℕ) (a : Channel) → put f c a c ≡ a
put-same f c a = ground arith

pub ==_self : (n : ℕ) → (n == n) ≡ true
==_self n = ground arith

module _ (parse : String → Option RpcFrame) where
  deliver-receive :
      (id : ℕ) (response : String) (accepted : Bool) (f : RpcFrame) (p : RequestPayload)
      (pc : ProxiedConnection)
      → load id pc.requests ≡ some p
      → pc.channels p.ready ≡ vacant
      → parse response ≡ some f
      → f.id ≡ id
      → (begin_read id ((handle_upstream_response parse response accepted pc).1) ≡ some p.ready)
        × ((r : ProxiedConnection) × (receive id p.ready
                ((handle_upstream_response parse response accepted pc).1)
              ≡ some (response, r))
            × (r.requests ≡ delete id pc.requests)
            × (r.to_client ≡ pc.to_client))
  unfolding handle_upstream_response deliver receive begin_read
  deliver-receive id response accepted f p pc found empty parsed same =
      let found' : load f.id pc.requests ≡ some p = rw same found in
      let delivery : (handle_upstream_response parse response accepted pc).1
          ≡ record pc { channels = put pc.channels (p.ready) (holding response) } =
        rw (parsed, handle_upstream_response, found', empty, deliver) refl in
      subst
        (λ q.
          (begin_read id q ≡ some p.ready)
          × ((r : ProxiedConnection) × (receive id p.ready q ≡ some (response, r))
              × (r.requests ≡ delete id pc.requests)
              × (r.to_client ≡ pc.to_client)))
        (sym delivery)
        (rw (found, begin_read, put-same pc.channels p.ready (holding response), receive)
          (refl, (_, refl, refl, refl)))

  -- The connection after a request, and after its response.
  abbrev pub asked : ℕ → String → Bool → ProxiedConnection → ProxiedConnection
  asked id b sends pc = (upstream_write id b sends pc).1

  abbrev pub answered : ℕ → String → Bool → String → Bool → ProxiedConnection → ProxiedConnection
  answered id b sends response accepted pc =
      (handle_upstream_response parse response accepted (asked id b sends pc)).1

  pub upstream_write-free :
      (id : ℕ) (b : String) (sends : Bool) (pc : ProxiedConnection)
      → load id pc.requests ≡ none
      → upstream_write id b sends pc ≡ store_and_write id b sends pc
  unfolding upstream_write
  upstream_write-free id b sends pc free = rw (free, upstream_write) refl

  -- What a request with a free id changes for the readers and the client.
  abbrev pub AsksFor : ℕ → String → ProxiedConnection → ProxiedConnection → Type 0
  AsksFor id b pc q =
      (q.requests ≡ (id, record { request = b; ready = pc.next }) ∷ pc.requests)
      × (q.channels pc.next ≡ vacant)
      × (q.to_client ≡ pc.to_client)

  store_and_write-AsksFor :
      (id : ℕ) (b : String) (sends : Bool) (pc : ProxiedConnection)
      → AsksFor id b pc ((store_and_write id b sends pc).1)
  unfolding store_and_write
  store_and_write-AsksFor id b true pc = (refl, put-same pc.channels pc.next vacant, refl)
  store_and_write-AsksFor id b false pc = (refl, put-same pc.channels pc.next vacant, refl)

  pub asked-fields :
      (id : ℕ) (b : String) (sends : Bool) (pc : ProxiedConnection)
      → load id pc.requests ≡ none
      → AsksFor id b pc (asked id b sends pc)
  asked-fields id b sends pc free =
      subst (λ q. AsksFor id b pc (q.1)) (sym (upstream_write-free id b sends pc free))
        (store_and_write-AsksFor id b sends pc)

  -- A request whose id is not running, followed by a response with that id: the response is
  -- delivered to the reader, no matter how the writes end, and after the read the running requests
  -- are those from before.
  pub upstream_write-answered :
      (id : ℕ) (b response : String) (sends accepted : Bool) (f : RpcFrame) (pc : ProxiedConnection)
      → load id pc.requests ≡ none
      → parse response ≡ some f
      → f.id ≡ id
      → (begin_read id (answered id b sends response accepted pc) ≡ some pc.next)
        × ((r : ProxiedConnection) × (receive id pc.next (answered id b sends response accepted pc)
              ≡ some (response, r))
            × (r.requests ≡ pc.requests)
            × (r.to_client ≡ pc.to_client))
  unfolding upstream_write store_and_write load delete
  upstream_write-answered id b response sends accepted f pc free parsed same =
      let p : RequestPayload = record { request = b; ready = pc.next } in
      let (stored, made, silent) = asked-fields id b sends pc free in
      let running : load id (asked id b sends pc).requests ≡ some p =
        rw (stored, load, ==_self id) refl in
      let done : delete id (asked id b sends pc).requests ≡ pc.requests =
        rw (stored, delete, ==_self id) (delete-load id pc.requests free) in
      let (reader, (r, got, left, quiet)) =
        deliver-receive id response accepted f p (asked id b sends pc) running made parsed same in
      (reader, (r, got, left ∙ done, quiet ∙ silent))

-- The texts of the running requests, the last one first, on top of what was sent.
abbrev pub resent : List (ℕ × RequestPayload) → List String → List String
resent [] earlier = earlier
resent ((k, p) ∷ r) earlier = resent r (p.request ∷ earlier)

abbrev pub IsAccepted : (String → Bool) → ℕ × RequestPayload → Type 0
IsAccepted accepts (k, p) = accepts p.request ≡ true

retry_loop-resent :
    (accepts : String → Bool) (xs : List (ℕ × RequestPayload)) (pc : ProxiedConnection)
    → (retry_loop accepts xs pc).0 ≡ true
    → All (IsAccepted accepts) xs
      × ((retry_loop accepts xs pc).1 ≡ record pc { to_upstream = resent xs pc.to_upstream })
unfolding retry_loop
retry_loop-resent accepts [] pc e = (tt, refl)
retry_loop-resent accepts ((k, p) ∷ r) pc e = elim (Bool-cases (accepts p.request)) [
  | inl t ↦
      let (all, same) =
        retry_loop-resent accepts r (sent true p.request pc) (rw (t, retry_loop) at e) in
      ((t, all), rw (t, retry_loop) same)
  | inr t ↦ cc (rw (t, retry_loop) at e)
]

-- After a change of the upstream that succeeds, the new one has been sent the text of each running
-- request once, in order, and accepted all; nothing else has changed.
pub retry_running_requests-resent :
    (accepts : String → Bool) (pc : ProxiedConnection)
    → (retry_running_requests accepts pc).0 ≡ true
    → All (IsAccepted accepts) pc.requests
      × ((retry_running_requests accepts pc).1
          ≡ record pc { to_upstream = resent pc.requests pc.to_upstream })
unfolding retry_running_requests
retry_running_requests-resent accepts pc e = retry_loop-resent accepts pc.requests pc e
