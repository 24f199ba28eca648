-- ===== src/Proxy/Connection/Sound.antt =====
-- The channels of the running requests are open, and no two requests share one.
use mathlib.Core.Bool.{true≢false}
use substrate_rpc_proxy.Dto.{RpcFrame}
use substrate_rpc_proxy.Prelude.{
  ℕ, suc, ◌≡◌, ◌≢◌, ◌⊎◌, inl, inr, refl, sym, ap, ◌∙◌, none, some, Option, All, String, Bool, true,
  false, List, [], ◌∷◌, Option, ◌&&◌, arith, Option-cases, Bool-cases,
}
use substrate_rpc_proxy.Proxy.Connection.Entries.{
  IsOpen, IsOther, IsSound, All-delete, load-All, IsApart-delete, delete-load-IsOther,
  put-IsOpen_others, put-IsOpen, fresh,
}
use substrate_rpc_proxy.Proxy.Connection.{
  Channel, vacant, holding, closed, is_closed, close, RequestPayload, ProxiedConnection, load,
  delete, sent, store_and_write, drop_duplicate, upstream_write, receive, abandon, retry_loop,
  retry_running_requests, panicked, deliver, push, handle_upstream_response, poll_round, Action,
  writes, reads, abandons, polls, after_receive, perform, perform_all, new_connection, PollEvent,
  parent_closed, message, read_failed, is_recoverable,
}

sent-IsSound :
    (accepted : Bool) (b : String) (pc : ProxiedConnection)
    → IsSound pc
    → IsSound (sent accepted b pc)
sent-IsSound true b pc s = record { open_entries = s.open_entries; apart = s.apart }
sent-IsSound false b pc s = s

upstream_write-IsSound :
    (id : ℕ) (b : String) (accepted : Bool) (pc : ProxiedConnection)
    → IsSound pc
    → IsSound ((upstream_write id b accepted pc).1)
unfolding upstream_write store_and_write drop_duplicate
upstream_write-IsSound id b accepted pc s = elim (Option-cases (load id pc.requests)) [
  | inl e ↦
      let made =
        put-IsOpen pc.channels pc.next (suc pc.next) pc.next vacant pc.requests refl (omega arith)
          s.open_entries in
      rw (e, upstream_write)
        (sent-IsSound accepted b _ (record {
          open_entries = ((omega arith, ground arith), made);
          apart = (fresh pc.channels pc.next pc.requests s.open_entries, s.apart);
        }))
  | inr (p, e) ↦
      rw (e, upstream_write)
        (record {
          open_entries =
              put-IsOpen_others pc.channels pc.next p.ready (close (pc.channels p.ready))
                (delete id pc.requests) (delete-load-IsOther id pc.requests p e s.apart)
                (All-delete (IsOpen pc.channels pc.next) id pc.requests s.open_entries);
          apart = IsApart-delete id pc.requests s.apart;
        })
]

abandon-IsSound : (id : ℕ) (pc : ProxiedConnection) → IsSound pc → IsSound (abandon id pc)
unfolding abandon
abandon-IsSound id pc s = record {
  open_entries = All-delete (IsOpen pc.channels pc.next) id pc.requests s.open_entries;
  apart = IsApart-delete id pc.requests s.apart;
}

retry_loop-IsSound :
    (accepts : String → Bool) (xs : List (ℕ × RequestPayload)) (pc : ProxiedConnection)
    → IsSound pc
    → IsSound ((retry_loop accepts xs pc).1)
unfolding retry_loop
retry_loop-IsSound accepts [] pc s = s
retry_loop-IsSound accepts ((k, p) ∷ r) pc s =
    let rest =
      retry_loop-IsSound accepts r (sent true p.request pc) (sent-IsSound true p.request pc s) in
    elim (Bool-cases (accepts p.request)) [
      | inl e ↦ rw (e, retry_loop) rest
      | inr e ↦ rw (e, retry_loop) s
    ]

pub Channel-cases :
    (c : Channel)
    → (c ≡ vacant)
      ⊎ (((b : String) × (c ≡ holding b)) ⊎ ((rest : Option String) × (c ≡ closed rest)))
Channel-cases vacant = inl refl
Channel-cases (holding b) = inr (inl (b, refl))
Channel-cases (closed rest) = inr (inr (rest, refl))

-- A closed channel is that of no entry.
closed-IsOther :
    (channels : ℕ → Channel) (next c : ℕ) (xs : List (ℕ × RequestPayload))
    → is_closed (channels c) ≡ true
    → All (IsOpen channels next) xs
    → All (IsOther c) xs
closed-IsOther channels next c [] h _ = tt
closed-IsOther channels next c ((k, p) ∷ r) h ((lt, open_), os) = (
  λ same. true≢false (sym h ∙ ap (λ d. is_closed (channels d)) same ∙ open_),
  closed-IsOther channels next c r h os,
)

after_receive-IsSound :
    (parse : String → Option RpcFrame) (id ready : ℕ) (pc : ProxiedConnection)
    → IsSound pc
    → IsSound (after_receive parse pc (receive id ready pc))
unfolding receive
after_receive-IsSound parse id ready pc s =
    let less = abandon-IsSound id pc s in
    elim (Channel-cases (pc.channels ready)) [
      | inl e ↦ rw (e, receive) s
      | inr (inl (b, e)) ↦
          rw (e, receive)
            (record {
              open_entries =
                  put-IsOpen pc.channels pc.next pc.next ready vacant (delete id pc.requests) refl
                    (omega arith)
                    (All-delete (IsOpen pc.channels pc.next) id pc.requests s.open_entries);
              apart = IsApart-delete id pc.requests s.apart;
            })
      | inr (inr (none, e)) ↦
          rw (e, receive)
            (record {
              open_entries = All-delete (IsOpen pc.channels pc.next) id pc.requests s.open_entries;
              apart = IsApart-delete id pc.requests s.apart;
            })
      | inr (inr (some b, e)) ↦
          let left = All-delete (IsOpen pc.channels pc.next) id pc.requests s.open_entries in
          rw (e, receive)
            (record {
              open_entries =
                  put-IsOpen_others pc.channels pc.next ready (closed none) (delete id pc.requests)
                    (closed-IsOther pc.channels pc.next ready (delete id pc.requests)
                      (ap is_closed e) left)
                    left;
              apart = IsApart-delete id pc.requests s.apart;
            })
    ]

deliver-IsSound :
    (response : String) (p : RequestPayload) (pc : ProxiedConnection)
    → IsSound pc
    → IsSound ((deliver response p pc).1)
unfolding deliver
deliver-IsSound response p pc s = elim (Channel-cases (pc.channels p.ready)) [
  | inl e ↦
      rw (e, deliver)
        (record {
          open_entries =
              put-IsOpen pc.channels pc.next pc.next p.ready (holding response) pc.requests refl
                (omega arith) s.open_entries;
          apart = s.apart;
        })
  | inr (inl (b, e)) ↦ rw (e, deliver) s
  | inr (inr (rest, e)) ↦ rw (e, deliver) s
]

pub new-IsSound : IsSound new_connection
new-IsSound = record { open_entries = tt; apart = tt }

module _ (parse : String → Option RpcFrame) where
  handle-IsSound :
      (response : String) (accepted : Bool) (pc : ProxiedConnection)
      → IsSound pc
      → IsSound ((handle_upstream_response parse response accepted pc).1)
  unfolding handle_upstream_response push
  handle-IsSound response accepted pc s = elim (Option-cases (parse response)) [
    | inl e ↦ rw (e, handle_upstream_response) s
    | inr (f, e) ↦ elim (Option-cases (load f.id pc.requests)) [
      | inl l ↦
          rw (e, l, handle_upstream_response)
            (record { open_entries = s.open_entries; apart = s.apart })
      | inr (p, l) ↦ rw (e, l, handle_upstream_response) (deliver-IsSound response p pc s)
    ]
  ]

  poll_round-IsSound :
      (accepts : String → Bool) (e : PollEvent) (pc : ProxiedConnection)
      → IsSound pc
      → IsSound ((poll_round parse accepts e pc).1)
  unfolding poll_round retry_running_requests
  poll_round-IsSound accepts parent_closed pc s = s
  poll_round-IsSound accepts (message response accepted) pc s =
      handle-IsSound response accepted pc s
  poll_round-IsSound accepts (read_failed parent_done e connected) pc s =
      elim (Bool-cases (is_recoverable parent_done e pc && connected)) [
        | inl t ↦ rw (t, poll_round) (retry_loop-IsSound accepts pc.requests pc s)
        | inr t ↦ rw (t, poll_round) s
      ]

  pub perform_all-IsSound :
      (as' : List Action) (pc : ProxiedConnection) → IsSound pc → IsSound (perform_all parse as' pc)
  unfolding perform_all perform
  perform_all-IsSound [] pc s = s
  perform_all-IsSound (writes id b accepted ∷ as') pc s =
      perform_all-IsSound as' ((upstream_write id b accepted pc).1)
        (upstream_write-IsSound id b accepted pc s)
  perform_all-IsSound (reads id ready ∷ as') pc s =
      perform_all-IsSound as' (after_receive parse pc (receive id ready pc))
        (after_receive-IsSound parse id ready pc s)
  perform_all-IsSound (abandons id ∷ as') pc s =
      perform_all-IsSound as' (abandon id pc) (abandon-IsSound id pc s)
  perform_all-IsSound (polls accepts e ∷ as') pc s =
      perform_all-IsSound as' ((poll_round parse accepts e pc).1)
        (poll_round-IsSound accepts e pc s)

  IsSound-handle :
      (response : String) (accepted : Bool) (pc : ProxiedConnection)
      → IsSound pc
      → (handle_upstream_response parse response accepted pc).0 ≢ panicked
  unfolding handle_upstream_response push deliver
  IsSound-handle response accepted pc s = elim (Option-cases (parse response)) [
    | inl e ↦ λ q. cc (rw (e, handle_upstream_response) at q)
    | inr (f, e) ↦ elim (Option-cases (load f.id pc.requests)) [
      | inl l ↦ λ q. cc (rw (e, l, handle_upstream_response) at q)
      | inr (p, l) ↦
          let (k, (made, is_open)) =
            load-All (IsOpen pc.channels pc.next) f.id pc.requests p l s.open_entries in
          elim (Channel-cases (pc.channels p.ready)) [
            | inl c ↦ λ q. cc (rw (e, l, handle_upstream_response, c, deliver) at q)
            | inr (inl (b, c)) ↦ λ q. cc (rw (e, l, handle_upstream_response, c, deliver) at q)
            | inr (inr (rest, c)) ↦ absurd (true≢false (sym (ap is_closed c) ∙ is_open))
          ]
    ]
  ]

  -- With each method as one step: whatever the requests and the poll of a new connection have done, a
  -- response is never sent on a channel that is closed.
  pub handle_upstream_response-ne-panicked :
      (as' : List Action) (response : String) (accepted : Bool)
      → (handle_upstream_response parse response accepted (perform_all parse as' new_connection)).0
        ≢ panicked
  handle_upstream_response-ne-panicked as' response accepted =
      IsSound-handle response accepted (perform_all parse as' new_connection)
        (perform_all-IsSound as' new_connection new-IsSound)
