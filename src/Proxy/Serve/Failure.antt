-- ===== src/Proxy/Serve/Failure.antt =====
-- What happens when no upstream can be reached.
use substrate_rpc_proxy.Prelude.{
  ℕ, zero, suc, ◌≡◌, ◌↔◌, ◌⊎◌, inl, inr, refl, sym, ◌∙◌, String, Bool, false, List, [], ◌∷◌, ◌++◌,
  none, Bool-cases, Option-cases, none-ne-some,
}
use substrate_rpc_proxy.Proxy.Connection.{
  ProxiedConnection, Written, written, duplicate, write_failed, begin_read, upstream_write,
  new_connection,
}
use substrate_rpc_proxy.Proxy.Handler.{
  Outside, Proxied, connected, no_upstream, load, connect_loop, after_connect, get_or_create,
}
use substrate_rpc_proxy.Proxy.Serve.{panicked, after_write, after_found, start_websocket}

module _ (out : Outside) where
  open out use {World, alive_endpoint, dial}

  -- The next `n` dials fail, each to the endpoint that is chosen then.
  abbrev pub Refuses : ℕ → World → Type 0
  Refuses zero w = Unit
  Refuses (suc n) w =
      let (url, w') = alive_endpoint w in ((dial url w').0 ≡ false) × Refuses n (dial url w').1

  connect_loop-Refuses :
      (n : ℕ) (tries : List String) (w : World)
      → ((l : List String) × ((connect_loop out n tries w).0 ≡ no_upstream l) × Refuses n w)
        ⊎ ((u : String) × ((connect_loop out n tries w).0 ≡ connected u) × (Refuses n w → ⊥))
  unfolding connect_loop
  connect_loop-Refuses zero tries w = inl (tries, refl, tt)
  connect_loop-Refuses (suc n) tries w =
      let url = (alive_endpoint w).0 in
      let w' = (alive_endpoint w).1 in
      elim (Bool-cases ((dial url w').0)) [
        | inl t ↦ inr (url, rw (t, connect_loop), λ r. cc)
        | inr f ↦ elim (connect_loop-Refuses n (tries ++ url ∷ []) (dial url w').1) [
          | inl (l, e, r) ↦ inl (l, rw (f, connect_loop) e, (f, r))
          | inr (u, e, r) ↦ inr (u, rw (f, connect_loop) e, λ x. r x.1)
        ]
      ]

  after_write-ne-panicked :
      (id : ℕ) (r : Written × ProxiedConnection) → after_write id r ≡ panicked → ⊥
  unfolding after_write
  after_write-ne-panicked id (written, pc) e = elim (Option-cases (begin_read id pc)) [
    | inl q ↦ cc (rw q at e)
    | inr (c, q) ↦ cc (rw q at e)
  ]
  after_write-ne-panicked id (duplicate, pc) e = cc
  after_write-ne-panicked id (write_failed, pc) e = cc

  -- Serving a websocket request panics exactly if the client has no upstream connection yet and
  -- three endpoints in turn refuse the new one.
  pub start_websocket-panicked_iff :
      (cid : String) (id : ℕ) (body : String) (accepted : Bool) (table : List (String × Proxied))
      (w : World)
      → ((start_websocket out cid id body accepted table w).0.0 ≡ panicked)
        ↔ ((load cid table ≡ none) × Refuses 3 w)
  unfolding start_websocket after_found get_or_create after_connect
  start_websocket-panicked_iff cid id body accepted table w = elim (Option-cases (load cid table)) [
    | inr (p, e) ↦ (
      λ q. absurd (
          after_write-ne-panicked id (upstream_write id body accepted p.connection)
            (rw (e, start_websocket, get_or_create) at q)),
      λ h. absurd (none-ne-some (sym h.0 ∙ e)),
    )
    | inl e ↦ elim (connect_loop-Refuses 3 [] w) [
      | inl (l, d, r) ↦
          (λ q. (e, r), λ h. rw (e, start_websocket, get_or_create, d, after_connect, after_found))
      | inr (u, d, r) ↦ (
        λ q. absurd (
            after_write-ne-panicked id (upstream_write id body accepted new_connection)
              (rw (e, start_websocket, get_or_create, d, after_connect, after_found) at q)),
        λ h. absurd (r h.1),
      )
    ]
  ]
