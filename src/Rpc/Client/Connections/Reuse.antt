-- ===== src/Rpc/Client/Connections/Reuse.antt =====
-- Which connection a name gets, and what becomes of the others.
use substrate_rpc_proxy.Prelude.{
  ℕ, ◌≡◌, ◌≢◌, refl, ap, ◌∙◌, String, true, List, [], ◌∷◌, none, some, eq_iff, arith, inl, inr,
  Bool-cases, Option-cases,
}
use substrate_rpc_proxy.Rpc.Client.Connections.{
  Failure, Result, ok, err, Broker, Network, Session, load, store, delete, works, store_dialled,
  drop_failed, open_connection, get_or_create_connection,
}

load-delete_self : (name : String) (m : List (String × Broker)) → load name (delete name m) ≡ none
unfolding load delete
load-delete_self name [] = refl
load-delete_self name ((k, b) ∷ m) = ground (arith, load-delete_self name m)

load-delete_ne :
    (name other : String) (m : List (String × Broker))
    → name ≢ other
    → load other (delete name m) ≡ load other m
unfolding load delete
load-delete_ne name other [] h = refl
load-delete_ne name other ((k, b) ∷ m) h =
    ground (arith, eq_iff k name, eq_iff k other, load-delete_ne name other m h)

load-store_self :
    (name : String) (b : Broker) (m : List (String × Broker)) → load name (store name b m) ≡ some b
unfolding load store
load-store_self name b m = ground (arith, eq_iff name name)

load-store_ne :
    (name other : String) (b : Broker) (m : List (String × Broker))
    → name ≢ other
    → load other (store name b m) ≡ load other m
unfolding load store
load-store_ne name other b m h = ground (arith, eq_iff name other, load-delete_ne name other m h)

module _ (net : Network) where
  open net use {World}

  store_dialled-cache :
      (name : String) (s : Session World) (x : Result ℕ × World)
      → (store_dialled net name s x).1.cache ≡ s.cache
  unfolding store_dialled
  store_dialled-cache name s (ok ws, w) = refl
  store_dialled-cache name s (err e, w) = refl

  drop_failed-cache :
      (name : String) (b : Broker) (s : Session World) → (drop_failed net name b s).cache ≡ s.cache
  unfolding drop_failed
  drop_failed-cache name b s = refl

  open_connection-cache :
      (name : String) (s : Session World) → (open_connection net name s).1.cache ≡ s.cache
  unfolding open_connection
  open_connection-cache name s = store_dialled-cache name s (net.dial s.world)

  -- Connecting leaves the cache of blocks alone.
  pub get_or_create_connection-cache :
      (name : String) (s : Session World) → (get_or_create_connection net name s).1.cache ≡ s.cache
  unfolding get_or_create_connection
  get_or_create_connection-cache name s = elim (Option-cases (load name s.connections)) [
    | inl absent ↦ rw (absent, get_or_create_connection) (open_connection-cache name s)
    | inr (b, found) ↦
        rw (found, get_or_create_connection)
          (elim (Bool-cases (works b)) [
            | inl good ↦ rw good refl
            | inr bad ↦
                rw bad (
                  open_connection-cache name (drop_failed net name b s)
                  ∙ drop_failed-cache name b s)
          ])
  ]

  -- A dial that fails with `f`, in some state of the network.
  abbrev pub DialFails : Failure → Type 0
  DialFails f = (w : World) × (w' : World) × (net.dial w ≡ (err f, w'))

  store_dialled_fails :
      (name : String) (s : Session World) (x : Result ℕ × World) {f : Failure}
      → net.dial s.world ≡ x
      → (store_dialled net name s x).0 ≡ err f
      → DialFails f
  unfolding store_dialled
  store_dialled_fails name s (ok ws, w) e h = cc
  store_dialled_fails name s (err g, w) {f} e h =
      let same : g ≡ f = ground arith in (s.world, w, e ∙ ap (λ y. (err y, w)) same)

  open_connection_fails :
      (name : String) (s : Session World) {f : Failure}
      → (open_connection net name s).0 ≡ err f
      → DialFails f
  unfolding open_connection
  open_connection_fails name s h = store_dialled_fails name s (net.dial s.world) refl h

  -- Connecting fails only where a dial does.
  pub get_or_create_connection_fails :
      (name : String) (s : Session World) {f : Failure}
      → (get_or_create_connection net name s).0 ≡ err f
      → DialFails f
  unfolding get_or_create_connection
  get_or_create_connection_fails name s h = elim (Option-cases (load name s.connections)) [
    | inl absent ↦ open_connection_fails name s (rw (absent, get_or_create_connection) at h)
    | inr (b, found) ↦ elim (Bool-cases (works b)) [
      | inl good ↦ cc (rw (found, get_or_create_connection, good) at h)
      | inr bad ↦
          open_connection_fails name (drop_failed net name b s)
            (rw (found, get_or_create_connection, bad) at h)
    ]
  ]

  -- What GetOrCreateConnection promises: a working connection, stored under the name, and the
  -- connections of the other names as they were.
  abbrev pub IsConnected : String → Session World → Result Broker × Session World → Type 0
  IsConnected name s (ok b, s') =
      (works b ≡ true)
      × (load name s'.connections ≡ some b)
      × ((other : String) → name ≢ other → load other s'.connections ≡ load other s.connections)
  IsConnected name s (err f, s') =
      (other : String) → name ≢ other → load other s'.connections ≡ load other s.connections

  store_dialled-IsConnected :
      (name : String) (s : Session World) (x : Result ℕ × World)
      → IsConnected name s (store_dialled net name s x)
  unfolding store_dialled
  store_dialled-IsConnected name s (ok ws, w) = (
    refl,
    load-store_self name _ s.connections,
    λ other. load-store_ne name other _ s.connections,
  )
  store_dialled-IsConnected name s (err f, w) = λ other ne. refl

  IsConnected-drop_failed :
      (name : String) (b : Broker) (s : Session World) (x : Result Broker × Session World)
      → IsConnected name (drop_failed net name b s) x
      → IsConnected name s x
  unfolding drop_failed
  IsConnected-drop_failed name b s (ok c, s') (good, stored, others) =
      (good, stored, λ other ne. others other ne ∙ load-delete_ne name other s.connections ne)
  IsConnected-drop_failed name b s (err f, s') others =
      λ other ne. others other ne ∙ load-delete_ne name other s.connections ne

  open_connection-IsConnected :
      (name : String) (s : Session World) → IsConnected name s (open_connection net name s)
  unfolding open_connection
  open_connection-IsConnected name s = store_dialled-IsConnected name s (net.dial s.world)

  -- GetOrCreateConnection returns a connection without an error, which is the one stored under the
  -- name from then on; the connections of other names stay as they were, also when dialling fails.
  pub get_or_create_connection-IsConnected :
      (name : String) (s : Session World) → IsConnected name s (get_or_create_connection net name s)
  unfolding get_or_create_connection
  get_or_create_connection-IsConnected name s = elim (Option-cases (load name s.connections)) [
    | inl absent ↦ rw (absent, get_or_create_connection) (open_connection-IsConnected name s)
    | inr (b, found) ↦
        rw (found, get_or_create_connection)
          (elim (Bool-cases (works b)) [
            | inl good ↦ rw good (good, found, λ other ne. refl)
            | inr bad ↦ rw bad (
                IsConnected-drop_failed name b s _
                  (open_connection-IsConnected name (drop_failed net name b s)))
          ])
  ]
