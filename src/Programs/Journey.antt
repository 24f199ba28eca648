-- ===== src/Programs/Journey.antt =====
-- From the requests of the proxy's clients to the goroutines of the consumer program: the messages that
-- the inspector stores are logged in any order, and the loop of the consumer reads them.
use mathlib.Core.List.{Permᴰ, append-nil, append_assoc}
use mathlib.Core.Path.{subst}
use substrate_rpc_proxy.Decoder.Extrinsic.{extracted}
use substrate_rpc_proxy.Decoder.Storage.{RuntimeModule}
use substrate_rpc_proxy.Dto.{RpcFrame, ExtrinsicData, StoredMessage}
use substrate_rpc_proxy.Middleware.Deny.{
  deny, forward, denied_frame, deny_rpc_methods, deny_rpc_methods_iff,
}
use substrate_rpc_proxy.Prelude.{
  ℕ, ◌≤◌, ◌≡◌, ◌≢◌, refl, sym, ap, ◌∙◌, ◌⊎◌, ◌↔◌, inl, inr, String, true, List, [], ◌∷◌, ◌++◌, map,
  Option, some, some_inj, length, All, arith,
}
use substrate_rpc_proxy.Programs.Follow.{Follower, Happening, run, begin}
use substrate_rpc_proxy.Programs.Follow.Dispatched.{held, Waits, run-messages}
use substrate_rpc_proxy.Programs.Follow.Messages.{messages}
use substrate_rpc_proxy.Proxy.Pipeline.{Settings, route, route-submission, IsDenied}
use substrate_rpc_proxy.Rpc.Client.Connections.{Network}
use substrate_rpc_proxy.Storage.{Reply, Redis}
use substrate_rpc_proxy.Storage.Queue.{Delivers, Encodes, log_all, log_all-queue}
use substrate_rpc_proxy.Substrate.Extension.{Scale}
use substrate_rpc_proxy.Substrate.Inspector.{Inspector, needs_inspection}

-- The stored messages in the order of their requests.
unfoldable pub oldest_first : List StoredMessage → List StoredMessage
oldest_first [] = []
oldest_first (m ∷ ms) = oldest_first ms ++ m ∷ []

abbrev pub frames : List StoredMessage → List RpcFrame
frames ms = map (λ m. m.rpc_frame) ms

frames-append : (xs ys : List StoredMessage) → frames (xs ++ ys) ≡ frames xs ++ frames ys
frames-append [] ys = refl
frames-append (x ∷ xs) ys = ap (λ r. x.rpc_frame ∷ r) (frames-append xs ys)

frames-Permᴰ : {xs ys : List StoredMessage} → Permᴰ xs ys → Permᴰ (frames xs) (frames ys)
frames-Permᴰ Permᴰ.nil = Permᴰ.nil
frames-Permᴰ (Permᴰ.cons e d) = Permᴰ.cons (ap (λ m. m.rpc_frame) e) (frames-Permᴰ d)
frames-Permᴰ (Permᴰ.swap e f) = Permᴰ.swap (ap (λ m. m.rpc_frame) e) (ap (λ m. m.rpc_frame) f)
frames-Permᴰ (Permᴰ.trans d e) = Permᴰ.trans (frames-Permᴰ d) (frames-Permᴰ e)

module _ {P : Type 0} (settings : Settings) (scale : Scale P) (net : Network)
    (find_submatch : String → Option (String × String)) (metadata : List RuntimeModule) where
  -- The requests one after the other, each at its time.
  unfoldable pub route_all : List (ℕ × RpcFrame) → Inspector net.World → Inspector net.World
  unfolding route
  route_all [] i = i
  route_all ((now, f) ∷ rs) i =
      route_all rs (route settings scale net find_submatch metadata now (some f) i).1

  -- The frames that no listed method denies.
  unfoldable pub accepted : List (ℕ × RpcFrame) → List RpcFrame
  unfolding deny_rpc_methods
  accepted [] = []
  accepted ((now, f) ∷ rs) =
      elim (deny_rpc_methods settings.fold settings.deny_methods f.method f.id) [
        | deny g ↦ accepted rs
        | forward ↦ f ∷ accepted rs
      ]

  -- An inspected method whose parameters hold an extrinsic.
  abbrev pub IsSubmission : ℕ × RpcFrame → Type 0
  IsSubmission (now, f) =
      (needs_inspection settings.fold settings.inspect_methods f.method ≡ true)
      × ((extr : ExtrinsicData) × (settings.extract f.params ≡ extracted extr))
      × (f.rpc ≢ "extensions/get-storage/1.0")

  accepted-denied :
      (now : ℕ) (f g : RpcFrame) (rs : List (ℕ × RpcFrame))
      → deny_rpc_methods settings.fold settings.deny_methods f.method f.id ≡ deny g
      → accepted ((now, f) ∷ rs) ≡ accepted rs
  unfolding accepted
  accepted-denied now f g rs e =
      ap (λ v. elim v as (λ x. List RpcFrame) [ deny h ↦ accepted rs | forward ↦ f ∷ accepted rs ])
        e

  accepted-forward :
      (now : ℕ) (f : RpcFrame) (rs : List (ℕ × RpcFrame))
      → deny_rpc_methods settings.fold settings.deny_methods f.method f.id ≡ forward
      → accepted ((now, f) ∷ rs) ≡ f ∷ accepted rs
  unfolding accepted
  accepted-forward now f rs e =
      ap (λ v. elim v as (λ x. List RpcFrame) [ deny h ↦ accepted rs | forward ↦ f ∷ accepted rs ])
        e

  -- One more message, behind the others.
  frames-newest :
      (f : RpcFrame) (m : StoredMessage) (before after : List StoredMessage) (rest : List RpcFrame)
      → m.rpc_frame ≡ f
      → after ≡ m ∷ before
      → frames (oldest_first after) ++ rest ≡ frames (oldest_first before) ++ f ∷ rest
  unfolding oldest_first
  frames-newest f m before after rest named e =
      ap (λ ms. frames (oldest_first ms) ++ rest) e
      ∙ ap (λ r. r ++ rest) (frames-append (oldest_first before) (m ∷ []))
      ∙ append_assoc (frames (oldest_first before)) (m.rpc_frame ∷ []) rest
      ∙ ap (λ g. frames (oldest_first before) ++ g ∷ rest) named

  route_all-stored :
      (rs : List (ℕ × RpcFrame)) (i : Inspector net.World)
      → settings.inspect_extrinsics ≡ true
      → All IsSubmission rs
      → frames (oldest_first (route_all rs i).stored)
        ≡ frames (oldest_first i.stored) ++ accepted rs
  unfolding route_all accepted
  route_all-stored [] i on h = sym (append-nil (frames (oldest_first i.stored)))
  route_all-stored ((now, f) ∷ rs) i on ((wanted, (extr, found), other), h) =
      let (listed, outcome) =
        deny_rpc_methods_iff settings.fold settings.deny_methods f.method f.id in
      let x = route settings scale net find_submatch metadata now (some f) i in
      elim (route-submission settings scale net find_submatch metadata now f extr i on wanted found
        other) [
          | inl (d, whole) ↦
              ap (λ y. frames (oldest_first (route_all rs y.1).stored)) whole
              ∙ route_all-stored rs i on h
              ∙ ap (λ r. frames (oldest_first i.stored) ++ r)
                  (sym (accepted-denied now f (denied_frame f.id) rs (listed.1 d)))
          | inr (n, passed, stored, counted) ↦
              route_all-stored rs x.1 on h
              ∙ frames-newest f _ i.stored x.1.stored (accepted rs) refl stored
              ∙ ap (λ r. frames (oldest_first i.stored) ++ r)
                  (sym (accepted-forward now f rs (forwarded n listed outcome)))
        ]
    where
      forwarded :
          (IsDenied settings scale net find_submatch metadata f → ⊥)
          → ((deny_rpc_methods settings.fold settings.deny_methods f.method f.id
                ≡ deny (denied_frame f.id))
              ↔ IsDenied settings scale net find_submatch metadata f)
          → (deny_rpc_methods settings.fold settings.deny_methods f.method f.id
              ≡ deny (denied_frame f.id))
            ⊎ (deny_rpc_methods settings.fold settings.deny_methods f.method f.id ≡ forward)
          → deny_rpc_methods settings.fold settings.deny_methods f.method f.id ≡ forward
      forwarded n listed (inl d) = absurd (n (listed.0 d))
      forwarded n listed (inr e) = e

  module _ (r : Redis) (marshal : StoredMessage → Reply String)
      (unmarshal : String → StoredMessage × Option String) (stream group consumer : String)
      (d : Delivers r stream group) (waits : Waits d) where
    -- Submissions reach an inspector that has stored nothing. What it then stores, at most 8000 messages,
    -- is logged in any order, since each XADD runs in a goroutine of its own, on an empty stream of which
    -- Redis answers, whose texts the JSON library reads back, and every XADD succeeds. Then, at any
    -- time after the consumer's loop began, the frames of the messages that goroutines follow, of the one
    -- that the loop holds and of those that the group has not got yet are together the submissions
    -- that no listed method denies, each as often as it was sent, in some order.
    pub journey :
        (rs : List (ℕ × RpcFrame)) (i : Inspector net.World)
        → settings.inspect_extrinsics ≡ true
        → i.stored ≡ []
        → All IsSubmission rs
        → (all : List StoredMessage) → Permᴰ (oldest_first (route_all rs i).stored) all
        → (bs : List String) (w w' : r.World)
        → Encodes r marshal unmarshal stream group consumer all bs
        → d.queue w ≡ []
        → length all ≤ 8000
        → log_all r marshal unmarshal stream group consumer all w ≡ some w'
        → (xs : List Happening) (s : Follower r.World)
        → run r marshal unmarshal stream group consumer xs (begin w') ≡ some s
        → (ms : List StoredMessage) × Encodes r marshal unmarshal stream group consumer ms
            (d.queue s.world)
          × Permᴰ (accepted rs) (frames (messages s.tasks ++ (held s.loop ++ ms)))
    unfolding oldest_first
    journey rs i on fresh h all order bs w w' texts empty few logged xs s ran =
        let (w1, done, after) =
          log_all-queue r marshal unmarshal stream group consumer d all bs w texts
            (omega (arith, ap length empty, few)) in
        let same : w1 ≡ w' = some_inj (sym done ∙ logged) in
        let queued : d.queue w' ≡ bs = ap d.queue (sym same) ∙ after ∙ ap (λ q. q ++ bs) empty in
        let (ms, rest, whole, live) =
          run-messages r marshal unmarshal stream group consumer d waits all xs w' s
            (subst (Encodes r marshal unmarshal stream group consumer all) (sym queued) texts)
            ran in
        let sent : frames (oldest_first (route_all rs i).stored) ≡ accepted rs =
          route_all-stored rs i on h ∙ ap (λ q. frames (oldest_first q) ++ accepted rs) fresh in
        (
          ms,
          rest,
          subst (λ q. Permᴰ q (frames (messages s.tasks ++ (held s.loop ++ ms)))) sent
              (subst (λ q. Permᴰ (frames (oldest_first (route_all rs i).stored)) (frames q))
                (sym whole) (frames-Permᴰ order)),
        )
