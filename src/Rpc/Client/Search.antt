-- ===== src/Rpc/Client/Search.antt =====
-- FindExtrinsicsBlock against a search of the chain itself: the cache does not show.
use substrate_rpc_proxy.Dto.{RpcFrame, RpcError, Block}
use substrate_rpc_proxy.Prelude.{
  ℕ, zero, suc, ◌<◌, ◌≡◌, ◌≢◌, refl, sym, String, false, Option, none, some, str_eq, eq_iff,
  if◌then◌else◌, All, arith, inl, inr, Bool-cases, ap, ◌∙◌,
}
use substrate_rpc_proxy.Rpc.BlockCache.{BlockCache}
use substrate_rpc_proxy.Rpc.BlockCache as BlockCache
use substrate_rpc_proxy.Rpc.BlockCache.Lookup.{add-All, get_by_hash-All}
use substrate_rpc_proxy.Rpc.BlockCache.Order.{capacity-add}
use substrate_rpc_proxy.Rpc.Client.Connections.{
  Failure, Result, ok, err, Broker, Network, Session, M, continue, connection_name,
  get_or_create_connection, return,
}
use substrate_rpc_proxy.Rpc.Client.Connections.Reuse.{
  get_or_create_connection-cache, get_or_create_connection_fails,
}
use substrate_rpc_proxy.Rpc.Client.Calls.{
  keep, cached_or, block_request, block_of, keep_block, block_by_hash, chain_get_block, contains,
  walk,
}

-- A predicate on the outcome of a step: `P` of a result with its state, `Q` of the state after an
-- error.
abbrev pub Ensures :
    {W A : Type 0} → (A → Session W → Type 0) → (Session W → Type 0) → Result A × Session W → Type 0
Ensures P Q (ok a, s) = P a s
Ensures P Q (err e, s) = Q s

pub Ensures-mono :
    {W A : Type 0} (P P' : A → Session W → Type 0) (Q Q' : Session W → Type 0)
    (x : Result A × Session W)
    → ((a : A) (s : Session W) → P a s → P' a s)
    → ((s : Session W) → Q s → Q' s)
    → Ensures P Q x
    → Ensures P' Q' x
Ensures-mono P P' Q Q' (ok a, s) p q h = p a s h
Ensures-mono P P' Q Q' (err e, s) p q h = q s h

pub continue-Ensures :
    {W A B : Type 0} (P : A → Session W → Type 0) (P' : B → Session W → Type 0)
    (Q : Session W → Type 0) (x : Result A × Session W) (f : A → M W B)
    → Ensures P Q x
    → ((a : A) (s : Session W) → P a s → Ensures P' Q (f a s))
    → Ensures P' Q (continue x f)
continue-Ensures P P' Q (ok a, s) f h k = k a s h
continue-Ensures P P' Q (err e, s) f h k = h

-- The search that FindExtrinsicsBlock stands for: the first block that holds the extrinsic among
-- `rounds` blocks, from the block with the hash towards its ancestors.
unfoldable pub search_chain : (String → Block) → ℕ → String → String → Option Block
unfolding contains
search_chain chain zero hash extrinsic = none
search_chain chain (suc rounds) hash extrinsic =
    let rest = search_chain chain rounds (chain hash).parent_hash extrinsic in
    if contains extrinsic (chain hash).extrinsics then some (chain hash) else rest

-- The hash of the ancestor that lies `k` blocks before the block with this hash.
abbrev pub ancestor : (String → Block) → String → ℕ → String
ancestor chain hash zero = hash
ancestor chain hash (suc k) = ancestor chain (chain hash).parent_hash k

module _ (net : Network) (chain : String → Block) (chain_hash : (h : String) → (chain h).hash ≡ h)
    (honest : (b : Broker) (h : String) (w w' : net.World) (resp : RpcFrame)
      → net.ws_request b (block_request h) w ≡ (ok resp, w')
      → resp.error ≡ none
      → block_of h resp ≡ chain h)
    (Broken : Type 0)
    (dial_broken : (w w' : net.World) (f : Failure) → net.dial w ≡ (err f, w') → Broken)
    (request_broken : (b : Broker) (h : String) (w w' : net.World) (f : Failure)
      → net.ws_request b (block_request h) w ≡ (err f, w')
      → Broken)
    (refused_broken : (b : Broker) (h : String) (w w' : net.World) (resp : RpcFrame) (e : RpcError)
      → net.ws_request b (block_request h) w ≡ (ok resp, w')
      → resp.error ≡ some e
      → Broken) where
  open net use {World, ws_request}

  abbrev IsOnChain : Block → Type 0
  IsOnChain b = b ≡ chain b.hash

  -- Every cached block is the chain's block of its hash.
  abbrev pub IsAuthentic : ℕ → Session World → Type 0
  IsAuthentic capacity s = All IsOnChain s.cache.blocks × (s.cache.capacity ≡ capacity)

  module _ (capacity : ℕ) where
    abbrev Anything : {A : Type 0} → A → Session World → Type 0
    Anything a s = IsAuthentic capacity s

    -- After an error: the cache is right, and the network is to blame.
    abbrev pub Fallen : Session World → Type 0
    Fallen s = IsAuthentic capacity s × Broken

    Ensures-of_state :
        {A : Type 0} (x : Result A × Session World)
        → IsAuthentic capacity x.1
        → ((f : Failure) → x.0 ≡ err f → Broken)
        → Ensures Anything Fallen x
    Ensures-of_state (ok a, s) h blame = h
    Ensures-of_state (err e, s) h blame = (h, blame e refl)

    connect-Ensures :
        (name : String) (s : Session World)
        → IsAuthentic capacity s
        → Ensures Anything Fallen (get_or_create_connection net name s)
    connect-Ensures name s h =
        Ensures-of_state (get_or_create_connection net name s)
          (rw (get_or_create_connection-cache net name s) h)
          (λ f e.
            let (w, w', fails) = get_or_create_connection_fails net name s e in
            dial_broken w w' f fails)

    -- The block of the hash, and a cache that is still right.
    abbrev pub Gives : String → Block → Session World → Type 0
    Gives hash b s = (b ≡ chain hash) × IsAuthentic capacity s

    IsOnChain-of_eq : (hash : String) (b : Block) → b ≡ chain hash → IsOnChain b
    IsOnChain-of_eq hash b e = e ∙ ap chain (sym (ap (λ x. x.hash) e ∙ chain_hash hash))

    keep-Ensures :
        (hash : String) (e : Option RpcError) (block : Block) (s : Session World)
        → (e ≡ none → block ≡ chain hash)
        → ((x : RpcError) → e ≡ some x → Broken)
        → IsAuthentic capacity s
        → Ensures (Gives hash) Fallen (keep e block s)
    unfolding keep
    keep-Ensures hash (some e) block s right blame h = (h, blame e refl)
    keep-Ensures hash none block s right blame (all, cap) = (
      right refl,
      (
        add-All IsOnChain s.cache block (IsOnChain-of_eq hash block (right refl)) all,
        capacity-add s.cache block ∙ cap,
      ),
    )

    keep_block-Ensures :
        (hash : String) (resp : RpcFrame) (s : Session World)
        → (resp.error ≡ none → block_of hash resp ≡ chain hash)
        → ((x : RpcError) → resp.error ≡ some x → Broken)
        → IsAuthentic capacity s
        → Ensures (Gives hash) Fallen (keep_block net hash resp s)
    unfolding keep_block
    keep_block-Ensures hash resp s right blame h = keep-Ensures hash resp.error _ s right blame h

    ask-Ensures :
        (conn : Broker) (hash : String) (s : Session World) (x : Result RpcFrame × World)
        → ws_request conn (block_request hash) s.world ≡ x
        → IsAuthentic capacity s
        → Ensures
            (Gives hash)
            Fallen
            (continue (x.0, record s { world = x.1 }) (keep_block net hash))
    ask-Ensures conn hash s (ok resp, w) e h =
        keep_block-Ensures hash resp (record s { world = w }) (honest conn hash s.world w resp e)
          (λ x. refused_broken conn hash s.world w resp x e) h
    ask-Ensures conn hash s (err f, w) e h = (h, request_broken conn hash s.world w f e)

    cached_or-Ensures :
        (hash : String) (found : Option Block) (fetch : M World Block) (s : Session World)
        → BlockCache.get_by_hash s.cache hash ≡ found
        → IsAuthentic capacity s
        → Ensures (Gives hash) Fallen (fetch s)
        → Ensures (Gives hash) Fallen (cached_or found fetch s)
    unfolding cached_or
    cached_or-Ensures hash none fetch s e h k = k
    cached_or-Ensures hash (some b) fetch s e h k =
        let (real, same) = get_by_hash-All IsOnChain s.cache hash e h.0 in (real ∙ ap chain same, h)

    block_by_hash-Ensures :
        (conn : Broker) (hash : String) (s : Session World)
        → IsAuthentic capacity s
        → Ensures (Gives hash) Fallen (block_by_hash net conn hash s)
    unfolding block_by_hash
    block_by_hash-Ensures conn hash s h =
        cached_or-Ensures hash _ _ s refl h (ask-Ensures conn hash s _ refl h)

    chain_get_block-Ensures :
        (name : Option String) (hash : String) (s : Session World)
        → hash ≢ ""
        → IsAuthentic capacity s
        → Ensures (Gives hash) Fallen (chain_get_block net name hash s)
    unfolding chain_get_block
    chain_get_block-Ensures name hash s given h =
        let e : str_eq hash "" ≡ false = ground (arith, eq_iff hash "") in
        rw e (
          continue-Ensures Anything (Gives hash) Fallen _ _
            (connect-Ensures (connection_name name) s h)
            (λ conn s'. block_by_hash-Ensures conn hash s'))

    -- What the walk returns, when it returns, is the search of the chain.
    abbrev pub Finds : Option Block → Option Block → Session World → Type 0
    Finds expected found s = (found ≡ expected) × IsAuthentic capacity s

    decide-Ensures :
        (hash extrinsic : String) (later : Option Block) (rest : M World (Option Block))
        (s : Session World)
        → IsAuthentic capacity s
        → Ensures (Finds later) Fallen (rest s)
        → Ensures
            (Finds
              (if contains extrinsic (chain hash).extrinsics then some (chain hash) else later))
            Fallen
            ((if contains extrinsic (chain hash).extrinsics
                then return (some (chain hash))
                else rest)
              s)
    decide-Ensures hash extrinsic later rest s h k =
        elim (Bool-cases (contains extrinsic (chain hash).extrinsics)) [
          | inl here ↦ rw here (refl, h)
          | inr not_here ↦ rw not_here k
        ]

    pub walk-Ensures :
        (name : Option String) (rounds : ℕ) (hash extrinsic : String) (s : Session World)
        → ((k : ℕ) → k < rounds → ancestor chain hash k ≢ "")
        → IsAuthentic capacity s
        → Ensures
            (Finds (search_chain chain rounds hash extrinsic))
            Fallen
            (walk net name rounds hash extrinsic s)
    unfolding walk search_chain
    walk-Ensures name zero hash extrinsic s real h = (refl, h)
    walk-Ensures name (suc rounds) hash extrinsic s real h =
        continue-Ensures (Gives hash) (Finds (search_chain chain (suc rounds) hash extrinsic))
          Fallen _ _ (chain_get_block-Ensures name hash s (real 0 (omega arith)) h)
          (λ b s' (e, h'). rw e (
            decide-Ensures hash extrinsic
              (search_chain chain rounds (chain hash).parent_hash extrinsic)
              (walk net name rounds (chain hash).parent_hash extrinsic) s' h'
              (walk-Ensures name rounds (chain hash).parent_hash extrinsic s'
                (λ k lt. real (suc k) (omega arith)) h')))
