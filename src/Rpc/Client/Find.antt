-- ===== src/Rpc/Client/Find.antt =====
-- The search of the consumer, FindExtrinsicsBlock, over a network that serves one chain.
use substrate_rpc_proxy.Dto.{RpcFrame, RpcError, Block}
use substrate_rpc_proxy.Prelude.{
  ℕ, ◌<◌, ◌≡◌, ◌≢◌, refl, ap, String, Option, none, some, if◌then◌else◌, ltb, min, arith, All,
}
use substrate_rpc_proxy.Rpc.Client.Connections.{Failure, Result, ok, err, Broker, Network, Session}
use substrate_rpc_proxy.Rpc.Client.Calls.{block_request, block_of, find_extrinsics_block}
use substrate_rpc_proxy.Rpc.Client.Search.{
  Ensures, Ensures-mono, search_chain, ancestor, walk-Ensures,
}

-- The nodes behind the network serve one chain: whatever is answered to chain_getBlock is the
-- chain's block of that hash.
pub record Serves (net : Network) (chain : String → Block) : Type 0 where
  pub own_hash : (h : String) → (chain h).hash ≡ h
  pub honest :
      (b : Broker) (h : String) (w w' : net.World) (resp : RpcFrame)
      → net.ws_request b (block_request h) w ≡ (ok resp, w')
      → resp.error ≡ none
      → block_of h resp ≡ chain h

-- Dialling works, and chain_getBlock is answered without an error.
pub record IsLive (net : Network) : Type 0 where
  pub dials : (w w' : net.World) (f : Failure) → net.dial w ≢ (err f, w')
  pub answers :
      (b : Broker) (h : String) (w w' : net.World) (f : Failure)
      → net.ws_request b (block_request h) w ≢ (err f, w')
  pub accepts :
      (b : Broker) (h : String) (w w' : net.World) (resp : RpcFrame) (e : RpcError)
      → net.ws_request b (block_request h) w ≡ (ok resp, w')
      → resp.error ≢ some e

module _ (net : Network) (chain : String → Block) (serves : Serves net chain) where
  open net use {World}

  -- Every block of the cache is the chain's block of its hash.
  abbrev pub HasAuthenticCache : Session World → Type 0
  HasAuthenticCache s = All (λ b. b ≡ chain b.hash) s.cache.blocks

  abbrev rounds_of : ℕ → Session World → ℕ
  rounds_of limit s = if ltb s.cache.capacity limit then s.cache.capacity else limit

  -- The search of the chain that the call stands for.
  abbrev pub expected : String → String → ℕ → Session World → Option Block
  expected hash extrinsic limit s = search_chain chain (min limit s.cache.capacity) hash extrinsic

  abbrev IsRight : Session World → Session World → Type 0
  IsRight s s' = HasAuthenticCache s' × (s'.cache.capacity ≡ s.cache.capacity)

  rounds_of-min : (limit : ℕ) (s : Session World) → rounds_of limit s ≡ min limit s.cache.capacity
  rounds_of-min limit s = ground arith

  -- Over honest nodes, which may fail, and with an authentic cache: if FindExtrinsicsBlock returns
  -- without an error, it found what a search of the chain finds among
  -- the first min(limit, capacity) blocks, whatever was cached; the cache stays authentic either way.
  -- The blocks looked at must have hashes that are not empty.
  pub find_extrinsics_block-search :
      (name : Option String) (hash extrinsic : String) (limit : ℕ) (s : Session World)
      → HasAuthenticCache s
      → ((k : ℕ) → k < min limit s.cache.capacity → ancestor chain hash k ≢ "")
      → Ensures
          (λ found s'. (found ≡ expected hash extrinsic limit s) × HasAuthenticCache s')
          HasAuthenticCache
          (find_extrinsics_block net name hash extrinsic limit s)
  unfolding find_extrinsics_block
  find_extrinsics_block-search name hash extrinsic limit s h real = rw (rounds_of-min limit s) (
      Ensures-mono (λ found s'. (found ≡ expected hash extrinsic limit s) × IsRight s s') _
        (λ s'. IsRight s s' × Unit) HasAuthenticCache _ (λ a s' f. (f.0, f.1.0)) (λ s' f. f.0.0)
        (walk-Ensures net chain serves.own_hash serves.honest Unit (λ w w' f e. tt)
          (λ b h' w w' f e. tt) (λ b h' w w' r e p q. tt) s.cache.capacity name
          (min limit s.cache.capacity) hash extrinsic s real (h, refl)))

  -- Where the search could only fail by a contradiction, it returns.
  returned :
      {A : Type 0} (wanted : A) (x : Result A × Session World)
      → Ensures (λ a s'. a ≡ wanted) (λ s'. ⊥) x
      → x.0 ≡ ok wanted
  returned wanted (ok a, s') h = ap ok h
  returned wanted (err e, s') h = absurd h

  -- Over honest nodes, where every connection and request succeeds, and with an authentic cache,
  -- FindExtrinsicsBlock returns what a search of the chain finds among the first min(limit, capacity)
  -- blocks, whichever of them were cached. The blocks looked at must have hashes that are not empty.
  pub find_extrinsics_block_total :
      IsLive net
      → (name : Option String) (hash extrinsic : String) (limit : ℕ) (s : Session World)
      → HasAuthenticCache s
      → ((k : ℕ) → k < min limit s.cache.capacity → ancestor chain hash k ≢ "")
      → (find_extrinsics_block net name hash extrinsic limit s).0
        ≡ ok (expected hash extrinsic limit s)
  unfolding find_extrinsics_block
  find_extrinsics_block_total live name hash extrinsic limit s h real = rw (rounds_of-min limit s) (
      returned _ _ (
        Ensures-mono (λ found s'. (found ≡ expected hash extrinsic limit s) × IsRight s s') _
          (λ s'. IsRight s s' × ⊥) (λ s'. ⊥) _ (λ a s' f. f.0) (λ s' f. f.1)
          (walk-Ensures net chain serves.own_hash serves.honest ⊥ live.dials live.answers
            live.accepts s.cache.capacity name (min limit s.cache.capacity) hash extrinsic s real
            (h, refl))))
