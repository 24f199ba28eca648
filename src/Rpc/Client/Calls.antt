-- ===== src/Rpc/Client/Calls.antt =====
-- The RPC calls of RPCClient: chain_getHeader, chain_getBlockHash, chain_getBlock through the cache,
-- state_getStorage, state_getMetadata, and the walk of FindExtrinsicsBlock.
use substrate_rpc_proxy.Dto.{RpcFrame, RpcError, Block, mapped_result, string_result}
use substrate_rpc_proxy.Dto.Mapped.{
  Value, Fields, null, uint64, str, arr, nil, cons, get, must_int, must_string, must_strings,
}
use substrate_rpc_proxy.Prelude.{
  ℕ, zero, suc, String, Bool, false, ◌||◌, List, [], ◌∷◌, Option, none, some, ltb, str_eq,
  if◌then◌else◌,
}
use substrate_rpc_proxy.Rpc.BlockCache.{BlockCache}
use substrate_rpc_proxy.Rpc.BlockCache as BlockCache
use substrate_rpc_proxy.Rpc.Client.Connections.{
  refused, Result, ok, err, Broker, Network, Session, M, ◌>>=◌, return, connection_name,
  get_or_create_connection, exchange,
}

-- &dto.RPCFrame{Method: method, Params: params}
abbrev pub request : String → Value → RpcFrame
request method params = record {
  id = 0;
  rpc = "";
  method = method;
  raw = "";
  params = params;
  result = null;
  error = none;
}

abbrev pub block_request : String → RpcFrame
block_request hash = request "chain_getBlock" (arr (cons (str hash) nil))

-- The block that ChainGetBlock builds from a response.
unfoldable pub block_of : String → RpcFrame → Block
unfolding mapped_result get must_int must_string must_strings
block_of hash resp =
    let block = get "block" (mapped_result resp) in
    let header = get "header" block in
    record {
      raw = "";
      number = must_int "number" header;
      parent_hash = must_string "parentHash" header;
      hash = hash;
      extrinsics = must_strings "extrinsics" block;
    }

unfoldable pub keep : {W : Type 0} → Option RpcError → Block → M W Block
unfolding BlockCache.add
keep (some e) block s = (err (refused e), s)
keep none block s = (ok block, record s { cache = BlockCache.add s.cache block })

unfoldable pub cached_or : {W : Type 0} → Option Block → M W Block → M W Block
cached_or (some b) fetch s = (ok b, s)
cached_or none fetch s = fetch s

unfoldable pub contains : String → List String → Bool
contains e [] = false
contains e (x ∷ xs) = str_eq x e || contains e xs

module _ (net : Network) where
  open net use {World}

  -- The response of chain_getBlock: an RPC error is an error, a block is cached.
  unfoldable pub keep_block : String → RpcFrame → M World Block
  unfolding block_of BlockCache.add keep
  keep_block hash resp s = keep resp.error (block_of hash resp) s

  -- ChainGetBlock from the lookup by hash on; `conn` was obtained before.
  unfoldable pub block_by_hash : Broker → String → M World Block
  unfolding BlockCache.get_by_hash keep_block cached_or
  block_by_hash conn hash s =
      cached_or (BlockCache.get_by_hash s.cache hash)
        (exchange net conn (block_request hash) >>= keep_block hash) s

  -- The name of the connection in the context is `name`.
  module _ (name : Option String) where
    abbrev pub connect : M World Broker
    connect = get_or_create_connection net (connection_name name)

    unfoldable pub state_get_metadata : M World String
    unfolding string_result
    state_get_metadata = do
      conn ← connect
      resp ← exchange net conn (request "state_getMetadata" null)
      return (string_result resp)

    -- `var params []string` is encoded as null.
    unfoldable pub chain_get_header : String → M World Fields
    unfolding mapped_result
    chain_get_header hash = do
      conn ← connect
      let params = if str_eq hash "" then null else arr (cons (str hash) nil)
      resp ← exchange net conn (request "chain_getHeader" params)
      return (mapped_result resp)

    unfoldable pub chain_get_block_hash : ℕ → M World String
    unfolding string_result
    chain_get_block_hash num = do
      conn ← connect
      resp ← exchange net conn (request "chain_getBlockHash" (arr (cons (uint64 num) nil)))
      return (string_result resp)

    unfoldable pub state_get_storage : String → String → M World String
    unfolding string_result
    state_get_storage key block_hash = do
      conn ← connect
      let keys = cons (str key) (if str_eq block_hash "" then nil else cons (str block_hash) nil)
      resp ← exchange net conn (request "state_getStorage" (arr keys))
      return (string_result resp)

    -- The latest block by its header: from the cache by number, else by the hash of that number.
    unfoldable pub latest_by_number : Broker → ℕ → M World Block
    unfolding BlockCache.get chain_get_block_hash block_by_hash cached_or
    latest_by_number conn number s =
        cached_or (BlockCache.get s.cache number)
          (chain_get_block_hash number >>= block_by_hash conn) s

    -- Without a header the empty hash is asked for.
    unfoldable pub after_header :
        Broker → Result Fields × Session World → Result Block × Session World
    unfolding latest_by_number block_by_hash
    after_header conn (ok header, s) = latest_by_number conn (must_int "number" header) s
    after_header conn (err e, s) = block_by_hash conn "" s

    unfoldable pub chain_get_block : String → M World Block
    unfolding after_header chain_get_header
    chain_get_block hash = do
      conn ← connect
      if str_eq hash ""
          then (λ s. after_header conn (chain_get_header "" s))
          else block_by_hash conn hash

    -- The loop of FindExtrinsicsBlock, with `rounds` blocks left to look at.
    unfoldable pub walk : ℕ → String → String → M World (Option Block)
    unfolding contains
    walk zero block_hash extrinsic = return none
    walk (suc rounds) block_hash extrinsic = do
      b ← chain_get_block block_hash
      let rest = walk rounds b.parent_hash extrinsic
      if contains extrinsic b.extrinsics then return (some b) else rest

    -- min(limit, capacity) rounds; a negative limit is 0 here, as the loop makes no round.
    unfoldable pub find_extrinsics_block : String → String → ℕ → M World (Option Block)
    unfolding walk
    find_extrinsics_block block_hash extrinsic limit s =
        let depth = if ltb s.cache.capacity limit then s.cache.capacity else limit in
        walk depth block_hash extrinsic s
