-- ===== src/Consumer/Overflow.antt =====
-- The deadline test in uint64: when it stops, and what it does where the node is behind the block in
-- which the extrinsic was first seen.
use substrate_rpc_proxy.Dto.{Block, StoredMessage}
use substrate_rpc_proxy.Prelude.{sub64, ◌+◌, ◌-◌, ◌^◌, ◌<◌, ◌≡◌, refl, ap, ◌∷◌, lt→ltb, arith, none}
use substrate_rpc_proxy.Rpc.Client.Connections.{Result, ok, err, Network, Session}
use substrate_rpc_proxy.Rpc.Client.Calls.{chain_get_block}
use substrate_rpc_proxy.Consumer.{
  Consumer, Run, expired, Round, stop, after_current, process_round, expired_count,
}

module _ (net : Network) (c : Consumer) (m : StoredMessage) (r : Run net.World) where
  open net use {World}

  -- A round that counts the extrinsic as expired, and acknowledges it.
  pub record IsExpiry (b : Block) (x : Round × Run World) : Type 0 where
    pub verdict : x.0 ≡ stop (expired b)
    pub acked : x.1.acks ≡ r.acks + 1
    pub counted : x.1.metrics ≡ expired_count ∷ r.metrics

  after_current-IsExpiry :
      (b : Block) (x : Result Block × Session World)
      → x.0 ≡ ok b
      → m.extrinsic.lifetime_in_blocks < sub64 b.number m.extrinsic.first_seen_block_no
      → IsExpiry b (after_current net c m r x)
  unfolding after_current
  after_current-IsExpiry b (err f, s) e late = absurd (ground arith)
  after_current-IsExpiry b (ok b', s) e late =
      let same : b' ≡ b = ground arith in
      let late' : m.extrinsic.lifetime_in_blocks < sub64 b'.number m.extrinsic.first_seen_block_no =
        rw same late in
      rw (lt→ltb _ _ late')
        (record { verdict = ap (λ y. stop (expired y)) same; acked = refl; counted = refl })

  -- Where the latest block is past the deadline by the uint64 difference, the round stops, with the
  -- message acknowledged and counted as expired.
  pub process_round-IsExpiry :
      (b : Block)
      → (chain_get_block net none "" r.session).0 ≡ ok b
      → m.extrinsic.lifetime_in_blocks < sub64 b.number m.extrinsic.first_seen_block_no
      → IsExpiry b (process_round net c m r)
  unfolding process_round
  process_round-IsExpiry b e late =
      after_current-IsExpiry b (chain_get_block net none "" r.session) e late

  -- A node that is behind the block in which the extrinsic was first seen makes the difference wrap:
  -- the extrinsic is dropped as expired at once, unless its lifetime comes near 2^64.
  pub process_round-behind :
      (b : Block)
      → (chain_get_block net none "" r.session).0 ≡ ok b
      → m.extrinsic.first_seen_block_no < 2 ^ 64
      → b.number < m.extrinsic.first_seen_block_no
      → m.extrinsic.lifetime_in_blocks + (m.extrinsic.first_seen_block_no - b.number) < 2 ^ 64
      → IsExpiry b (process_round net c m r)
  process_round-behind b e fits behind short = process_round-IsExpiry b e (omega arith)
