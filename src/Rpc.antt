-- ===== src/Rpc.antt =====
-- pkg/rpc: the websocket client of a node, with its cache of blocks.
pub mod BlockCache
pub mod Client
pub mod Broker
