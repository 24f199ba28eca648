-- ===== src/Proxy.antt =====
-- cmd/proxy/handler: how the proxy passes frames between a client and its upstream.
pub mod Connection
pub mod Handler
pub mod Serve
pub mod Metrics
pub mod Pipeline
pub mod Entry
pub mod Session
