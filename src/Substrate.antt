-- ===== src/Substrate.antt =====
-- pkg/middleware-substrate: what the proxy knows of Substrate's methods.
pub mod Healthcheck
pub mod Inspector
pub mod Extension
