-- ===== src/Programs.antt =====
-- cmd/proxy/main.go and cmd/consumer/main.go: what the programs make of the packages.
pub mod Monitored
pub mod Follow
pub mod Journey
