-- ===== src/Tests.antt =====
-- Runs of the model on concrete inputs, and the theorems applied to them.
mod Nodes
mod Cache
mod Follow
mod Upstreams
mod Requests
mod Decoding
mod Proxied
mod Brokered
mod Served
mod Recorded
mod Provided
mod Extension
mod Registered
mod Entered
mod Watched
mod Journeys
