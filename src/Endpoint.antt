-- ===== src/Endpoint.antt =====
-- pkg/rpc-endpoint: the upstream nodes, their addresses and their states. An IP address is its text,
-- the only form in which the code compares or prints it; a parsed URL is its host name, port and
-- path. A Go map is an association list, whose order stands for the one that the runtime picks.
pub mod Address
pub mod Check
pub mod Hosts
pub mod Rating
pub mod Report
pub mod Provider
pub mod Choice
use substrate_rpc_proxy.Prelude.{String, Bool, true, false, List}

-- `unset` is the zero value that a new Upstream has.
pub data EndpointStatus : Type 0 where
  unset healthy available unreachable : EndpointStatus

pub record UpstreamEndpoint : Type 0 where
  pub address : String
  pub status : EndpointStatus

pub record Upstream : Type 0 where
  pub endpoints : List UpstreamEndpoint
  pub status : EndpointStatus
  pub must_resolve : Bool
  pub hostname : String
  pub port : String
  pub path : String
  pub ports : List (String × String)

abbrev pub is_healthy : EndpointStatus → Bool
is_healthy healthy = true
is_healthy _ = false

abbrev pub is_available : EndpointStatus → Bool
is_available available = true
is_available _ = false
