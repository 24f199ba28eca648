-- ===== src/Tests/Proxied.antt =====
-- A proxied connection with one request.
use substrate_rpc_proxy.Dto.{RpcFrame}
use substrate_rpc_proxy.Prelude.{
  ◌≡◌, ◌↔◌, refl, ℕ_discrete, String, true, List, [], ◌∷◌, Option, none, some,
}
use substrate_rpc_proxy.Prelude.Family.{put}
use substrate_rpc_proxy.Proxy.Connection.{
  vacant, closed, RequestPayload, ProxiedConnection, Action, writes, panicked, new_connection,
  perform_all, deliver,
}
use substrate_rpc_proxy.Proxy.Connection.Race.{
  Part, stores, deletes, closes, perform_parts, find_request, any_closes, send-panicked_iff,
}
use substrate_rpc_proxy.Tests.Nodes.{reply}

abbrev parse : String → Option RpcFrame
parse s = some reply

-- A request, and while its response is handled a duplicate.
abbrev actions : List Action
actions = writes 1 "{}" true ∷ []

abbrev duplicate : List Part
duplicate = stores 1 "{}" true ∷ deletes 1 ∷ closes 0 ∷ []

abbrev running : RequestPayload
running = record { request = "{}"; ready = 0 }

abbrev closed_early : ProxiedConnection
closed_early = record new_connection {
  channels = put (put (λ c. vacant) 0 vacant) 0 (closed none);
  next = 1;
  to_upstream = "{}" ∷ [];
}

is_found : find_request parse "{}" (perform_all parse actions new_connection) ≡ some running
unfolding find_request perform_all
is_found = refl

is_duplicate :
    perform_parts duplicate (perform_all parse actions new_connection) ≡ some closed_early
unfolding perform_parts perform_all ℕ_discrete
is_duplicate = refl

send-panicked_iff_example :
    ((deliver "{}" running closed_early).0 ≡ panicked) ↔ (any_closes 0 duplicate ≡ true)
send-panicked_iff_example =
    send-panicked_iff parse actions "{}" running duplicate closed_early is_found is_duplicate

duplicate-run : any_closes 0 duplicate ≡ true
unfolding any_closes
duplicate-run = refl
