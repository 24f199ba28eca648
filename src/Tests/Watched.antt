-- ===== src/Tests/Watched.antt =====
-- Events of both programs' parts, handed to their observers.
use substrate_rpc_proxy.Consumer.{messages_in_progress, expired_count, block_gap}
use substrate_rpc_proxy.Middleware.Logger.{LogRequest}
use substrate_rpc_proxy.Prelude.{String, true, List, [], ◌∷◌, Option, none, some, refl}
use substrate_rpc_proxy.Programs.Monitored.{
  Emission, of_consumer, free_tokens, inspected, reported, tick, served, monitor, proxy_parts,
  consumer_parts,
}
use substrate_rpc_proxy.Programs.Monitored.Total.{Returns, monitor-Returns}
use substrate_rpc_proxy.Tests.Upstreams.{two_upstreams}

abbrev parse_url : String → Option (String × String × String)
parse_url s = some (s, "9944", "")

abbrev request : LogRequest
request = record {
  log_fields = some (("upstream", "http://10.0.0.2:9944") ∷ []);
  with_params = none;
  ignore_methods = none;
  frame = none;
  rpc_method = "chain_getHeader";
  rpc_request_id = 3;
  start_time = some 100;
  forwarded_host = "";
  remote_addr = "10.0.0.9:4000";
}

abbrev emissions : List Emission
emissions =
    of_consumer (messages_in_progress 1)
    ∷ free_tokens 3 2
    ∷ reported (two_upstreams 0)
    ∷ inspected
    ∷ tick []
    ∷ of_consumer (block_gap 7)
    ∷ of_consumer expired_count
    ∷ served 110 request
    ∷ []

monitor-Returns_example :
    Returns (monitor (λ t. true) (λ n. n) parse_url (proxy_parts true) emissions)
    × Returns (monitor (λ t. true) (λ n. n) parse_url consumer_parts emissions)
monitor-Returns_example =
    monitor-Returns (λ t. true) (λ n. n) parse_url true emissions
      (tt, (tt, (tt, (tt, (tt, (tt, (tt, ((refl, refl), tt))))))))
