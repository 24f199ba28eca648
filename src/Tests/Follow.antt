-- ===== src/Tests/Follow.antt =====
-- The consumer over the network of Tests/Nodes.antt, whose latest block is number 7.
use substrate_rpc_proxy.Dto.{StoredMessage}
use substrate_rpc_proxy.Prelude.{ℕ, ◌≡◌, refl, true, [], none, some, arith}
use substrate_rpc_proxy.Rpc.Client.Connections.{
  ok, get_or_create_connection, store, connection_name,
}
use substrate_rpc_proxy.Rpc.Client.Calls.{chain_get_block}
use substrate_rpc_proxy.Consumer.{
  Consumer, Run, Verdict, included, process_round, process_loop, process_message,
}
use substrate_rpc_proxy.Consumer.Overflow.{IsExpiry, process_round-behind}
use substrate_rpc_proxy.Consumer.Progress.{
  IsBalanced, process_loop_returns, process_message-IsBalanced,
}
use substrate_rpc_proxy.Consumer.Verdicts.{Grounds, IsSettled, process_round-IsSettled}
use substrate_rpc_proxy.Tests.Nodes.{one_node, chain, reply, empty_session}

abbrev pub message : ℕ → StoredMessage
message seen = record {
  rpc_frame = record reply { raw = "{}" };
  extrinsic = record {
    payload = "0x0b";
    hash = "0x0c";
    era = "0x00";
    lifetime_in_blocks = 2;
    first_seen_block_no = seen;
  };
  contains_extrinsic = true;
}

abbrev pub consumer : Consumer
consumer = record { retry_delay = 60; in_progress = 0; try_resubmit = true }

abbrev pub start : Run ℕ
start = record { session = empty_session; acks = 0; metrics = [] }

latest : (chain_get_block one_node none "" empty_session).0 ≡ ok (chain "")
unfolding chain_get_block get_or_create_connection store connection_name
latest = refl

latest_number : (chain "").number ≡ 7
unfolding chain_get_block
latest_number = refl

included_run :
    (process_message one_node consumer (message 6) 3 start).0 ≡ some (included (chain ""))
unfolding process_message process_round store connection_name
included_run = refl

process_round-IsSettled_example :
    IsSettled one_node consumer
      (message 6)
      0
      (Grounds one_node consumer (message 6) start)
      (process_round one_node consumer (message 6) start)
process_round-IsSettled_example = process_round-IsSettled one_node consumer (message 6) start

process_message-IsBalanced_example :
    IsBalanced consumer start (process_message one_node consumer (message 6) 3 start)
process_message-IsBalanced_example =
    process_message-IsBalanced one_node consumer (message 6) 3 start

process_loop_returns_example :
    (v : Verdict) × ((process_loop one_node consumer (message 1) 2 start).0 ≡ some v)
process_loop_returns_example =
    process_loop_returns one_node consumer (message 1) 0 2 start (omega arith)
      (chain "", latest, omega (arith, latest_number))

process_round-behind_example :
    IsExpiry one_node consumer
      (message 10)
      start
      (chain "")
      (process_round one_node consumer (message 10) start)
process_round-behind_example =
    process_round-behind one_node consumer (message 10) start (chain "") latest (omega arith)
      (omega (arith, latest_number)) (omega (arith, latest_number))
