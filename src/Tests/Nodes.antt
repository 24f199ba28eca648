-- ===== src/Tests/Nodes.antt =====
-- A network of one node that answers every request with the same frame, a block with one extrinsic.
use substrate_rpc_proxy.Dto.{RpcFrame, Block}
use substrate_rpc_proxy.Dto.Mapped.{Value, Fields, str, obj, arr, cons, nil, field, empty}
use substrate_rpc_proxy.Prelude.{
  ℕ, zero, suc, ◌<◌, ◌≡◌, ◌≢◌, refl, sym, ap, min, String, none, [], arith, eq_iff,
}
use substrate_rpc_proxy.Rpc.Client.Connections.{
  Result, ok, Network, Session, get_or_create_connection,
}
use substrate_rpc_proxy.Rpc.Client.Connections.Reuse.{
  IsConnected, get_or_create_connection-IsConnected,
}
use substrate_rpc_proxy.Rpc.Client.Calls.{block_of, find_extrinsics_block}
use substrate_rpc_proxy.Rpc.Client.Search.{ancestor}
use substrate_rpc_proxy.Rpc.Client.Find.{Serves, IsLive, expected, find_extrinsics_block_total}

abbrev header : Fields
header = field "number" (str "0x7") (field "parentHash" (str "0xaa") empty)

abbrev body : Fields
body = field "header" (obj header) (field "extrinsics" (arr (cons (str "0x0b") nil)) empty)

abbrev pub reply : RpcFrame
reply = record {
  id = 1;
  rpc = "2.0";
  method = "";
  raw = "";
  params = Value.null;
  result = obj (field "number" (str "0x7") (field "block" (obj body) empty));
  error = none;
}

abbrev pub one_node : Network
one_node = record {
  World = ℕ;
  dial = λ w. (ok 3, w);
  close = λ ws w. w;
  ws_request = λ b f w. (ok reply, w);
  parse_frame = λ msg. ok reply;
}

abbrev pub chain : String → Block
chain h = block_of h reply

abbrev pub empty_session : Session ℕ
empty_session = record { cache = record { blocks = []; capacity = 4 }; connections = []; world = 0 }

frame_of :
    (resp : RpcFrame) (w w' : ℕ)
    → ◌≡◌ {A = Result RpcFrame × ℕ} (ok reply, w) (ok resp, w')
    → reply ≡ resp
frame_of resp w w' e = ground arith

serves : Serves one_node chain
unfolding block_of
serves = record {
  own_hash = λ h. refl;
  honest = λ b h w w' resp e q. ap (block_of h) (sym (frame_of resp w w' e));
}

live : IsLive one_node
live = record {
  dials = λ w w' f e. cc;
  answers = λ b h w w' f e. cc;
  accepts = λ b h w w' resp e q p. cc (frame_of resp w w' q);
}

ancestors : (h : String) (k : ℕ) → h ≢ "" → ancestor chain h k ≢ ""
unfolding block_of
ancestors h zero e = e
ancestors h (suc k) e = ancestors "0xaa" k (ground (arith, eq_iff "0xaa" ""))

hashes : (k : ℕ) → k < min 2 4 → ancestor chain "0xbb" k ≢ ""
hashes k h = ancestors "0xbb" k (ground (arith, eq_iff "0xbb" ""))

find_total_example :
    (find_extrinsics_block one_node none "0xbb" "0x0b" 2 empty_session).0
    ≡ ok (expected one_node chain serves "0xbb" "0x0b" 2 empty_session)
find_total_example =
    find_extrinsics_block_total one_node chain serves live none "0xbb" "0x0b" 2 empty_session tt
      hashes

connection_example :
    IsConnected one_node "default" empty_session
      (get_or_create_connection one_node "default" empty_session)
connection_example = get_or_create_connection-IsConnected one_node "default" empty_session
