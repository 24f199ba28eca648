-- ===== src/Rpc/Client.antt =====
-- pkg/rpc/client.go: the calls of RPCClient. Dialling a websocket and one exchange over it
-- (WSRequest) belong to the network and are parameters; the lock around the table of connections
-- makes each access to it one step.
pub mod Connections
pub mod Calls
pub mod Search
pub mod Find
pub mod Sockets
