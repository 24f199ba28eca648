-- ===== src/Lib.antt =====
-- substrate-rpc-proxy: a proxy for the JSON-RPC interface of Substrate nodes, and a consumer that
-- follows the extrinsics which went through the proxy.
--
-- A client's message passes through middlewares: the acceptance of websockets with the loop over
-- their messages (pkg/middleware/websocket.go, Middleware/Websocket.antt), the line of the log
-- (pkg/middleware/jsonrpc_logger.go, Middleware/Logger.antt), JSON-RPC parsing and batches
-- (pkg/middleware/jsonrpc.go, Middleware/JsonRpc.antt), the throttle (pkg/middleware/throttle.go,
-- Middleware/Throttle.antt), the list of denied methods (pkg/middleware/denymethods.go,
-- Middleware/Deny.antt), the extension that reads the storage of a node
-- (pkg/middleware-substrate/getstorage_json.go, Substrate/Extension.antt) and the inspector of
-- submitted extrinsics (pkg/middleware-substrate/extrinsics.go, Substrate/Inspector.antt); headers
-- are copied by CopyHeader (pkg/middleware/types.go, Middleware/Headers.antt), and the error pages,
-- the requests of a batch and the writers of their answers are Middleware/Responses.antt; the keys
-- of a request's context and EndpointProvider (pkg/middleware/upstreamprov.go) are
-- Middleware/Context.antt. The handler sends the message to an upstream (cmd/proxy/handler/proxy.go, Proxy/Serve.antt); the
-- order of the last handlers, which cmd/proxy/main.go sets, is Proxy/Pipeline.antt, the whole path
-- from the body of a request to its answer is Proxy/Entry.antt, and the path of all messages of a
-- websocket client is Proxy/Session.antt; for a websocket client the proxy keeps one upstream
-- connection with the running requests (cmd/proxy/handler/wsproxy.go, Proxy/Handler.antt for the
-- table of connections, Proxy/Connection.antt for one of them). The upstream is chosen by the
-- provider (pkg/rpc-endpoint, Endpoint.antt with Address, Provider, Check, Hosts, Rating and
-- Choice), whose states come from the health check (pkg/middleware-substrate/upstreamcheck.go,
-- Substrate/Healthcheck.antt). The provider (Endpoint/Report.antt) and the proxy
-- (Proxy/Metrics.antt) report to the metrics (pkg/monitoring/monitoring.go, Monitoring.antt), and
-- so does the middleware that measures requests (pkg/middleware/jsonrpc_metrics.go,
-- Middleware/Calls.antt). Submitted extrinsics are decoded (pkg/decoder, Decoder.antt) and stored
-- in Redis (pkg/storage/redis.go, Storage.antt); the consumer (cmd/consumer/consumer.go,
-- Consumer.antt) looks for each of them in the chain, through the RPC client (pkg/rpc/client.go,
-- Rpc/Client.antt) and its cache of blocks (pkg/rpc/block_cache.go, Rpc/BlockCache.antt), and
-- submits it again. What the two main programs make of these parts is Programs.antt: the metrics
-- that they register and the events of their parts (Programs/Monitored.antt), and the loop of the
-- consumer program over the stream, with a goroutine for each message (cmd/consumer/main.go,
-- Programs/Follow.antt); Programs/Journey.antt composes both, from the requests of the clients to
-- the goroutines. The types of frames, blocks and decoded JSON values are Dto.antt
-- (pkg/dto). Prelude.antt holds what all share; Tests.antt holds runs and applications to concrete
-- inputs.
--
-- How code corresponds to the model. A Go method is a function with the method's name; state that
-- it changes is an argument and a result. Go errors are values of Rpc.Client.Connections.Result or
-- of the component's own type, and a panic is a constructor or `none`. The network, the JSON codec,
-- the SCALE library, hash functions, the HTTP client, Redis and random numbers are arguments;
-- hypotheses on them stand in the statements, those on Redis as the records
-- Storage.Registration.Answers, Storage.Queue.Delivers and Programs.Follow.Dispatched.Waits.
-- Unsigned integers of 64 bits are natural numbers with the wrap-around of subtraction written out
-- (Prelude.Int.sub64). Frame ids are Go ints that are not negative. Go maps are association lists,
-- whose order stands for the order that the runtime picks. A goroutine of the inspector runs to
-- its end before the next request; Programs/Journey.antt lets the XADDs of many come in any order.
-- The path of Proxy/Entry.antt has the throttle's decisions and the Logger, and leaves out HttpMetrics,
-- which changes no answer; a panic of a handler takes the answer with it. Texts are valid UTF-8, but for
-- the labels of Middleware/Calls.antt.
--
-- Concurrency. The throttle is a system of numbered requests that take steps in any order. The
-- proxied connection is a store of channels shared by the map of running requests and the readers,
-- and its methods are steps in any order; between the lookup and the send of a response, the parts
-- of these methods are steps of their own (Proxy/Connection/Race.antt). The loop of the consumer runs on fuel: each unit is one
-- round, and `none` is a loop that still goes on, and so does the loop over a client's messages.
-- The counter of connections is used by numbered requests in any order. The loop of the consumer
-- program and its goroutines take their steps in any order, given as a list. The requests of a
-- client are routed at any time and with any state of the inspector.
--
-- The websocket message broker (pkg/rpc/wsconnbroker.go, Rpc/Broker.antt) matches responses with
-- requests and pushes with subscriptions (Rpc/Broker/Subscriptions.antt); the client sees it as one
-- request with its response, an argument of Network.
--
-- Not modelled: the timers and the ping of a socket, the writing of the log by its library, the
-- options of the HTTP client and of the dialler, and the configuration, the listeners and the
-- signals of the main programs, which only call libraries.
pub mod Consumer
pub mod Decoder
pub mod Dto
pub mod Endpoint
pub mod Middleware
pub mod Monitoring
pub mod Prelude
pub mod Programs
pub mod Proxy
pub mod Rpc
pub mod Storage
pub mod Substrate
pub mod Tests
