-- ===== src/Middleware.antt =====
-- pkg/middleware: the handlers between a client and the proxy.
pub mod Deny
pub mod JsonRpc
pub mod Throttle
pub mod Headers
pub mod Responses
pub mod Websocket
pub mod Logger
pub mod Calls
pub mod Context
