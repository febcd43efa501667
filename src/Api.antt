-- ===== src/Api.antt =====
-- auth, common/origin, common/rest, api/rest, api/jsonrpc, api/websocket and api/events: the web interface.
pub mod Auth
pub mod Origin
pub mod Attach
pub mod Rest
pub mod Rpc
pub mod Connect
mod Tests
