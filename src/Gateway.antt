-- ===== src/Gateway.antt =====
-- pkg/gateway: the websocket gateway. Backend is how it finds a server's backend, Wire the one-shot
-- tool call over a connection, ToolCall the REST handler in front of it.
pub mod Normalize
pub mod NormalizeLaws
pub mod NormalizeTests
pub mod Backend
pub mod Wire
pub mod ToolCall
pub mod WireLaws
pub mod SameLaws
pub mod ToolCallLaws
pub mod SafetyLaws
pub mod Auth
pub mod AuthLaws
pub mod Hosts
pub mod HostLaws
pub mod Tests
