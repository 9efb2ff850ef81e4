-- ===== src/Proxy.antt =====
-- pkg/proxy/proxy.go: the proxy in front of all servers. Refs resolves references to secrets, Calls is
-- withBackend over the router and the two pools, Receive the reading of responses.
pub mod Refs
pub mod Receive
pub mod Calls
pub mod Session
pub mod SessionLaws
pub mod RefLaws
pub mod CallLaws
pub mod Tests
