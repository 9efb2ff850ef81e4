-- ===== src/Router.antt =====
-- pkg/router/router.go: the choice between local servers and the hub. Health is the circuit breaker,
-- Index the tool index, Route and Resolve the two decisions.
pub mod Health
pub mod Index
pub mod Types
pub mod Route
pub mod Resolve
pub mod Proxy
pub mod Breaker
pub mod IndexLaws
pub mod IndexCount
pub mod RouteLaws
pub mod History
pub mod RuleLaws
pub mod ResolveLaws
pub mod Tests
