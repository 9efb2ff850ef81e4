-- ===== src/Registry.antt =====
-- pkg/registry: the registry of MCP servers. Types has its data, Spec the effective configuration of
-- a server, Query and Env the questions asked of it, Metadata the tool descriptions.
pub mod Types
pub mod Spec
pub mod Query
pub mod Env
pub mod Metadata
pub mod SpecLaws
pub mod StripLaws
pub mod Leak
pub mod Tests
