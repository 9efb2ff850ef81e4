-- ===== src/Profiles.antt =====
-- pkg/profiles/profiles.go: profiles of tools and the filter that applies them. mcp.Tool is a type of
-- a library; a tool is known by its name.
pub mod Types
pub mod Sort
pub mod Filter
pub mod SortLaws
pub mod LimitLaws
pub mod NameLaws
pub mod FilterLaws
pub mod Tests
