-- ===== src/Validator.antt =====
-- pkg/validator: checks of the configuration files that the generator writes. Result is errors.go,
-- Schema and Kilo the structural checks of schema.go, Pattern and Runtime the checks of runtime.go,
-- Dispatch is validator.go.
pub mod Result
pub mod Json
pub mod Formats
pub mod Pattern
pub mod Runtime
pub mod Specs
pub mod Dispatch
pub mod Adds
pub mod Accepts
pub mod RuntimeAccepts
pub mod SpecAccepts
pub mod ContentLaws
pub mod DispatchLaws
pub mod StripLaws
pub mod Tests
