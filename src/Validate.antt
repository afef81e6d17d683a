-- ===== src/Validate.antt =====
-- Validation of decoded values against a schema: internal/validate/validate.go.
pub mod Violation
pub mod Primitive
pub mod Walk
pub mod Conforms
pub mod Populate
pub mod Parse
pub mod Source
pub mod Form
mod Tests
