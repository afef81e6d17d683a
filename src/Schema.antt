-- ===== src/Schema.antt =====
-- The schema of a type: internal/schema. A schema, a property builder and a function value are what
-- the Go program points to, so schemas and builders stand in a store and are named by their index.
pub mod Value
pub mod Property
pub mod Kinds
pub mod Store
mod Tests
