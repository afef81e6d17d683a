-- ===== src/Di.antt =====
-- The dependency-injection graph: internal/module and internal/resolver.
pub mod Token
pub mod Builder
pub mod Assemble
pub mod Exports
pub mod Resolve
pub mod Direct
pub mod Cycle
pub mod Graph
pub mod Construct
pub mod Inject
pub mod Request
mod Tests
mod LookupTests
mod GraphTests
mod ConstructTests
mod InjectTests
