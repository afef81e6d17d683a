-- ===== src/Lifecycle.antt =====
-- Lifecycle hooks: internal/provider/lifecycle.go and internal/app/lifecycle.go.
pub mod Hook
pub mod Phase
pub mod App
mod Tests
