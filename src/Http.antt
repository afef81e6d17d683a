-- ===== src/Http.antt =====
-- The request pipeline: exceptions, the handlers round a route, and the registration of routes.
pub mod Exception
pub mod Chain
pub mod Filter
pub mod Method
pub mod Routes
mod Tests
