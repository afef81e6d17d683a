-- ===== src/Graphql.antt =====
-- The GraphQL transports: internal/graphql.
pub mod Reservation
pub mod Socket
mod Tests
mod SocketTests
