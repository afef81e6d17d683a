-- ===== src/Dotenv.antt =====
-- Loading of .env files: internal/dotenv.
pub mod Bytes
pub mod Scan
pub mod Interpolate
pub mod Parse
pub mod Load
mod Tests
