-- ===== src/Server.antt =====
-- apps/server/src: the HTTP server around the engine.
pub mod Builds
mod Tests
