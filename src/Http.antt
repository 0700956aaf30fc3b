-- ===== src/Http.antt =====
-- The modules of packages/webrun-http-streams.
pub mod Bytes
pub mod Headers
pub mod Chunked
pub mod Hosts
pub mod Bodies
pub mod Messages
mod Tests
