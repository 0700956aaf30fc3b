-- ===== src/Streams.antt =====
-- The package webrun-streams.
pub mod Credit
pub mod Uint32
pub mod Varint
pub mod Queue
pub mod Mux
mod Tests
