-- ===== src/Msgpack.antt =====
-- The package webrun-msgpack.
pub mod Value
pub mod Utf8
pub mod Encode
pub mod Decode
pub mod Reading
pub mod Numbers
pub mod Dates
pub mod Texts
pub mod Heads
pub mod Wire
pub mod Reads
pub mod RoundTrip
mod Tests
