-- ===== src/Events.antt =====
-- The modules of packages/webrun-http-events.
pub mod Broker
mod Tests
