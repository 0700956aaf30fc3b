-- ===== src/Streams/Mux.antt =====
-- packages/webrun-streams/src/emulate-mux.ts: many streams over one byte channel. A `Stream` object is
-- named by its place in `objects`, since a stream that has left the table is still held by its pump and
-- its consumer. What the channel is given is logged in `sent`; a channel whose `send` throws is one
-- that drops it.
pub mod Frame
pub mod State
pub mod Outbound
pub mod Inbound
pub mod Step
pub mod Bounds
pub mod Closed
