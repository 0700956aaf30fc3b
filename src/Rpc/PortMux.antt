-- ===== src/Rpc/PortMux.antt =====
-- `multiplexPort` of `multiplex-port.ts`: its state, its operations and what can happen to it.
pub mod State
pub mod Send
pub mod Ends
pub mod Receive
pub mod Frames
pub mod Keepalive
pub mod Step
pub mod Shutting
pub mod FreeIds
pub mod Stable
pub mod Charges
pub mod Bounds
pub mod Accepting
pub mod Closed
pub mod Pump
pub mod Silence
