-- ===== src/Rpc.antt =====
-- `packages/webrun-rpc/src`: many virtual ports over one port.
pub mod Estimate
pub mod Credit
pub mod Framing
pub mod Ring
pub mod PortMux
mod Tests
