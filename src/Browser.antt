-- ===== src/Browser.antt =====
-- The modules of packages/webrun-http-browser.
pub mod MountTable
pub mod WsFrames
pub mod HandlerTable
mod Tests
