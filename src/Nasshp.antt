-- ===== src/Nasshp.antt =====
-- proxy/nasshp: the windows of bytes that survive a reconnection of the SSH-over-websocket proxy.
pub mod Absolute
pub mod Buffer
pub mod Send
pub mod Receive
mod Examples
