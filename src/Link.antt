-- ===== src/Link.antt =====
-- The two programs together, joined by a serial line that keeps the bytes and their order.
pub mod EspToHost
pub mod HostToEsp
pub mod BringUp
pub mod Handshake
pub mod Setup
