-- ===== src/App.antt =====
-- Parts of crates/qvole-app
pub mod TunnelRequest
pub mod TunnelAllow
pub mod Tunnel
pub mod Options
pub mod Stream
