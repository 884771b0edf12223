-- ===== src/Protocol.antt =====
-- crates/qvole-protocol
pub mod Trim
pub mod Hex
pub mod Env
pub mod Exchange
pub mod Pool
pub mod Punch
