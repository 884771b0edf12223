-- ===== src/Spake2.antt =====
-- Parts of crates/qvole-spake2: connection codes, and the key agreement.
pub mod Code
pub mod Compare
pub mod Curve
pub mod State
pub mod Session
