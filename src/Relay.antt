-- ===== src/Relay.antt =====
-- crates/qvole-relay
pub mod Addr
pub mod Text
pub mod RateLimiter
pub mod RegShard
pub mod DropLogLimiter
pub mod Tally
pub mod Room
pub mod Shards
pub mod Pending
pub mod IpRooms
pub mod Cookie
pub mod State
pub mod Evict
pub mod Action
pub mod Reg
pub mod Msg
pub mod Packet
pub mod Server
pub mod Invariant
