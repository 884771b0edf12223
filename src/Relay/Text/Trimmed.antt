-- ===== src/Relay/Text/Trimmed.antt =====
-- What `trim_ascii_space` of crates/qvole-relay/src/room.rs computes.
use qvole_rs.Base.{◌≡◌, arith, Bytes}
use qvole_rs.Base.Strip.{strip, ends}
use qvole_rs.Relay.Text.{trim_ascii_space}

-- trim_ascii_space, which cuts a slice between two searches, equals the recursive removal of white
-- space at both ends, on every input.
pub trim_ascii_space-eq-strip : (b : Bytes) → trim_ascii_space b ≡ strip b
unfolding trim_ascii_space
trim_ascii_space-eq-strip b = ground (arith, ends b)
