-- ===== src/Relay/RateLimiter.antt =====
-- crates/qvole-relay/src/room.rs: `RateLimiter`, the message budget of one client. Instants and
-- durations count one unit, the millisecond, and a call is given the instant that it reads;
-- `duration_since` stops at zero, as `-` does. A method returns its object and its answer.
pub mod Budget
use qvole_rs.Base.Map
use qvole_rs.Base.Map.{Map}
use qvole_rs.Base.{
  ℕ, ◌+◌, ◌-◌, ◌≤◌, Bool, true, false, ◌&&◌, not, Option, none, some, ltb, leb, if◌then◌else◌,
  Bytes,
}

pub record RateLimiter : Type 0 where
  pub msg_count : ℕ  -- u32
  pub window_start : ℕ

unfoldable pub new : ℕ → RateLimiter
new now = record { msg_count = 0; window_start = now }

-- The first statement: a window that has passed is replaced.
unfoldable pub roll : RateLimiter → ℕ → ℕ → RateLimiter
roll r now rate_window =
    if ltb rate_window (now - r.window_start)
    then record { msg_count = 0; window_start = now }
    else r

-- The count stays below `max_msg_rate`, a `u32`, so that it cannot overflow.
unfoldable pub is_limited : RateLimiter → ℕ → ℕ → ℕ → RateLimiter × Bool
unfolding roll
is_limited r now rate_window max_msg_rate =
    let r' = roll r now rate_window in
    if leb max_msg_rate r'.msg_count
    then (r', true)
    else (record r' { msg_count = r'.msg_count + 1 }, false)
