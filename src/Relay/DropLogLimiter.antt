-- ===== src/Relay/DropLogLimiter.antt =====
-- crates/qvole-relay/src/room.rs: `DropLogLimiter`, the budget for log lines about dropped packets.
-- Instants and durations are as in `RateLimiter`. A method returns its object and its answer.
use qvole_rs.Base.Map
use qvole_rs.Base.Map.{Map}
use qvole_rs.Base.{
  bytes_key, ℕ, ◌+◌, ◌-◌, Bool, true, false, ◌&&◌, not, Option, none, some, ltb, leb, if◌then◌else◌,
  Bytes,
}

pub record DropLogLimiter : Type 0 where
  pub last : Map Bytes ℕ
  pub window_start : ℕ
  pub window_count : ℕ
  pub max_entries : ℕ
  pub max_per_sec : ℕ

unfoldable pub new : ℕ → DropLogLimiter
new now = record {
  last = Map.empty;
  window_start = now;
  window_count = 0;
  max_entries = 100000;
  max_per_sec = 100;
}

unfoldable pub with_limits : ℕ → ℕ → ℕ → DropLogLimiter
unfolding new
with_limits now max_entries max_per_sec =
    let lim = new now in record lim { max_entries = max_entries; max_per_sec = max_per_sec }

unfoldable pub roll : DropLogLimiter → ℕ → DropLogLimiter
roll l now =
    if leb 1000 (now - l.window_start) then record l { window_start = now; window_count = 0 } else l

abbrev too_soon : Option ℕ → ℕ → ℕ → Bool
too_soon none now interval = false
too_soon (some last) now interval = ltb (now - last) interval

unfoldable pub allow : DropLogLimiter → Bytes → ℕ → ℕ → DropLogLimiter × Bool
unfolding roll
allow l0 ip now interval =
    let l = roll l0 now in
    if leb l.max_per_sec l.window_count
    then (l, false)
    else if too_soon (Map.get ip l.last) now interval
    then (l, false)
    else if not (Map.contains ip l.last) && leb l.max_entries (Map.len l.last)
    then (l, false)
    else (record l { last = Map.insert ip now l.last; window_count = l.window_count + 1 }, true)

unfoldable pub cleanup_stale : DropLogLimiter → ℕ → ℕ → DropLogLimiter
cleanup_stale l now max_age = record l {
  last = Map.retain (λ _ last. leb (now - last) max_age) l.last;
}
