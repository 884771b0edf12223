-- ===== src/Relay/RegShard.antt =====
-- crates/qvole-relay/src/room.rs: `RegShard`, the registration budgets of the sources in one shard.
-- Instants and durations are as in `RateLimiter`. A method returns its object and its answer.
use qvole_rs.Base.Map
use qvole_rs.Base.Map.{Map}
use qvole_rs.Base.{
  bytes_key, ℕ, ◌+◌, ◌-◌, Bool, true, false, not, Option, none, some, ltb, leb, if◌then◌else◌,
  Bytes,
}

abbrev pub max_reg_shard_entries : ℕ
max_reg_shard_entries = 100000

pub record RegShard : Type 0 where
  pub sent : Map Bytes ℕ
  pub times : Map Bytes ℕ

unfoldable pub default : RegShard
default = record { sent = Map.empty; times = Map.empty }

abbrev restart : RegShard → Bytes → ℕ → RegShard
restart s src now = record { sent = Map.insert src 1 s.sent; times = Map.insert src now s.times }

abbrev pub or_zero : Option ℕ → ℕ
or_zero none = 0
or_zero (some n) = n

-- `entry(src).or_insert(0)` leaves a zero behind where it found nothing.
unfoldable pub admit_more : RegShard → Bytes → ℕ → RegShard × Bool
admit_more s src max_rate =
    let count = or_zero (Map.get src s.sent) in
    if leb max_rate count
    then (record s { sent = Map.insert src count s.sent }, true)
    else (record s { sent = Map.insert src (count + 1) s.sent }, false)

unfoldable pub is_limited : RegShard → Bytes → ℕ → ℕ → ℕ → RegShard × Bool
unfolding admit_more
is_limited s src now rate_window max_rate = elim (Map.get src s.times) [
  | none ↦
      if leb max_reg_shard_entries (Map.len s.times) then (s, true) else (restart s src now, false)
  | some reset ↦
      if ltb rate_window (now - reset)
      then (restart s src now, false)
      else admit_more s src max_rate
]

-- `times.retain(…)`, which removes from `sent` what it drops.
abbrev is_old : ℕ → ℕ → Option ℕ → Bool
is_old now max_age none = false
is_old now max_age (some t) = ltb max_age (now - t)

unfoldable pub drop_old : RegShard → ℕ → ℕ → RegShard
drop_old s now max_age = record {
  sent = Map.retain (λ src _. not (is_old now max_age (Map.get src s.times))) s.sent;
  times = Map.retain (λ _ t. not (ltb max_age (now - t))) s.times;
}

abbrev clear_above : Map Bytes ℕ → Map Bytes ℕ
clear_above m = if ltb max_reg_shard_entries (Map.len m) then Map.empty else m

unfoldable pub cleanup_stale : RegShard → ℕ → ℕ → RegShard
unfolding drop_old
cleanup_stale s now max_age =
    let s' = drop_old s now max_age in
    record { sent = clear_above s'.sent; times = clear_above s'.times }
