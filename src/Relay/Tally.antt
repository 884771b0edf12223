-- ===== src/Relay/Tally.antt =====
-- The per-address counts of pending registrations: `pending_by_ip` of crates/qvole-
-- relay/src/room.rs and `pending_ip_shards` of crates/qvole-relay/src/relay.rs are counted up and
-- down alike.
use qvole_rs.Base.Map
use qvole_rs.Base.Map.{Map}
use qvole_rs.Base.{ℕ, ◌+◌, ◌-◌, ◌≡◌, Option, none, some, ite, arith, ◌==◌, if◌then◌else◌}
use qvole_rs.Relay.Addr.{IpAddr, ip_key_instance, IpAddr-discrete}

abbrev pub Tally : Type 0
Tally = Map IpAddr ℕ

abbrev pub or_zero : Option ℕ → ℕ
or_zero none = 0
or_zero (some n) = n

-- `get(&ip).copied().unwrap_or(0)`
unfoldable pub tally : IpAddr → Tally → ℕ
tally ip m = or_zero (Map.get ip m)

-- `*entry(ip).or_insert(0) += 1`
unfoldable pub bump : IpAddr → Tally → Tally
unfolding tally
bump ip m = Map.insert ip (tally ip m + 1) m

-- One less, and the entry dropped at zero.
unfoldable pub lower : IpAddr → Tally → Tally
lower ip m = elim (Map.get ip m) [
  | none ↦ m
  | some c ↦ if c - 1 == 0 then Map.remove ip m else Map.insert ip (c - 1) m
]

pub tally-empty : (ip : IpAddr) → tally ip Map.empty ≡ 0
unfolding tally
tally-empty ip = ground (arith, Map.get-empty {V = ℕ} ip)

pub tally-bump :
    (i j : IpAddr) (m : Tally)
    → tally j (bump i m) ≡ ite (IpAddr-discrete i j) (tally j m + 1) (tally j m)
unfolding tally bump
tally-bump i j m = ground (arith, Map.get-insert i j (tally i m + 1) m)

pub tally-lower :
    (i j : IpAddr) (m : Tally)
    → tally j (lower i m) ≡ ite (IpAddr-discrete i j) (tally j m - 1) (tally j m)
unfolding tally lower
tally-lower i j m = ground (arith, Map.get-insert i j (tally i m - 1) m, Map.get-remove i j m)
