-- ===== src/Relay/Room.antt =====
-- crates/qvole-relay/src/room.rs: `RoomEntry`, its clients and its pending registrations. Clients are
-- filed under the text of their address, as in the source.
pub mod Invariant
pub mod Links
pub mod Admit
use qvole_rs.Base.Map
use qvole_rs.Base.Map.{Map}
use qvole_rs.Base.{
  ℕ, ◌-◌, ◌≡◌, Bool, true, false, ◌&&◌, not, Option, none, some, List, [], ◌∷◌, map, ltb, leb,
  if◌then◌else◌, Bytes, bytes_key, Bytes-discrete, eqb,
}
use qvole_rs.Relay.Addr.{IpAddr, SocketAddr, AddrText, key_ip, ip_key_instance}
use qvole_rs.Relay.RateLimiter
use qvole_rs.Relay.RateLimiter.{RateLimiter}
use qvole_rs.Relay.Tally.{Tally, tally, bump, lower}

abbrev pub pending_reg_ttl_ms : ℕ
pending_reg_ttl_ms = 5000

abbrev pub pending_cookie_bytes : ℕ
pending_cookie_bytes = 16

pub record UdpClient : Type 0 where
  pub last_seen : ℕ
  pub rate_limiter : RateLimiter
  pub resolved_addr : Option SocketAddr

-- `UdpClient::new`
unfoldable pub new_client : ℕ → Option SocketAddr → UdpClient
new_client now resolved_addr = record {
  last_seen = now;
  rate_limiter = RateLimiter.new now;
  resolved_addr = resolved_addr;
}

pub record PendingReg : Type 0 where
  pub cookie : Bytes
  pub created_at : ℕ
  pub resolved_addr : SocketAddr

pub record RoomEntry : Type 0 where
  pub udp_clients : Map Bytes UdpClient
  pub pending : Map Bytes PendingReg
  pub pending_by_ip : Tally
  pub t : ℕ

unfoldable pub new : ℕ → RoomEntry
new now = record {
  udp_clients = Map.empty;
  pending = Map.empty;
  pending_by_ip = Map.empty;
  t = now;
}

-- Files a registration; the per-address count grows only with a new key.
unfoldable pub add_pending : AddrText → RoomEntry → Bytes → PendingReg → ℕ → RoomEntry × Bool
add_pending text e src p max_per_room =
    if not (Map.contains src e.pending) && leb max_per_room (Map.len e.pending)
    then (e, false)
    else (
      record e {
        pending = Map.insert src p e.pending;
        pending_by_ip =
            if Map.contains src e.pending
            then e.pending_by_ip
            else bump (key_ip text src) e.pending_by_ip;
      },
      true,
    )

unfoldable pub remove_pending : AddrText → RoomEntry → Bytes → RoomEntry × Option PendingReg
remove_pending text e src = elim (Map.get src e.pending) [
  | none ↦ (e, none)
  | some p ↦ (
    record e {
      pending = Map.remove src e.pending;
      pending_by_ip = lower (key_ip text src) e.pending_by_ip;
    },
    some p,
  )
]

unfoldable pub pending_count_for_ip : RoomEntry → IpAddr → ℕ
unfolding tally
pending_count_for_ip e ip = tally ip e.pending_by_ip

abbrev pub is_sharer : AddrText → Bytes → Bytes → UdpClient → Bool
is_sharer text addr other info = not (eqb other addr) && eqb (key_ip text other) (key_ip text addr)

-- Some other client of the room has the accounting key of `addr`.
unfoldable pub still_in_room : AddrText → RoomEntry → Bytes → Bool
still_in_room text e addr = Map.any (is_sharer text addr) e.udp_clients

abbrev pub is_stale : ℕ → ℕ → Bytes → UdpClient → Bool
is_stale now reg_ttl addr info = ltb reg_ttl (now - info.last_seen)

abbrev pub is_expired : ℕ → Bytes → PendingReg → Bool
is_expired now addr p = ltb pending_reg_ttl_ms (now - p.created_at)

-- The loop that collects the room links to drop.
unfoldable pub unlinks : AddrText → RoomEntry → Bytes → List Bytes → List (IpAddr × Bytes)
unlinks text e room [] = []
unlinks text e room (addr ∷ stale) =
    let rest = unlinks text e room stale in
    if still_in_room text e addr then rest else (key_ip text addr, room) ∷ rest

unfoldable pub remove_all_pending : AddrText → RoomEntry → List Bytes → RoomEntry
unfolding remove_pending
remove_all_pending text e [] = e
remove_all_pending text e (addr ∷ rest) =
    remove_all_pending text (remove_pending text e addr).0 rest

-- Drops the clients not seen for `reg_ttl` and the expired registrations. The links to drop are
-- found before the clients go.
unfoldable pub remove_stale_clients :
    AddrText → RoomEntry → Bytes → ℕ → ℕ → RoomEntry × List (IpAddr × Bytes)
unfolding remove_all_pending
remove_stale_clients text e room now reg_ttl =
    let unlinked = unlinks text e room (Map.keys_where (is_stale now reg_ttl) e.udp_clients) in
    let e' = record e {
      udp_clients = Map.retain (λ addr info. not (is_stale now reg_ttl addr info)) e.udp_clients;
    } in
    (remove_all_pending text e' (Map.keys_where (is_expired now) e'.pending), unlinked)
