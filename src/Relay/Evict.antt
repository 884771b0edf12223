-- ===== src/Relay/Evict.antt =====
-- The eviction of stale rooms: `evict_stale_rooms` of crates/qvole-relay/src/room.rs, for one shard,
-- and `evict_stale_rooms_all` of crates/qvole-relay/src/relay.rs.
use qvole_rs.Base.Map
use qvole_rs.Base.Map.{Map}
use qvole_rs.Base.{
  ℕ, ◌-◌, Bool, not, ◌&&◌, List, [], ◌∷◌, ◌++◌, ltb, ◌==◌, if◌then◌else◌, Bytes, bytes_key,
}
use qvole_rs.Relay.Addr.{IpAddr, AddrText}
use qvole_rs.Relay.Room.{RoomEntry, remove_stale_clients}
use qvole_rs.Relay.Shards
use qvole_rs.Relay.Shards.{Shards}
use qvole_rs.Relay.IpRooms.{remove_ip_rooms}
use qvole_rs.Relay.Pending.{fetch_sub}
use qvole_rs.Relay.State.{Relay, Env}

abbrev pub RoomMap : Type 0
RoomMap = Map Bytes RoomEntry

-- The pass that sweeps each room of the shard in place.
unfoldable pub sweep_rooms : AddrText → ℕ → ℕ → RoomMap → RoomMap
sweep_rooms text now reg_ttl =
    Map.map_values (λ room e. (remove_stale_clients text e room now reg_ttl).0)

-- `empty && stale`, of a room that has been swept
unfoldable pub is_dead : ℕ → ℕ → Bytes → RoomEntry → Bool
is_dead now reg_ttl room e = Map.len e.udp_clients == 0 && ltb reg_ttl (now - e.t)

abbrev pub all_unlinks : AddrText → ℕ → ℕ → List (Bytes × RoomEntry) → List (IpAddr × Bytes)
all_unlinks text now reg_ttl [] = []
all_unlinks text now reg_ttl ((room, e) ∷ rooms) =
    (remove_stale_clients text e room now reg_ttl).1 ++ all_unlinks text now reg_ttl rooms

-- What stays of the shard, how many rooms went, and the links to drop.
unfoldable pub evict_stale_rooms : AddrText → RoomMap → ℕ → ℕ → RoomMap × ℕ × List (IpAddr × Bytes)
unfolding sweep_rooms
evict_stale_rooms text rooms now reg_ttl =
    let swept = sweep_rooms text now reg_ttl rooms in
    (
      Map.retain (λ room e. not (is_dead now reg_ttl room e)) swept,
      Map.count (is_dead now reg_ttl) swept,
      all_unlinks text now reg_ttl (Map.to_list rooms),
    )

-- All shards, one at a time; the count of live rooms follows.
unfoldable pub evict_stale_rooms_all : Env → Relay → Relay
evict_stale_rooms_all env s =
    let evict = λ (g : RoomMap). evict_stale_rooms env.text g env.now s.reg_ttl in
    let total = Shards.sum_shards (λ g. (evict g).1) s.shards in
    record s {
      shards = Shards.map_shards (λ g. (evict g).0) s.shards;
      ip_counts =
          remove_ip_rooms env.text (Shards.concat_shards (λ g. (evict g).2) s.shards) s.ip_counts;
      total_room_count =
          if total == 0 then s.total_room_count else fetch_sub s.total_room_count total;
    }
