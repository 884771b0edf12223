-- ===== src/Relay/Invariant.antt =====
-- The invariant of the relay of crates/qvole-relay/src/relay.rs between two packets. The room table
-- has its own, over the four values that it is made of.
pub mod Table
pub mod Evict
pub mod Frame
pub mod Admit
pub mod Join
pub mod Reg
pub mod Handle
pub mod Run
pub mod Start
use qvole_rs.Base.Map
use qvole_rs.Base.{ℕ, ◌≤◌, ◌<◌, ◌^◌, ◌≡◌, true, some, Bytes, bytes_key}
use qvole_rs.Relay.Addr.{AddrText, key_ip, ip_key_instance}
use qvole_rs.Relay.Room.{RoomEntry, UdpClient}
use qvole_rs.Relay.Room.Invariant.{Caps}
use qvole_rs.Relay.Room.Invariant as RoomInvariant
use qvole_rs.Relay.Shards
use qvole_rs.Relay.Shards.{Shards}
use qvole_rs.Relay.Shards.Placed.{IsPlaced}
use qvole_rs.Relay.Pending.{room_name}
use qvole_rs.Relay.Pending.Invariant as PendingInvariant
use qvole_rs.Relay.IpRooms.{IpRooms, linked}
use qvole_rs.Relay.State.{Relay, Limits}

abbrev pub caps : Limits → Caps
caps l = record {
  clients = l.max_clients_hard;
  prefix = l.max_clients_per_prefix_per_room;
  pending = l.max_pending_per_room;
}

-- The limits fit a machine word, and a room may hold a client: what `env_int` gives.
pub record IsSane (l : Limits) : Type 0 where
  pub rooms_fit : l.max_rooms < 2 ^ 64
  pub pending_fits : l.max_pending_global < 2 ^ 64
  pub a_client : 0 < l.max_clients_hard
  pub a_prefix : 0 < l.max_clients_per_prefix_per_room

abbrev pub one_each : Bytes → RoomEntry → ℕ
one_each room e = 1

-- Every client of the room is linked to it by its accounting key.
abbrev pub AreLinked : AddrText → Bytes → RoomEntry → IpRooms → Type 0
AreLinked text room e links =
    (addr : Bytes) (info : UdpClient)
    → Map.get addr e.udp_clients ≡ some info
    → linked text (key_ip text addr) room links ≡ true

pub record IsTable (text : AddrText) (l : Limits) (rooms : Shards Bytes RoomEntry) (links : IpRooms)
    (n : ℕ) : Type 0 where
  pub exact : n ≡ Shards.total one_each rooms
  pub capped : n ≤ l.max_rooms
  pub placed : IsPlaced room_name rooms
  pub each :
      (room : Bytes) (e : RoomEntry)
      → Shards.find room_name room rooms ≡ some e
      → RoomInvariant.IsValid text (caps l) e
  pub all_linked :
      (room : Bytes) (e : RoomEntry)
      → Shards.find room_name room rooms ≡ some e
      → AreLinked text room e links

pub record IsValid (text : AddrText) (s : Relay) : Type 0 where
  pub sane : IsSane s.limits
  pub table : IsTable text s.limits s.shards s.ip_counts s.total_room_count
  pub store : PendingInvariant.IsValid text s.max_pending_global s.store

-- The same of the relay that an operation returns beside its answer.
pub record Keeps {A : Type 0} (text : AddrText) (r : Relay × A) : Type 0 where
  pub ok : IsValid text r.0
