-- ===== src/Relay/Invariant/Admit.antt =====
-- The steps by which the handlers of crates/qvole-relay/src/relay.rs sweep a room, and give it a
-- client and its link: lemmas on the invariant of the relay.
use qvole_rs.Base.Map
use qvole_rs.Base.{
  ℕ, ◌≡◌, refl, true, false, some, arith, Bool, Bytes, bytes_key, Bytes-discrete, if◌then◌else◌,
}
use qvole_rs.Relay.Addr.{IpAddr, AddrText, key_ip, ip_key_instance}
use qvole_rs.Relay.Room.{RoomEntry, UdpClient, remove_pending}
use qvole_rs.Relay.Room.Invariant as RoomInvariant
use qvole_rs.Relay.Shards
use qvole_rs.Relay.Pending.{room_name}
use qvole_rs.Relay.IpRooms.{IpRooms, linked, linked-add, add_ip_room}
use qvole_rs.Relay.State.{Relay, Env}
use qvole_rs.Relay.Reg.{set_room, sweep_room}
use qvole_rs.Relay.Invariant.{IsValid, AreLinked, caps}
use qvole_rs.Relay.Invariant.Table.{put_existing, swept}

-- The link is there already, or it is added.
abbrev pub grown : AddrText → IpAddr → Bytes → Bool → IpRooms → IpRooms
grown text ip room known links = if known then links else add_ip_room text ip room links

module _ (text : AddrText) (ip : IpAddr) (room : Bytes) where
  pub linked-grown :
      (known : Bool) (links : IpRooms)
      → (known ≡ true → linked text ip room links ≡ true)
      → linked text ip room (grown text ip room known links) ≡ true
  linked-grown true links h = h refl
  linked-grown false links h = ground (arith, linked-add text ip ip room room links)

  pub grown-keeps :
      (known : Bool) (links : IpRooms) (j : IpAddr) (r : Bytes)
      → linked text j r links ≡ true
      → linked text j r (grown text ip room known links) ≡ true
  grown-keeps true links j r h = h
  grown-keeps false links j r h = ground (arith, linked-add text ip j room r links)

pub udp_clients-remove_pending :
    (text : AddrText) (e : RoomEntry) (src : Bytes)
    → (remove_pending text e src).0.udp_clients ≡ e.udp_clients
unfolding remove_pending
udp_clients-remove_pending text e src = ground arith

module _ (text : AddrText) (room : Bytes) where
  -- A client joins, linked by its own address.
  pub AreLinked-insert :
      (e e' : RoomEntry) (addr : Bytes) (info : UdpClient) (links links' : IpRooms)
      → e'.udp_clients ≡ Map.insert addr info e.udp_clients
      → linked text (key_ip text addr) room links' ≡ true
      → ((j : IpAddr) (r : Bytes) → linked text j r links ≡ true → linked text j r links' ≡ true)
      → AreLinked text room e links
      → AreLinked text room e' links'
  AreLinked-insert e e' addr info links links' x own keep a other i g =
      elim (Bytes-discrete addr other) [
        | yes q ↦ rw⁻¹ q own
        | no n ↦
            keep (key_ip text other) room
              (a other i (ground (arith, x, Map.get-insert addr other info e.udp_clients)))
      ]

module _ (env : Env) (room : Bytes) where
  -- A room of the table is written, its links follow, and a registration is counted.
  pub write_room-IsValid :
      (s : Relay) (e0 e : RoomEntry) (links : IpRooms) (regs : ℕ)
      → Shards.find room_name room s.shards ≡ some e0
      → RoomInvariant.IsValid env.text (caps s.limits) e
      → AreLinked env.text room e links
      → ((j : IpAddr) (r : Bytes)
          → linked env.text j r s.ip_counts ≡ true
          → linked env.text j r links ≡ true)
      → IsValid env.text s
      → IsValid env.text (record (set_room room e s) { ip_counts = links; stat_regs = regs })
  write_room-IsValid s e0 e links regs f v a k h = record {
    sane = h.sane;
    table =
        put_existing env.text s.limits s.shards s.ip_counts links s.total_room_count room e0 e f v a
          (λ j r _. k j r) h.table;
    store = h.store;
  }

  pub set_room-IsValid :
      (s : Relay) (e0 e : RoomEntry)
      → Shards.find room_name room s.shards ≡ some e0
      → RoomInvariant.IsValid env.text (caps s.limits) e
      → AreLinked env.text room e s.ip_counts
      → IsValid env.text s
      → IsValid env.text (set_room room e s)
  set_room-IsValid s e0 e f v a h =
      let w = write_room-IsValid s e0 e s.ip_counts s.stat_regs f v a (λ j r x. x) h in
      record { sane = w.sane; table = w.table; store = w.store }

  pub sweep_room-IsValid :
      (s : Relay) (e : RoomEntry)
      → Shards.find room_name room s.shards ≡ some e
      → IsValid env.text s
      → IsValid env.text (set_room room (sweep_room env room e s).0 (sweep_room env room e s).1)
  unfolding sweep_room
  sweep_room-IsValid s e f h = record {
    sane = h.sane;
    table =
        swept env.text s.limits s.shards s.ip_counts s.total_room_count room e env.now f h.table;
    store = h.store;
  }

  pub find-set_room :
      (e : RoomEntry) (s : Relay) → Shards.find room_name room (set_room room e s).shards ≡ some e
  find-set_room e s = ground (arith, Shards.find-put room_name room room e s.shards)
