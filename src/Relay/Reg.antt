-- ===== src/Relay/Reg.antt =====
-- crates/qvole-relay/src/relay.rs: the handler of REG packets, `handle_reg`, and
-- `reg_cookie_create_or_admit`. Each branch of the source is a function of its own.
pub mod Handler
pub mod Uncompleted
use qvole_rs.Base.Map
use qvole_rs.Base.Map.{Map}
use qvole_rs.Base.{
  ℕ, ◌+◌, ◌-◌, ◌*◌, Bool, true, false, not, ◌&&◌, ◌||◌, Option, none, some, List, [], ◌∷◌, ltb, leb,
  ◌==◌, if◌then◌else◌, Bytes, bytes_key, eqb, length,
}
use qvole_rs.Relay.Addr.{IpAddr, SocketAddr, AddrText, ip_key, key_ip, ip_key_instance}
use qvole_rs.Relay.Text.{is_valid_hex}
use qvole_rs.Relay.Action.{RegAction}
use qvole_rs.Relay.Cookie.{hex_decode}
use qvole_rs.Relay.Room
use qvole_rs.Relay.Room.{
  RoomEntry, PendingReg, UdpClient, new_client, add_pending, remove_pending, remove_stale_clients,
  pending_reg_ttl_ms, pending_cookie_bytes,
}
use qvole_rs.Relay.Shards
use qvole_rs.Relay.Shards.{index}
use qvole_rs.Relay.Pending
use qvole_rs.Relay.Pending.{
  fetch_add, fetch_sub, room_name, get_pending_reg, store_pending_reg, delete_pending_reg,
  pending_count_for_ip,
}
use qvole_rs.Relay.IpRooms.{add_ip_room, remove_ip_rooms, count_ip_rooms}
use qvole_rs.Relay.Evict.{evict_stale_rooms, evict_stale_rooms_all}
use qvole_rs.Relay.State.{
  Relay, Env, Datagram, drop_packet, is_reg_rate_limited, send_regd, send_reg_challenge,
}

-- A source: its address, the text under which it is filed, its accounting key.
abbrev pub src_str : Env → SocketAddr → Bytes
src_str env src = env.text.to_string src

unfoldable pub has_ip : AddrText → IpAddr → Bytes → UdpClient → Bool
has_ip text ip addr info = eqb (key_ip text addr) ip

unfoldable pub count_prefix_clients : AddrText → RoomEntry → IpAddr → ℕ
unfolding has_ip
count_prefix_clients text e prefix = Map.count (has_ip text prefix) e.udp_clients

abbrev pub set_room : Bytes → RoomEntry → Relay → Relay
set_room room e s = record s { shards = Shards.put room_name room e s.shards }

-- `entry.remove_stale_clients`, and the links that it reports dropped.
unfoldable pub sweep_room : Env → Bytes → RoomEntry → Relay → RoomEntry × Relay
sweep_room env room e s =
    let (e', unlinked) = remove_stale_clients env.text e room env.now s.reg_ttl in
    (e', record s { ip_counts = remove_ip_rooms env.text unlinked s.ip_counts })

-- The last `match` of a branch.
unfoldable pub perform : Env → Bytes → SocketAddr → Relay × RegAction → Relay × List Datagram
perform env room src (s, RegAction.regd) = send_regd env room src s
perform env room src (s, RegAction.challenge c) = send_reg_challenge env room c src s
perform env room src (s, RegAction.none) = (s, [])

abbrev pub drop_only : Env → SocketAddr → Relay → Relay × List Datagram
drop_only env src s = (drop_packet env src s, [])

abbrev pub reject : Env → SocketAddr → Relay → Relay × RegAction
reject env src s = (drop_packet env src s, RegAction.none)

-- The registration that a fresh challenge leaves behind.
abbrev pub fresh : Env → SocketAddr → PendingReg
fresh env src = record { cookie = env.cookie; created_at = env.now; resolved_addr = src }

-- A room that does not exist: file a registration and send its cookie.
unfoldable pub challenge_new : Env → Bytes → SocketAddr → Relay → Relay × List Datagram
challenge_new env room src s =
    if leb s.max_pending_per_ip (pending_count_for_ip env.text s.store (ip_key src))
    then drop_only env src s
    else let (store', stored) =
        store_pending_reg env.text s.store s.max_pending_global room (src_str env src)
          (fresh env src) in
      let s' = record s { store = store' } in
      if stored then send_reg_challenge env room env.cookie src s' else drop_only env src s'

abbrev pub at_ip_cap : Env → SocketAddr → Relay → Bool
at_ip_cap env src s = leb s.max_rooms_per_ip (count_ip_rooms env.text (ip_key src) s.ip_counts)

-- `created_at.elapsed() > PENDING_REG_TTL_MS`
abbrev pub is_late : Env → PendingReg → Bool
is_late env pend = ltb pending_reg_ttl_ms (env.now - pend.created_at)

-- A new client finds the room at its hard cap, or its prefix at the cap of the room.
abbrev pub is_full : Env → SocketAddr → RoomEntry → Relay → Bool
is_full env src e s =
    leb s.max_clients_hard (Map.len e.udp_clients)
    && not (Map.contains (src_str env src) e.udp_clients)

abbrev pub at_prefix_cap : Env → SocketAddr → RoomEntry → Relay → Bool
at_prefix_cap env src e s =
    not (Map.contains (src_str env src) e.udp_clients)
    && leb s.max_clients_per_prefix_per_room (count_prefix_clients env.text e (ip_key src))

-- A room for its first client.
unfoldable pub create_room : Env → Bytes → SocketAddr → SocketAddr → Relay → Relay × RegAction
create_room env room resolved src s =
    if leb s.max_rooms s.total_room_count
    then reject env src s
    else if at_ip_cap env src s
    then reject env src s
    else let e = Room.new env.now in
      let e' = record e {
        udp_clients =
            Map.insert (src_str env src) (new_client env.now (some resolved)) e.udp_clients;
        t = env.now;
      } in
      (
        record s {
          shards = Shards.put room_name room e' s.shards;
          total_room_count = fetch_add s.total_room_count 1;
          ip_counts = add_ip_room env.text (ip_key src) room s.ip_counts;
          stat_regs = fetch_add s.stat_regs 1;
        },
        RegAction.regd,
      )

-- The recheck of the room cap under the lock of the room's shard.
unfoldable pub evict_shard : Env → Bytes → Relay → Relay
evict_shard env room s =
    let i = index room_name room in
    let (rooms, n, unlinked) =
      evict_stale_rooms env.text (Shards.at i s.shards) env.now s.reg_ttl in
    if leb s.max_rooms s.total_room_count
    then record s {
      shards = Shards.set_at i rooms s.shards;
      total_room_count = if n == 0 then s.total_room_count else fetch_sub s.total_room_count n;
      ip_counts = remove_ip_rooms env.text unlinked s.ip_counts;
    }
    else s

-- An existing room takes a client whose cookie matched in the pending store.
unfoldable pub admit_completed :
    Env → Bytes → SocketAddr → SocketAddr → RoomEntry → Relay → Relay × RegAction
unfolding sweep_room count_prefix_clients
admit_completed env room resolved src e0 s0 =
    let (e, s1) = sweep_room env room e0 s0 in
    let s = set_room room e s1 in
    let addr = src_str env src in
    let ip_already = Map.any (has_ip env.text (ip_key src)) e.udp_clients in
    if is_full env src e s
    then reject env src s
    else if not ip_already && at_ip_cap env src s
    then reject env src s
    else if at_prefix_cap env src e s
    then reject env src s
    else let e' = record e {
      udp_clients = Map.insert addr (new_client env.now (some resolved)) e.udp_clients;
      t = env.now;
    } in
      let s' = set_room room e' s in
      (
        record s' {
          ip_counts =
              if ip_already
              then s.ip_counts
              else add_ip_room env.text (ip_key src) room s.ip_counts;
          stat_regs = fetch_add s.stat_regs 1;
        },
        RegAction.regd,
      )

-- The sweep of every shard at the room cap, before the shard of the room is locked.
unfoldable pub make_space : Env → Relay → Relay
make_space env s = if leb s.max_rooms s.total_room_count then evict_stale_rooms_all env s else s

-- The room is created, or joined.
unfoldable pub create_or_admit : Env → Bytes → SocketAddr → SocketAddr → Relay → Relay × RegAction
create_or_admit env room resolved src s = elim (Shards.find room_name room s.shards) [
  | none ↦ create_room env room resolved src (evict_shard env room s)
  | some e ↦ admit_completed env room resolved src e s
]

unfoldable pub reg_cookie_create_or_admit :
    Env → Bytes → SocketAddr → SocketAddr → Relay → Relay × RegAction
unfolding make_space create_or_admit
reg_cookie_create_or_admit env room resolved src s =
    create_or_admit env room resolved src (make_space env s)
