-- ===== src/Relay/Reg/Handler.antt =====
-- crates/qvole-relay/src/relay.rs: `handle_reg` itself, with the cookie completion of an existing
-- room and the first REG of a client.
use qvole_rs.Base.Map
use qvole_rs.Base.Map.{Map}
use qvole_rs.Base.{
  ◌+◌, ◌*◌, Bool, not, ◌&&◌, ◌||◌, none, some, List, leb, ◌==◌, if◌then◌else◌, Bytes, bytes_key,
  eqb, length,
}
use qvole_rs.Relay.Addr.{SocketAddr, ip_key, key_ip, ip_key_instance}
use qvole_rs.Relay.Text.{is_valid_hex}
use qvole_rs.Relay.Action.{RegAction}
use qvole_rs.Relay.Cookie.{hex_decode}
use qvole_rs.Relay.Room.{
  RoomEntry, PendingReg, UdpClient, new_client, add_pending, remove_pending, pending_cookie_bytes,
}
use qvole_rs.Relay.Room
use qvole_rs.Relay.Shards
use qvole_rs.Relay.Pending.{
  fetch_add, room_name, get_pending_reg, delete_pending_reg, pending_count_for_ip,
}
use qvole_rs.Relay.IpRooms.{add_ip_room}
use qvole_rs.Relay.State.{Relay, Env, Datagram, is_reg_rate_limited}
use qvole_rs.Relay.Reg.{
  src_str, is_full, at_prefix_cap, has_ip, count_prefix_clients, set_room, sweep_room, perform,
  drop_only, reject, fresh, challenge_new, at_ip_cap, is_late, reg_cookie_create_or_admit,
}

-- Some other client of the room has the accounting key.
abbrev pub other_has_ip : Env → SocketAddr → Bytes → UdpClient → Bool
other_has_ip env src a info = not (eqb a (src_str env src)) && eqb (key_ip env.text a) (ip_key src)

-- A matching cookie, in time: the caps are checked again after the sweep.
unfoldable pub admit_matched :
    Env → Bytes → SocketAddr → PendingReg → RoomEntry → Relay → Relay × RegAction
unfolding sweep_room count_prefix_clients remove_pending
admit_matched env room src pend e0 s0 =
    let (e, s1) = sweep_room env room e0 s0 in
    let s = set_room room e s1 in
    let addr = src_str env src in
    let is_new = not (Map.contains addr e.udp_clients) in
    let ip_known = Map.any (has_ip env.text (ip_key src)) e.udp_clients in
    if is_full env src e s
    then reject env src s
    else if is_new && (not ip_known && at_ip_cap env src s)
    then reject env src s
    else if at_prefix_cap env src e s
    then reject env src s
    else let e1 = (remove_pending env.text e addr).0 in
      let e2 = record e1 {
        udp_clients = Map.insert addr (new_client env.now (some pend.resolved_addr)) e1.udp_clients;
        t = env.now;
      } in
      let s' = set_room room e2 s in
      (
        record s' {
          ip_counts =
              if Map.any (other_has_ip env src) e2.udp_clients
              then s.ip_counts
              else add_ip_room env.text (ip_key src) room s.ip_counts;
          stat_regs = fetch_add s.stat_regs 1;
        },
        RegAction.regd,
      )

-- A cookie for an existing room.
unfoldable pub reg_room_cookie :
    Env → Bytes → Bytes → SocketAddr → RoomEntry → Relay → Relay × RegAction
unfolding remove_pending
reg_room_cookie env room cookie src e s = elim (Map.get (src_str env src) e.pending) [
  | none ↦ reject env src s
  | some pend ↦
      if not (eqb pend.cookie cookie)
      then reject env src s
      else if is_late env pend
      then reject env src (set_room room (remove_pending env.text e (src_str env src)).0 s)
      else admit_matched env room src pend e s
]

-- A cookie for a registration of the pending store.
unfoldable pub reg_pending_cookie :
    Env → Bytes → Bytes → SocketAddr → PendingReg → Relay → Relay × List Datagram
reg_pending_cookie env room cookie src pend s =
    let s' = record s { store = delete_pending_reg env.text s.store room (src_str env src) } in
    if not (eqb pend.cookie cookie)
    then drop_only env src s
    else if is_late env pend
    then drop_only env src s'
    else perform env room src (reg_cookie_create_or_admit env room pend.resolved_addr src s')

-- A REG that carries a cookie, decoded.
unfoldable pub reg_cookie : Env → Bytes → Bytes → SocketAddr → Relay → Relay × List Datagram
reg_cookie env room cookie src s = elim (get_pending_reg s.store room (src_str env src)) [
  | some pend ↦ reg_pending_cookie env room cookie src pend s
  | none ↦ elim (Shards.find room_name room s.shards) [
    | none ↦ if at_ip_cap env src s then drop_only env src s else challenge_new env room src s
    | some e ↦ perform env room src (reg_room_cookie env room cookie src e s)
  ]
]

-- A first REG, or a refresh, in an existing room that has been swept.
unfoldable pub reg_room : Env → Bytes → SocketAddr → RoomEntry → Relay → Relay × RegAction
unfolding sweep_room add_pending
reg_room env room src e0 s0 =
    let (e, s1) = sweep_room env room e0 s0 in
    let s = set_room room e s1 in
    let addr = src_str env src in
    if is_full env src e s then reject env src s else elim (Map.get addr e.udp_clients) [
      | some info ↦
          let info' = record info { last_seen = env.now; resolved_addr = some src } in
          let s' =
            set_room room (record e { udp_clients = Map.insert addr info' e.udp_clients }) s in
          (record s' { stat_regs = fetch_add s.stat_regs 1 }, RegAction.regd)
      | none ↦ elim (Map.get addr e.pending) [
        | some pend ↦
            let pend' = record pend { created_at = env.now; resolved_addr = src } in
            (
              set_room room (record e { pending = Map.insert addr pend' e.pending }) s,
              RegAction.challenge pend.cookie,
            )
        | none ↦
            if leb s.max_pending_per_ip (
              pending_count_for_ip env.text s.store (ip_key src)
              + Room.pending_count_for_ip e (ip_key src))
            then reject env src s
            else let (e', stored) =
                add_pending env.text e addr (fresh env src) s.max_pending_per_room in
              if stored
              then (set_room room e' s, RegAction.challenge env.cookie)
              else reject env src s
      ]
    ]

unfoldable pub reg_initial : Env → Bytes → SocketAddr → Relay → Relay × List Datagram
reg_initial env room src s =
    if at_ip_cap env src s
    then drop_only env src s
    else elim (Shards.find room_name room s.shards) [
      | none ↦ challenge_new env room src s
      | some e ↦ perform env room src (reg_room env room src e s)
    ]

-- The text of the cookie is checked before it is decoded.
unfoldable pub reg_cookie_text : Env → Bytes → Bytes → SocketAddr → Relay → Relay × List Datagram
reg_cookie_text env room cookie src s =
    if not (is_valid_hex cookie) || not (length cookie == pending_cookie_bytes * 2)
    then drop_only env src s
    else elim (hex_decode cookie) [
      | none ↦ drop_only env src s
      | some decoded ↦ reg_cookie env room decoded src s
    ]

unfoldable pub handle_reg : Env → Bytes → Bytes → SocketAddr → Relay → Relay × List Datagram
handle_reg env room cookie src s0 =
    let (s, limited) = is_reg_rate_limited env (env.text.ip_to_string (ip_key src)) s0 in
    if limited
    then drop_only env src s
    else if not (length cookie == 0)
    then reg_cookie_text env room cookie src s
    else reg_initial env room src s
