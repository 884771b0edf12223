-- ===== src/Relay/Msg.antt =====
-- crates/qvole-relay/src/relay.rs: `handle_msg`, which passes a message of an admitted client on to
-- the other clients of its room. The order of the targets is that of a hash map, which the source
-- leaves open; here it is the map's own list.
pub mod Targets
use qvole_rs.Base.Map
use qvole_rs.Base.Map.{Map}
use qvole_rs.Base.Split.{splitn}
use qvole_rs.Base.{
  ℕ, ◌<◌, Bool, true, false, not, ◌&&◌, ◌||◌, Option, none, some, List, [], ◌∷◌, ◌++◌, ltb,
  if◌then◌else◌, Bytes, bytes, bytes_key, eqb, length,
}
use qvole_rs.Relay.Addr.{SocketAddr}
use qvole_rs.Relay.Text.{valid_room_name, is_valid_hex}
use qvole_rs.Relay.RateLimiter
use qvole_rs.Relay.Room.{RoomEntry, UdpClient}
use qvole_rs.Relay.Shards
use qvole_rs.Relay.Pending.{fetch_add, room_name}
use qvole_rs.Relay.State.{Relay, Env, Datagram, drop_packet, write_relay, msg_rate}
use qvole_rs.Relay.Reg.{src_str, set_room, drop_only}

abbrev pub max_msg_body_len : ℕ
max_msg_body_len = 1024

-- The addresses of the clients other than the sender, where they are known.
unfoldable pub targets : Bytes → List (Bytes × UdpClient) → List SocketAddr
targets sender [] = []
targets sender ((addr, info) ∷ clients) =
    let rest = targets sender clients in
    if eqb addr sender then rest else elim info.resolved_addr [ some a ↦ a ∷ rest | none ↦ rest ]

-- One write for each target, in turn; a write that fails is only traced.
unfoldable pub write_all : Env → Bytes → List SocketAddr → Relay → Relay × List Datagram
unfolding write_relay
write_all env msg [] s = (s, [])
write_all env msg (t ∷ ts) s =
    let (s1, _, out) = write_relay env msg t s in
    let (s2, rest) = write_all env msg ts s1 in (s2, out ++ rest)

unfoldable pub msgd_message : Bytes → Bytes → Bytes
msgd_message phase body = bytes "MSGD " ++ (phase ++ (bytes " " ++ (body ++ bytes "\n")))

abbrev had_targets : List SocketAddr → Bool
had_targets [] = false
had_targets (t ∷ ts) = true

-- A message is counted when it had a target.
unfoldable pub relay_msg : Env → Bytes → Bytes → List SocketAddr → Relay → Relay × List Datagram
unfolding write_all
relay_msg env phase body ts s =
    let (s', out) = write_all env (msgd_message phase body) ts s in
    (if had_targets ts then record s' { stat_msgs = fetch_add s'.stat_msgs 1 } else s', out)

-- A message of a client of the room: its budget is charged first.
unfoldable pub msg_from :
    Env → Bytes → Bytes → Bytes → SocketAddr → RoomEntry → UdpClient → Relay → Relay × List Datagram
unfolding relay_msg
msg_from env room phase body src e info s0 =
    let addr = src_str env src in
    let (limiter, limited) =
      RateLimiter.is_limited info.rate_limiter env.now s0.rate_window (msg_rate s0) in
    let e' = record e {
      udp_clients = Map.insert addr (record info { rate_limiter = limiter }) e.udp_clients;
    } in
    let s = set_room room e' s0 in
    if limited
    then drop_only env src s
    else relay_msg env phase body (targets addr (Map.to_list e'.udp_clients)) s

unfoldable pub is_phase : Bytes → Bool
is_phase phase = eqb phase (bytes "spake2") || eqb phase (bytes "confirm")

-- The three parts of a message, checked in turn.
unfoldable pub msg_parts : Env → Bytes → Bytes → Bytes → SocketAddr → Relay → Relay × List Datagram
msg_parts env room phase body src s =
    if not (is_phase phase)
    then drop_only env src s
    else if not (valid_room_name room)
    then drop_only env src s
    else if not (is_valid_hex body) || ltb max_msg_body_len (length body)
    then drop_only env src s
    else elim (Shards.find room_name room s.shards) [
      | none ↦ drop_only env src s
      | some e ↦ elim (Map.get (src_str env src) e.udp_clients) [
        | none ↦ drop_only env src s
        | some info ↦ msg_from env room phase body src e info s
      ]
    ]

-- `SplitN` must yield exactly three parts.
abbrev pub dispatch : Env → List Bytes → SocketAddr → Relay → Relay × List Datagram
dispatch env [] src s = drop_only env src s
dispatch env (a ∷ []) src s = drop_only env src s
dispatch env (a ∷ b ∷ []) src s = drop_only env src s
dispatch env (room ∷ phase ∷ body ∷ []) src s = msg_parts env room phase body src s
dispatch env (a ∷ b ∷ c ∷ d ∷ rest) src s = drop_only env src s

unfoldable pub handle_msg : Env → Bytes → SocketAddr → Relay → Relay × List Datagram
unfolding msg_parts
handle_msg env payload src s = dispatch env (splitn 3 b' ' payload) src s
