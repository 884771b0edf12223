-- ===== src/Relay/Packet.antt =====
-- crates/qvole-relay/src/relay.rs: `handle_packet`, which takes one datagram to its handler.
use qvole_rs.Base.Split.{splitn}
use qvole_rs.Base.{
  ℕ, Bool, not, ◌&&◌, ◌||◌, List, [], ◌∷◌, ltb, leb, ◌==◌, if◌then◌else◌, Bytes, bytes, bytes_key,
  eqb, length, take, drop,
}
use qvole_rs.Relay.Addr.{SocketAddr}
use qvole_rs.Relay.Text.{valid_room_name, trim_ascii_space, max_datagram_len}
use qvole_rs.Relay.State.{Relay, Env, Datagram}
use qvole_rs.Relay.Reg.{drop_only}
use qvole_rs.Relay.Reg.Handler.{handle_reg}
use qvole_rs.Relay.Msg.{handle_msg}

abbrev pub cmd_prefix_len : ℕ
cmd_prefix_len = 4

unfoldable pub is_command : Bytes → Bytes → Bool
is_command prefix b = leb cmd_prefix_len (length b) && eqb (take (length prefix) b) prefix

-- The name and the cookie of a REG.
unfoldable pub reg_parts : Bytes → Bytes × Bytes
reg_parts rest = elim (splitn 2 b' ' rest) [
  | r ∷ c ∷ _ ↦ (r, trim_ascii_space c)
  | r ∷ [] ↦ (r, [])
  | [] ↦ ([], [])  -- `unreachable!()`
]

unfoldable pub reg_packet : Env → Bytes → SocketAddr → Relay → Relay × List Datagram
unfolding reg_parts
reg_packet env rest src s =
    let (room, cookie) = reg_parts rest in
    if length room == 0
    then drop_only env src s
    else if not (valid_room_name room)
    then drop_only env src s
    else handle_reg env room cookie src s

unfoldable pub handle_packet : Env → Bytes → SocketAddr → Relay → Relay × List Datagram
unfolding is_command reg_packet
handle_packet env datagram src s =
    if length datagram == 0 || ltb max_datagram_len (length datagram)
    then drop_only env src s
    else let trimmed = trim_ascii_space datagram in
      if is_command (bytes "REG ") trimmed
      then reg_packet env (trim_ascii_space (drop cmd_prefix_len trimmed)) src s
      else if is_command (bytes "MSG ") trimmed
      then handle_msg env (drop cmd_prefix_len trimmed) src s
      else drop_only env src s
