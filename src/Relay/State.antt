-- ===== src/Relay/State.antt =====
-- crates/qvole-relay/src/relay.rs: the state of `Relay`, and the paths by which it drops and writes
-- packets. A handler is given what it takes from outside: the instant, the random cookie, and how
-- each write ends. It returns the new state and the datagrams that left. Log lines are not modelled,
-- their throttle is.
use qvole_rs.Base.{
  ℕ, ◌%◌, ◌^◌, Bool, true, false, List, [], ◌∷◌, ◌++◌, Bytes, bytes, bytes_key, get_or, set,
  replicate,
}
use qvole_rs.Relay.Addr.{SocketAddr, AddrText, ip_key, ip_key_instance}
use qvole_rs.Relay.Text.{shard_idx}
use qvole_rs.Relay.RegShard
use qvole_rs.Relay.RegShard.{RegShard}
use qvole_rs.Relay.DropLogLimiter
use qvole_rs.Relay.DropLogLimiter.{DropLogLimiter}
use qvole_rs.Relay.Room.{RoomEntry}
use qvole_rs.Relay.Shards
use qvole_rs.Relay.Shards.{Shards}
use qvole_rs.Relay.Pending
use qvole_rs.Relay.Pending.{PendingStore, fetch_add, room_name}
use qvole_rs.Relay.IpRooms.{IpRooms}
use qvole_rs.Relay.Cookie.{to_hex_lower}

-- The limits that a running relay reads.
pub record Limits : Type 0 where
  pub max_rooms : ℕ
  pub max_rooms_per_ip : ℕ
  pub max_clients_hard : ℕ
  pub max_msg_rate : ℕ
  pub max_reg_rate : ℕ
  pub rate_window : ℕ
  pub reg_ttl : ℕ
  pub max_pending_per_ip : ℕ
  pub max_pending_global : ℕ
  pub max_pending_per_room : ℕ
  pub max_clients_per_prefix_per_room : ℕ

-- `Config::defaults`
abbrev pub defaults : Limits
defaults = record {
  max_rooms = 10000;
  max_rooms_per_ip = 10;
  max_clients_hard = 20;
  max_msg_rate = 10;
  max_reg_rate = 10;
  rate_window = 1000;
  reg_ttl = 60000;
  max_pending_per_ip = 50;
  max_pending_global = 65536;
  max_pending_per_room = 256;
  max_clients_per_prefix_per_room = 4;
}

pub record Relay : Type 0 where
  pub limits : Limits
  pub open limits use *
  pub shards : Shards Bytes RoomEntry
  pub reg_shards : List RegShard
  pub ip_counts : IpRooms
  pub store : PendingStore
  pub drop_log_limiter : DropLogLimiter
  pub total_room_count : ℕ
  pub stat_regs : ℕ
  pub stat_msgs : ℕ
  pub stat_drops : ℕ

-- `with_config`
unfoldable pub with_config : Limits → ℕ → Relay
with_config limits now = record {
  limits = limits;
  shards = Shards.new;
  reg_shards = replicate 16 RegShard.default;
  ip_counts = Shards.new;
  store = Pending.new;
  drop_log_limiter = DropLogLimiter.new now;
  total_room_count = 0;
  stat_regs = 0;
  stat_msgs = 0;
  stat_drops = 0;
}

abbrev pub msg_rate : Relay → ℕ
msg_rate s = s.max_msg_rate % 2 ^ 32

abbrev pub reg_rate : Relay → ℕ
reg_rate s = s.max_reg_rate % 2 ^ 32

-- How a write ends: sent, dropped because the write pool is full, or failed (an error of the socket
-- or the write deadline).
pub data Written : Type 0 where
  sent full failed : Written

pub record Env : Type 0 where
  pub text : AddrText
  pub now : ℕ
  pub cookie : Bytes
  pub write : SocketAddr → Written

abbrev pub Datagram : Type 0
Datagram = SocketAddr × Bytes

abbrev drop_log_interval : ℕ
drop_log_interval = 1000

-- The throttle of the log lines about one source.
unfoldable pub log_write_error : Env → SocketAddr → Relay → Relay
log_write_error env src s = record s {
  drop_log_limiter =
      (DropLogLimiter.allow s.drop_log_limiter (env.text.ip_to_string (ip_key src)) env.now
        drop_log_interval).0;
}

unfoldable pub drop_packet : Env → SocketAddr → Relay → Relay
unfolding log_write_error
drop_packet env src s =
    let s' = record s { stat_drops = fetch_add s.stat_drops 1 } in log_write_error env src s'

unfoldable pub is_reg_rate_limited : Env → Bytes → Relay → Relay × Bool
is_reg_rate_limited env key s =
    let i = shard_idx key 16 in
    let (shard, limited) =
      RegShard.is_limited (get_or s.reg_shards i RegShard.default) key env.now s.rate_window
        (reg_rate s) in
    (record s { reg_shards = set s.reg_shards i shard }, limited)

-- The state, whether the write was no error, and what left.
abbrev pub write_result : Written → Bytes → SocketAddr → Relay → Relay × Bool × List Datagram
write_result Written.sent msg addr s = (s, true, (addr, msg) ∷ [])
write_result Written.full msg addr s =
    (record s { stat_drops = fetch_add s.stat_drops 1 }, true, [])
write_result Written.failed msg addr s = (s, false, [])

unfoldable pub write_relay : Env → Bytes → SocketAddr → Relay → Relay × Bool × List Datagram
write_relay env msg addr s = write_result (env.write addr) msg addr s

abbrev pub after_write : Env → SocketAddr → Relay × Bool × List Datagram → Relay × List Datagram
after_write env src (s, true, out) = (s, out)
after_write env src (s, false, out) = (log_write_error env src s, out)

unfoldable pub regd_message : Env → Bytes → SocketAddr → Bytes
regd_message env room src =
    bytes "REGD " ++ (room ++ (bytes " OK " ++ (env.text.to_string src ++ bytes "\n")))

unfoldable pub challenge_message : Bytes → Bytes → Bytes
challenge_message room cookie =
    bytes "REGD " ++ (room ++ (bytes " " ++ (to_hex_lower cookie ++ bytes "\n")))

unfoldable pub send_regd : Env → Bytes → SocketAddr → Relay → Relay × List Datagram
unfolding write_relay
send_regd env room src s = after_write env src (write_relay env (regd_message env room src) src s)

unfoldable pub send_reg_challenge : Env → Bytes → Bytes → SocketAddr → Relay → Relay × List Datagram
unfolding write_relay
send_reg_challenge env room cookie src s =
    after_write env src (write_relay env (challenge_message room cookie) src s)
