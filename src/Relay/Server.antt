-- ===== src/Relay/Server.antt =====
-- crates/qvole-relay/src/relay.rs: what `run` does with the relay between the start and the stop: a
-- packet of the queue, a packet that finds the queue full, and the two ticks of the cleanup task.
-- Any order of these is a history of the relay; the workers take one packet at a time here.
use qvole_rs.Base.{ℕ, ◌*◌, List, [], ◌∷◌, ◌++◌, map, Bytes, bytes_key}
use qvole_rs.Base.Map
use qvole_rs.Relay.Addr.{SocketAddr}
use qvole_rs.Relay.RegShard
use qvole_rs.Relay.DropLogLimiter
use qvole_rs.Relay.Shards
use qvole_rs.Relay.Pending.{fetch_add, remove_stale_pending_regs}
use qvole_rs.Relay.State.{Relay, Env, Datagram}
use qvole_rs.Relay.Evict.{evict_stale_rooms_all}
use qvole_rs.Relay.Packet.{handle_packet}

-- `total_rooms` and `total_clients`, of the stats line
unfoldable pub total_rooms : Relay → ℕ
total_rooms s = s.total_room_count

unfoldable pub total_clients : Relay → ℕ
total_clients s = Shards.total (λ room e. Map.len e.udp_clients) s.shards

unfoldable pub rate_tick : Env → Relay → Relay
rate_tick env s = record s {
  reg_shards = map (λ sh. RegShard.cleanup_stale sh env.now (s.rate_window * 2)) s.reg_shards;
  drop_log_limiter = DropLogLimiter.cleanup_stale s.drop_log_limiter env.now 2000;
}

unfoldable pub room_tick : Env → Relay → Relay
room_tick env s =
    let s' = evict_stale_rooms_all env s in
    record s' { store = remove_stale_pending_regs env.text s'.store env.now }

-- `tx.try_send(…).is_err()`
unfoldable pub queue_full : Relay → Relay
queue_full s = record s { stat_drops = fetch_add s.stat_drops 1 }

pub data Event : Type 0 where
  packet : Bytes → SocketAddr → Event
  lost rate room : Event

unfoldable pub step : Env → Event → Relay → Relay × List Datagram
unfolding rate_tick room_tick queue_full
step env (Event.packet datagram src) s = handle_packet env datagram src s
step env Event.lost s = (queue_full s, [])
step env Event.rate s = (rate_tick env s, [])
step env Event.room s = (room_tick env s, [])

unfoldable pub run : List (Env × Event) → Relay → Relay × List Datagram
unfolding step
run [] s = (s, [])
run ((env, event) ∷ events) s =
    let (s1, out) = step env event s in let (s2, rest) = run events s1 in (s2, out ++ rest)
