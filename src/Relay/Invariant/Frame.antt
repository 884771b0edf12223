-- ===== src/Relay/Invariant/Frame.antt =====
-- What the handlers of crates/qvole-relay/src/relay.rs do to counters, limiters and sockets: lemmas
-- on the invariant of the relay.
use qvole_rs.Base.{Bool, true, false, List, Bytes}
use qvole_rs.Relay.Addr.{SocketAddr}
use qvole_rs.Relay.Action.{RegAction}
use qvole_rs.Relay.State.{
  Relay, Env, Datagram, Written, drop_packet, log_write_error, is_reg_rate_limited, write_relay,
  write_result, after_write, send_regd, send_reg_challenge,
}
use qvole_rs.Relay.Reg.{perform}
use qvole_rs.Relay.Invariant.{IsValid}

module _ (env : Env) where
  pub drop_packet-IsValid :
      (src : SocketAddr) (s : Relay) → IsValid env.text s → IsValid env.text (drop_packet env src s)
  unfolding drop_packet log_write_error
  drop_packet-IsValid src s v = record { sane = v.sane; table = v.table; store = v.store }

  pub is_reg_rate_limited-IsValid :
      (key : Bytes) (s : Relay)
      → IsValid env.text s
      → IsValid env.text (is_reg_rate_limited env key s).0
  unfolding is_reg_rate_limited
  is_reg_rate_limited-IsValid key s v = record { sane = v.sane; table = v.table; store = v.store }

  write_result-IsValid :
      (w : Written) (msg : Bytes) (addr : SocketAddr) (s : Relay)
      → IsValid env.text s
      → IsValid env.text (write_result w msg addr s).0
  write_result-IsValid Written.sent msg addr s v = v
  write_result-IsValid Written.full msg addr s v = record {
    sane = v.sane;
    table = v.table;
    store = v.store;
  }
  write_result-IsValid Written.failed msg addr s v = v

  pub write_relay-IsValid :
      (msg : Bytes) (addr : SocketAddr) (s : Relay)
      → IsValid env.text s
      → IsValid env.text (write_relay env msg addr s).0
  unfolding write_relay
  write_relay-IsValid msg addr s v = write_result-IsValid (env.write addr) msg addr s v

  after_write-IsValid :
      (src : SocketAddr) (r : Relay × Bool × List Datagram)
      → IsValid env.text r.0
      → IsValid env.text (after_write env src r).0
  unfolding log_write_error
  after_write-IsValid src (s, true, out) v = v
  after_write-IsValid src (s, false, out) v = record {
    sane = v.sane;
    table = v.table;
    store = v.store;
  }

  pub send_reg_challenge-IsValid :
      (room cookie : Bytes) (src : SocketAddr) (s : Relay)
      → IsValid env.text s
      → IsValid env.text (send_reg_challenge env room cookie src s).0
  unfolding send_reg_challenge
  send_reg_challenge-IsValid room cookie src s v =
      after_write-IsValid src _ (write_relay-IsValid _ src s v)

  pub perform-IsValid :
      (room : Bytes) (src : SocketAddr) (r : Relay × RegAction)
      → IsValid env.text r.0
      → IsValid env.text (perform env room src r).0
  unfolding perform send_regd
  perform-IsValid room src (s, RegAction.regd) v =
      after_write-IsValid src _ (write_relay-IsValid _ src s v)
  perform-IsValid room src (s, RegAction.challenge c) v = send_reg_challenge-IsValid room c src s v
  perform-IsValid room src (s, RegAction.none) v = v
