-- ===== src/Protocol/Exchange/Config.antt =====
-- crates/qvole-protocol/src/exchange.rs: `PeerConfig` and `detect_outbound_addr`. Durations are in
-- nanoseconds; what the environment holds and the parser of numbers are parameters. Millisecond
-- values from the environment become durations without overflow, since a `Duration` counts seconds.
use qvole_rs.Base.{
  ℕ, zero, suc, ◌*◌, ◌/◌, ◌%◌, ◌^◌, Bool, ◌&&◌, Option, none, some, ◌++◌, ◌==◌, if◌then◌else◌,
  Bytes, bytes,
}
use qvole_rs.Relay.Addr.{SocketAddr, AddrText}
use qvole_rs.Protocol.Env.{I64, env_int_from, env_duration_ms_from}

-- The two fields that the exchange does not read are left to the transport.
pub record PeerConfig : Type 0 where
  pub punch_timeout : Option ℕ
  pub exchange_deadline : Option ℕ
  pub spake2_resend : Option ℕ
  pub confirm_resend : Option ℕ
  pub read_deadline : Option ℕ
  pub reg_interval : Option ℕ
  pub max_streams : Option ℕ
  pub forward_max_streams : Option ℕ
  pub keep_alive_period : Option ℕ
  pub idle_timeout : Option ℕ
  pub handshake_timeout : Option ℕ

module _ (parse : Bytes → Option I64) (var : Bytes → Option Bytes) where
  unfoldable pub resolve_dur : Option ℕ → Bytes → ℕ → ℕ
  resolve_dur (some (suc d)) env_name def = suc d
  resolve_dur (some zero) env_name def =
      env_duration_ms_from parse (var env_name) (def / 1000000) * 1000000
  resolve_dur none env_name def =
      env_duration_ms_from parse (var env_name) (def / 1000000) * 1000000

  unfoldable pub punch_timeout : PeerConfig → ℕ
  unfolding resolve_dur
  punch_timeout c = resolve_dur c.punch_timeout (bytes "QVOLE_PUNCH_TIMEOUT_MS") 10000000000

  unfoldable pub exchange_deadline : PeerConfig → ℕ
  unfolding resolve_dur
  exchange_deadline c =
      resolve_dur c.exchange_deadline (bytes "QVOLE_EXCHANGE_DEADLINE_MS") 90000000000

  unfoldable pub spake2_resend : PeerConfig → ℕ
  unfolding resolve_dur
  spake2_resend c = resolve_dur c.spake2_resend (bytes "QVOLE_SPAKE2_RESEND_MS") 2000000000

  unfoldable pub confirm_resend : PeerConfig → ℕ
  unfolding resolve_dur
  confirm_resend c = resolve_dur c.confirm_resend (bytes "QVOLE_CONFIRM_RESEND_MS") 2000000000

  unfoldable pub read_deadline : PeerConfig → ℕ
  unfolding resolve_dur
  read_deadline c = resolve_dur c.read_deadline (bytes "QVOLE_EXCHANGE_READ_DEADLINE_MS") 1000000000

  unfoldable pub reg_interval : PeerConfig → ℕ
  unfolding resolve_dur
  reg_interval c = resolve_dur c.reg_interval (bytes "QVOLE_REG_INTERVAL_MS") 30000000000

  -- The cast of `env_int` to 32 bits drops its upper half.
  unfoldable pub max_streams : PeerConfig → ℕ
  max_streams c = elim c.max_streams [
    | none ↦ env_int_from parse (var (bytes "QVOLE_MAX_STREAMS")) 100 % 2 ^ 32
    | some v ↦
        if v == 0 then env_int_from parse (var (bytes "QVOLE_MAX_STREAMS")) 100 % 2 ^ 32 else v
  ]

  unfoldable pub keep_alive_period : PeerConfig → ℕ
  unfolding resolve_dur
  keep_alive_period c = resolve_dur c.keep_alive_period (bytes "QVOLE_KEEPALIVE_MS") 5000000000

  unfoldable pub idle_timeout : PeerConfig → ℕ
  unfolding resolve_dur
  idle_timeout c = resolve_dur c.idle_timeout (bytes "QVOLE_IDLE_TIMEOUT_MS") 120000000000

  unfoldable pub handshake_timeout : PeerConfig → ℕ
  unfolding resolve_dur
  handshake_timeout c =
      resolve_dur c.handshake_timeout (bytes "QVOLE_HANDSHAKE_TIMEOUT_MS") 30000000000

-- `is_unspecified` and `port`
abbrev unspecified_port : SocketAddr → Bool × ℕ
unspecified_port (SocketAddr.v4 ip port) = (ip == 0, port)
unspecified_port (SocketAddr.v6 hi lo port flow scope) = (hi == 0 && lo == 0, port)

-- `decimal` is `Display` of a number.
unfoldable pub detect_outbound_addr : (ℕ → Bytes) → AddrText → SocketAddr → Bytes
detect_outbound_addr decimal text local =
    let (is_unspecified, port) = unspecified_port local in
    if is_unspecified then bytes "localhost:" ++ decimal port else text.to_string local
