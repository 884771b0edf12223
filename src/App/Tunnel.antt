-- ===== src/App/Tunnel.antt =====
-- crates/qvole-app/src/tunnel.rs: the exchange of tunnel configurations over the control stream, and
-- the idle timeout. What a stream gives is its bytes, and whether it breaks behind them or ends. The
-- control stream itself, its timeouts and the cancellation are left out.
pub mod Lines
pub mod Agreement
use qvole_rs.Base.Result.{Result, ok, err, map_err, ◌>>=◌}
use qvole_rs.Base.{
  ℕ, zero, suc, ◌*◌, ◌/◌, ◌^◌, ◌-◌, Bool, true, false, Option, none, some, List, [], ◌∷◌, ◌++◌, leb,
  ltb, ◌==◌, if◌then◌else◌, Bytes, bytes, bytes_key, eqb, length, min,
}
use qvole_rs.Protocol.Env.{I64}
use qvole_rs.App.TunnelRequest.{TunnelRequest, strip_eol}
use qvole_rs.App.TunnelRequest.Read.{
  TunnelRequestError, max_tunnel_requests, scanner_max_token_size, read_requests_from_stream,
}

pub data ConfigError : Type 0 where
  too_many_requests : ℕ → ConfigError
  unexpected_eof accept_too_long read_accept : ConfigError
  unexpected_line : Bytes → ConfigError
  read_requests : TunnelRequestError → ConfigError

-- Durations are in nanoseconds; the number is what the environment holds, when it is one.
unfoldable pub stream_idle_timeout_from : ℕ → Option I64 → ℕ
stream_idle_timeout_from (suc d) env_val = suc d
stream_idle_timeout_from zero none = 0
stream_idle_timeout_from zero (some (I64.negsuc n)) = 0
stream_idle_timeout_from zero (some (I64.pos ms)) = min ms ((2 ^ 63 - 1) / 1000) * 1000000

unfoldable pub accept_line : Bool → Bytes
accept_line true = bytes "ACCEPT true\n"
accept_line false = bytes "ACCEPT false\n"

unfoldable pub request_line : TunnelRequest → Bytes
request_line r = r.typ ++ (b' ' ∷ (r.listen_addr ++ (b' ' ∷ (r.target_addr ++ b'\n' ∷ []))))

abbrev pub request_lines : List TunnelRequest → Bytes
request_lines [] = []
request_lines (r ∷ reqs) = request_line r ++ request_lines reqs

-- What a side writes.
unfoldable pub write_config : Bool → List TunnelRequest → Bytes
write_config accepts reqs = accept_line accepts ++ (request_lines reqs ++ bytes "END\n")

abbrev pub accepted : Bytes → Bytes → Result ConfigError (Bool × Bytes)
accepted text rest =
    if eqb text (bytes "ACCEPT true")
    then ok (true, rest)
    else if eqb text (bytes "ACCEPT false")
    then ok (false, rest)
    else err (ConfigError.unexpected_line text)

-- The requests of the client come first; and the index of the first own one.
unfoldable pub combine : Bool → List TunnelRequest → List TunnelRequest → List TunnelRequest × ℕ
combine true my_reqs peer_reqs = (peer_reqs ++ my_reqs, length peer_reqs)
combine false my_reqs peer_reqs = (my_reqs ++ peer_reqs, 0)

module _ (lossy : Bytes → Bytes) (is_broken : Bool) where
  -- The answer, and the bytes behind its line.
  unfoldable pub read_accept_from : Bytes → Bytes → Result ConfigError (Bool × Bytes)
  read_accept_from [] line =
      if is_broken then err ConfigError.read_accept else err ConfigError.unexpected_eof
  read_accept_from (c ∷ b) line = elim (c == b'\n') [
    | true ↦ accepted (lossy (strip_eol line)) b
    | false ↦ elim (leb scanner_max_token_size (length line)) [
      | true ↦ err ConfigError.accept_too_long
      | false ↦ read_accept_from b (line ++ c ∷ [])
    ]
  ]

  unfoldable pub read_accept_line : Bytes → Result ConfigError (Bool × Bytes)
  unfolding read_accept_from
  read_accept_line input = read_accept_from input []

  unfoldable pub read_config : Bytes → Result ConfigError (Bool × List TunnelRequest)
  unfolding read_accept_line
  read_config input = do
    accept ← read_accept_line input
    reqs ← map_err ConfigError.read_requests (read_requests_from_stream lossy is_broken accept.1)
    ok (accept.0, reqs)

  -- From what the peer's side of the stream gives: whether the peer accepts, all requests, and the
  -- index of the first own one. What this side writes is `write_config`.
  unfoldable pub exchange_tunnel_config :
      Bool → List TunnelRequest → Bytes → Result ConfigError (Bool × List TunnelRequest × ℕ)
  unfolding read_config combine
  exchange_tunnel_config is_server my_reqs input =
      if ltb max_tunnel_requests (length my_reqs)
      then err (ConfigError.too_many_requests (length my_reqs))
      else do
        config ← read_config input
        ok (
          config.0,
          (combine is_server my_reqs config.1).0,
          (combine is_server my_reqs config.1).1,
        )
