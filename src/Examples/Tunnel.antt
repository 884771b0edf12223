-- ===== src/Examples/Tunnel.antt =====
-- The theorems on tunnel configurations, punches and buffers at concrete inputs.
use qvole_rs.Base.Result.{ok}
use qvole_rs.Base.{
  ◌/◌, min, ◌≡◌, refl, true, false, some, inl, List, [], ◌∷◌, arith, Bytes, bytes, Bytes-discrete,
  ℕ_discrete,
}
use qvole_rs.Base.Split.{splitn, split_once}
use qvole_rs.Relay.Addr.{IpAddr, SocketAddr, IpAddr-discrete}
use qvole_rs.Protocol.Pool
use qvole_rs.Protocol.Pool.{Use, get_buffer, used, zeroed, buffer_pool_size}
use qvole_rs.Protocol.Punch
use qvole_rs.Protocol.Punch.{
  Heard, Listened, Signal, Came, ip, listen_for_punch, punch, start_hole_punching, ticks_of, cycle,
}
use qvole_rs.App.TunnelRequest.{TunnelRequest, parse_addr, strip_eol}
use qvole_rs.App.TunnelRequest.Read
use qvole_rs.App.TunnelRequest.Read.{AreRequests, read_requests_from_stream, read_from, on_line}
use qvole_rs.App.Tunnel.{exchange_tunnel_config, write_config}
use qvole_rs.App.Tunnel.Lines.{IsLine}
use qvole_rs.App.Tunnel.Agreement

get_buffer-used_example :
    (get_buffer (used (Use.given (255 ∷ []) ∷ Use.taken ∷ []) [])).0 ≡ zeroed buffer_pool_size
get_buffer-used_example = Pool.get_buffer-used (Use.given (255 ∷ []) ∷ Use.taken ∷ [])

abbrev peer : IpAddr
peer = IpAddr.v4 7

abbrev heard : List Heard
heard =
    Heard.packet 5 (SocketAddr.v4 8 80) ∷ Heard.silent ∷ Heard.packet 5 (SocketAddr.v4 7 90) ∷ []

peer_observed : listen_for_punch (some peer) heard ≡ Listened.observed (SocketAddr.v4 7 90)
unfolding listen_for_punch IpAddr-discrete ℕ_discrete
peer_observed = refl

listen_for_punch-observed_example :
    (ip (SocketAddr.v4 7 90) ≡ peer) × Came (SocketAddr.v4 7 90) heard
listen_for_punch-observed_example =
    Punch.listen_for_punch-observed peer heard (SocketAddr.v4 7 90) peer_observed

abbrev seven_ticks : List Signal
seven_ticks =
    Signal.tick ∷ Signal.tick ∷ Signal.tick ∷ Signal.tick ∷ Signal.tick ∷ Signal.tick ∷ Signal.tick
    ∷ Signal.stop ∷ []

punch-schedule_example :
    ((punch seven_ticks start_hole_punching).0.interval_idx ≡ min (ticks_of seven_ticks / 5) 2)
    × ((punch seven_ticks start_hole_punching).1 ≡ cycle 0 (ticks_of seven_ticks))
punch-schedule_example = Punch.punch-schedule seven_ticks

abbrev unchanged : Bytes → Bytes
unchanged b = b

abbrev web : TunnelRequest
web = record {
  typ = bytes "L";
  listen_addr = bytes "127.0.0.1:80";
  target_addr = bytes "localhost:81";
}

web_read :
    read_requests_from_stream unchanged false (bytes "L 127.0.0.1:80 localhost:81\nEND\n")
    ≡ ok (web ∷ [])
unfolding read_requests_from_stream read_from on_line strip_eol parse_addr splitn split_once
    Bytes-discrete ℕ_discrete
web_read = refl

read_requests_from_stream-AreRequests_example : AreRequests (web ∷ [])
read_requests_from_stream-AreRequests_example =
    Read.read_requests_from_stream-AreRequests unchanged false
      (bytes "L 127.0.0.1:80 localhost:81\nEND\n") (web ∷ []) web_read

web-IsLine : IsLine web
web-IsLine = (inl refl, ground arith, ground arith, omega arith)

exchange_tunnel_config-agree_example :
    (exchange_tunnel_config unchanged false false (web ∷ []) (write_config true (web ∷ []))
      ≡ ok (true, web ∷ web ∷ [], 0))
    × (exchange_tunnel_config unchanged false true (web ∷ []) (write_config false (web ∷ []))
        ≡ ok (false, web ∷ web ∷ [], 1))
exchange_tunnel_config-agree_example =
    Agreement.exchange_tunnel_config-agree unchanged false (λ b h. refl) false true (web ∷ [])
      (web ∷ []) (web-IsLine, tt) (web-IsLine, tt) (omega arith) (omega arith)
