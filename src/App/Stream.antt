-- ===== src/App/Stream.antt =====
-- crates/qvole-app/src/tunnel.rs: `handle_tunnel_stream_with_timeout`, `announce_tunnel_once`. The
-- attempts to dial are numbered, and `connects` says which succeed; the bytes that are bridged, the
-- timeouts and log lines are left out. `parse_port` is `str::parse::<u16>`.
pub mod Allowed
use qvole_rs.Base.Map
use qvole_rs.Base.Map.{Map}
use qvole_rs.Base.{
  ℕ, zero, suc, ◌+◌, ◌*◌, Bool, true, false, not, ◌&&◌, Option, none, some, List, [], ◌∷◌, leb, ltb,
  if◌then◌else◌, Bytes, bytes, bytes_key, Key, ℕ_discrete, eqb,
}
use qvole_rs.Relay.Addr.{IpAddr}
use qvole_rs.App.TunnelRequest.{TunnelRequest}
use qvole_rs.App.TunnelAllow.{Names, TunnelAllow, forward_ips}

instance abbrev pub nat_key : Key ℕ
nat_key = record { dec = ℕ_discrete }

abbrev pub get_elem? {ℓ} : {A : Type ℓ} → List A → ℕ → Option A
get_elem? [] n = none
get_elem? (x ∷ xs) zero = some x
get_elem? (x ∷ xs) (suc n) = get_elem? xs n

-- What `timeout(read_exact(header))` gives. When the stream ends or breaks early the buffer holds
-- the bytes that came, and zeros behind them. The handler tests the timeout twice, never this.
pub data Header : Type 0 where
  elapsed : Header
  read : ℕ → ℕ → Header
  broken : ℕ → ℕ → Header

-- What is given to `TcpStream::connect`: a text, or an address and a port.
pub data Target : Type 0 where
  named : Bytes → Target
  address : IpAddr → ℕ → Target

-- What was dialled in turn, what the stream is bridged to, and the specs that were announced.
pub record Handled : Type 0 where
  pub dialled : List Target
  pub bridged : Option Target
  pub announced : Map ℕ Bool

abbrev pub was_announced : Option Bool → Bool
was_announced none = false
was_announced (some b) = b

-- Whether this call announces, and the map that is left.
unfoldable pub announce_tunnel_once : Map ℕ Bool → ℕ → Bool × Map ℕ Bool
announce_tunnel_once announced idx =
    if was_announced (Map.get idx announced)
    then (false, announced)
    else (true, Map.insert idx true announced)

unfoldable pub is_mine : ℕ → ℕ → ℕ → Bool
is_mine my_req_start my_req_count idx =
    leb my_req_start idx && ltb idx (my_req_start + my_req_count)

module _ (connects : ℕ → Bool) where
  unfoldable pub dial_tcp : Target → List Target × Option Target
  dial_tcp target = (target ∷ [], if connects 0 then some target else none)

  unfoldable pub dial_each : ℕ → ℕ → List IpAddr → List Target × Option Target
  dial_each n port [] = ([], none)
  dial_each n port (ip ∷ ips) =
      let addr = Target.address ip port in
      let (dialled, tcp) = dial_each (suc n) port ips in
      if connects n then (addr ∷ [], some addr) else (addr ∷ dialled, tcp)

  module _ (names : Names) (parse_port : Bytes → Option ℕ) (allow : TunnelAllow) where
    unfoldable pub dial_allowed : List IpAddr × Bytes → List Target × Option Target
    unfolding dial_each
    dial_allowed (ips, port_str) = elim (parse_port port_str) [
      | none ↦ ([], none)
      | some port ↦ dial_each 0 port ips
    ]

    -- `None` where the stream is refused before anything is dialled.
    unfoldable pub dial_for : TunnelRequest → Bool → Option (List Target × Option Target)
    unfolding dial_tcp dial_allowed
    dial_for req my_req =
        if eqb req.typ (bytes "L") && my_req
        then none
        else if eqb req.typ (bytes "R") && not my_req
        then none
        else if my_req
        then some (dial_tcp (Target.named req.target_addr))
        else elim (forward_ips names allow req.target_addr) [
          | none ↦ none
          | some target ↦ some (dial_allowed target)
        ]

    module _ (reqs : List TunnelRequest) (my_req_start my_req_count : ℕ) where
      abbrev pub bridge : Map ℕ Bool → ℕ → List Target × Option Target → Handled
      bridge announced idx (dialled, none) = record {
        dialled = dialled;
        bridged = none;
        announced = announced;
      }
      bridge announced idx (dialled, some tcp) = record {
        dialled = dialled;
        bridged = some tcp;
        announced = (announce_tunnel_once announced idx).1;
      }

      abbrev pub refused : Map ℕ Bool → Handled
      refused announced = record { dialled = []; bridged = none; announced = announced }

      unfoldable pub handle_index : Map ℕ Bool → ℕ → Handled
      unfolding dial_for is_mine
      handle_index announced idx = elim (get_elem? reqs idx) [
        | none ↦ refused announced
        | some req ↦ elim (dial_for req (is_mine my_req_start my_req_count idx)) [
          | none ↦ refused announced
          | some d ↦ bridge announced idx d
        ]
      ]

      unfoldable pub handle_tunnel_stream : Map ℕ Bool → Header → Handled
      unfolding handle_index
      handle_tunnel_stream announced Header.elapsed = refused announced
      handle_tunnel_stream announced (Header.read a b) = handle_index announced (a * 256 + b)
      handle_tunnel_stream announced (Header.broken a b) = handle_index announced (a * 256 + b)
