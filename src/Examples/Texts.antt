-- ===== src/Examples/Texts.antt =====
-- The theorems on the textual forms at concrete inputs.
use qvole_rs.Base.{
  Bytes-discrete, ℕ_discrete, ◌*◌, ◌^◌, ◌<◌, ◌≡◌, refl, ℕ, true, bytes_key, eqb, if◌then◌else◌,
  false, some, none, Option, List, [], ◌∷◌, arith, Bytes, bytes, All,
}
use qvole_rs.App.TunnelRequest.{split_tunnel_request}
use qvole_rs.App.TunnelRequest.Split
use qvole_rs.App.TunnelAllow.{
  Names, TunnelAllow, forward_ips, resolve, split_host_port, resolve_all_ips, match_forward_ips,
}
use qvole_rs.Base.Strip.{rposition, position}
use qvole_rs.App.TunnelAllow.Forward
use qvole_rs.Relay.Addr.{IpAddr, IpAddr-discrete}
use qvole_rs.Protocol.Env
use qvole_rs.Protocol.Env.{I64, env_int_from, env_duration_ms_from}
use qvole_rs.Base.Map
use qvole_rs.App.TunnelRequest.{TunnelRequest}
use qvole_rs.App.Stream.{nat_key, Header, Target, Handled, handle_tunnel_stream, dial_for, is_mine}
use qvole_rs.App.Stream.Allowed

abbrev spec : Bytes
spec = bytes "80:[::1]:81"

abbrev parts : List Bytes
parts = bytes "80" ∷ bytes "[::1]" ∷ bytes "81" ∷ []

split_spec : split_tunnel_request spec ≡ some parts
unfolding split_tunnel_request
split_spec = refl

join_colons-split_example : Split.join_colons parts ≡ spec
join_colons-split_example = Split.join_colons-split spec parts split_spec

-- Texts of one digit.
abbrev digit : Bytes → Option I64
digit (c ∷ []) = some (I64.pos c)
digit _ = none

env_duration_ms_from-bounds_example :
    (0 < env_duration_ms_from digit (some (9 ∷ [])) 7)
    × (env_duration_ms_from digit (some (9 ∷ [])) 7 * 1000 < 2 ^ 63)
env_duration_ms_from-bounds_example =
    Env.env_duration_ms_from-bounds digit (some (9 ∷ [])) 7 (omega arith) (omega arith)

abbrev names : Names
names = record { parse = λ _. none; lookup_host = λ _. IpAddr.v4 7 ∷ []; to_lowercase = λ s. s }

-- Later every host has one more address.
abbrev later : Names
later = record {
  parse = λ _. none;
  lookup_host = λ _. IpAddr.v4 8 ∷ IpAddr.v4 7 ∷ [];
  to_lowercase = λ s. s;
}

abbrev one_entry : TunnelAllow
one_entry = record { all = false; listen = []; forward = bytes "h:80" ∷ []; forward_rules = [] }

allowed_seven :
    forward_ips later (resolve names one_entry) (bytes "g:80") ≡ some (IpAddr.v4 7 ∷ [], bytes "80")
unfolding forward_ips resolve split_host_port resolve_all_ips match_forward_ips rposition position
    Bytes-discrete ℕ_discrete IpAddr-discrete
allowed_seven = refl

forward_ips-Permits_example :
    All (Forward.IsPermitted names later one_entry (bytes "80")) (IpAddr.v4 7 ∷ [])
forward_ips-Permits_example =
    Forward.forward_ips-Permits names later one_entry (bytes "g:80") (bytes "80") (IpAddr.v4 7 ∷ [])
      refl allowed_seven

abbrev port_80 : Bytes → Option ℕ
port_80 s = if eqb s (bytes "80") then some 80 else none

abbrev forward : TunnelRequest
forward = record { typ = bytes "L"; listen_addr = bytes "l:1"; target_addr = bytes "g:80" }

-- The peer's request, of index 0; the first attempt to dial succeeds.
abbrev handled : Handled
handled =
    handle_tunnel_stream (λ n. true) later port_80 (resolve names one_entry) (forward ∷ []) 1 0
      Map.empty (Header.read 0 0)

handled_dialled : handled.dialled ≡ Target.address (IpAddr.v4 7) 80 ∷ []
unfolding handle_tunnel_stream dial_for is_mine forward_ips resolve split_host_port resolve_all_ips
    match_forward_ips rposition position Bytes-discrete ℕ_discrete IpAddr-discrete
handled_dialled = refl

handle_tunnel_stream-AreAllowed_example :
    All
      (Allowed.IsAllowed (λ n. true) names later port_80 one_entry (forward ∷ []) 1 0)
      handled.dialled
handle_tunnel_stream-AreAllowed_example =
    Allowed.handle_tunnel_stream-AreAllowed (λ n. true) names later port_80 one_entry (forward ∷ [])
      1 0 Map.empty (Header.read 0 0) refl
