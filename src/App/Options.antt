-- ===== src/App/Options.antt =====
-- crates/qvole-app/src/options.rs, and the options of crates/qvole-app/src/lib.rs: how they are
-- resolved, validated, and become the configuration of the exchange. Durations are in nanoseconds.
-- An option of the source, a closure that changes a field, is a function on the options.
use qvole_rs.Base.Result.{Result, ok, err}
use qvole_rs.Base.{
  ◌<◌, ◌≤◌, ◌≡◌, ◌↔◌, refl, ap, arith, ℕ, zero, suc, ◌%◌, ◌^◌, Bool, false, Option, none, some,
  List, [], ◌∷◌, ◌++◌, ltb, ◌==◌, if◌then◌else◌, Bytes, bytes, length,
}
use qvole_rs.Protocol.Env.{I64}
use qvole_rs.Protocol.Exchange.Config
use qvole_rs.Protocol.Exchange.Config.{PeerConfig}

pub record Options : Type 0 where
  pub code : Bytes
  pub relay : Bytes
  pub punch_timeout : ℕ
  pub exchange_deadline : ℕ
  pub keep_alive_period : ℕ
  pub idle_timeout : ℕ
  pub handshake_timeout : ℕ
  pub max_streams : I64
  pub forward_max_streams : I64
  pub stream_idle_timeout : ℕ
  pub command : Bytes
  pub cmd_mode : Bool
  pub local_tunnels : List Bytes
  pub remote_tunnels : List Bytes
  pub allow_all : Bool
  pub allow_listen : List Bytes
  pub allow_forward : List Bytes

-- What `Options::default` gives.
abbrev pub unset : Options
unset = record {
  code = [];
  relay = [];
  punch_timeout = 0;
  exchange_deadline = 0;
  keep_alive_period = 0;
  idle_timeout = 0;
  handshake_timeout = 0;
  max_streams = I64.pos 0;
  forward_max_streams = I64.pos 0;
  stream_idle_timeout = 0;
  command = [];
  cmd_mode = false;
  local_tunnels = [];
  remote_tunnels = [];
  allow_all = false;
  allow_listen = [];
  allow_forward = [];
}

abbrev pub Setter : Type 0
Setter = Options → Options

unfoldable pub with_code : Bytes → Setter
with_code code o = record o { code = code }

unfoldable pub with_relay : Bytes → Setter
with_relay addr o = record o { relay = addr }

unfoldable pub with_punch_timeout : ℕ → Setter
with_punch_timeout d o = record o { punch_timeout = d }

unfoldable pub with_exchange_deadline : ℕ → Setter
with_exchange_deadline d o = record o { exchange_deadline = d }

unfoldable pub with_keep_alive : ℕ → Setter
with_keep_alive d o = record o { keep_alive_period = d }

unfoldable pub with_idle_timeout : ℕ → Setter
with_idle_timeout d o = record o { idle_timeout = d }

unfoldable pub with_handshake_timeout : ℕ → Setter
with_handshake_timeout d o = record o { handshake_timeout = d }

unfoldable pub with_max_streams : I64 → Setter
with_max_streams n o = record o { max_streams = n }

unfoldable pub with_forward_max_streams : I64 → Setter
with_forward_max_streams n o = record o { forward_max_streams = n }

unfoldable pub with_stream_idle_timeout : ℕ → Setter
with_stream_idle_timeout d o = record o { stream_idle_timeout = d }

unfoldable pub with_command : Bytes → Setter
with_command cmd o = record o { command = cmd }

unfoldable pub with_cmd_mode : Bool → Setter
with_cmd_mode b o = record o { cmd_mode = b }

unfoldable pub with_local_tunnel : Bytes → Setter
with_local_tunnel spec o = record o { local_tunnels = o.local_tunnels ++ (spec ∷ []) }

unfoldable pub with_remote_tunnel : Bytes → Setter
with_remote_tunnel spec o = record o { remote_tunnels = o.remote_tunnels ++ (spec ∷ []) }

unfoldable pub with_allow_all : Bool → Setter
with_allow_all b o = record o { allow_all = b }

unfoldable pub with_allow_listen : Bytes → Setter
with_allow_listen addr o = record o { allow_listen = o.allow_listen ++ (addr ∷ []) }

unfoldable pub with_allow_forward : Bytes → Setter
with_allow_forward addr o = record o { allow_forward = o.allow_forward ++ (addr ∷ []) }

abbrev apply_all : List Setter → Options → Options
apply_all [] o = o
apply_all (opt ∷ opts) o = apply_all opts (opt o)

unfoldable pub resolve_options : List Setter → Options
resolve_options opts = apply_all opts unset

abbrev pub min_code_len : ℕ
min_code_len = 8

abbrev pub max_code_len : ℕ
max_code_len = 256

-- The error is the text of `LibError::Validation`.
unfoldable pub validate : Options → Result {0, 0} Bytes Unit
validate o =
    if length o.code == 0
    then err (bytes "code is required")
    else if ltb (length o.code) min_code_len
    then err (bytes "code must be at least 8 characters")
    else if ltb max_code_len (length o.code)
    then err (bytes "code must be at most 256 characters")
    else if length o.relay == 0
    then err (bytes "relay is required")
    else ok tt

abbrev pub dur : ℕ → Option ℕ
dur zero = none
dur (suc v) = some (suc v)

-- The cast of a positive number to 32 bits drops its upper half.
abbrev pub num : I64 → Option ℕ
num (I64.pos zero) = none
num (I64.pos (suc v)) = some (suc v % 2 ^ 32)
num (I64.negsuc n) = none

unfoldable pub to_peer_config : Options → PeerConfig
to_peer_config o = record {
  punch_timeout = dur o.punch_timeout;
  exchange_deadline = dur o.exchange_deadline;
  spake2_resend = none;
  confirm_resend = none;
  read_deadline = none;
  reg_interval = none;
  max_streams = num o.max_streams;
  forward_max_streams = num o.forward_max_streams;
  keep_alive_period = dur o.keep_alive_period;
  idle_timeout = dur o.idle_timeout;
  handshake_timeout = dur o.handshake_timeout;
}

-- Options are accepted exactly when the code has 8 to 256 bytes and a relay is named.
pub validate_iff :
    (o : Options)
    → validate o ≡ ok tt
      ↔ (min_code_len ≤ length o.code) × (length o.code ≤ max_code_len) × (0 < length o.relay)
unfolding validate
validate_iff o = (λ h. ground arith, λ h. ground arith)

apply_all-last :
    (opts : List Setter) (opt : Setter) (o : Options)
    → apply_all (opts ++ (opt ∷ [])) o ≡ opt (apply_all opts o)
apply_all-last [] opt o = refl
apply_all-last (first ∷ opts) opt o = apply_all-last opts opt (first o)

-- The option that is given last is applied to what the options before it give.
pub resolve_options-last :
    (opts : List Setter) (opt : Setter)
    → resolve_options (opts ++ (opt ∷ [])) ≡ opt (resolve_options opts)
unfolding resolve_options
resolve_options-last opts opt = apply_all-last opts opt unset

module _ (parse : Bytes → Option I64) (var : Bytes → Option Bytes) where
  -- With any options before it, a positive deadline that is given last is the deadline of the
  -- exchange, whatever the environment holds.
  exchange_deadline-with_exchange_deadline :
      (opts : List Setter) (d : ℕ)
      → 0 < d
      → Config.exchange_deadline parse var
          (to_peer_config (resolve_options (opts ++ (with_exchange_deadline d ∷ []))))
        ≡ d
  unfolding Config.exchange_deadline Config.resolve_dur to_peer_config with_exchange_deadline
  exchange_deadline-with_exchange_deadline opts zero h = absurd (omega arith)
  exchange_deadline-with_exchange_deadline opts (suc d) h =
      ap (λ o. Config.exchange_deadline parse var (to_peer_config o))
        (resolve_options-last opts (with_exchange_deadline (suc d)))
