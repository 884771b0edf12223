-- ===== src/Protocol/Exchange/State.antt =====
-- crates/qvole-protocol/src/exchange.rs: what `register_and_exchange` keeps, and what it is given.
-- Times are in nanoseconds. The time of the last line in the log is left out.
use qvole_rs.Base.Map
use qvole_rs.Base.Map.{Map}
use qvole_rs.Base.{ℕ, Bool, false, Option, none, List, [], Bytes, bytes_key}
use qvole_rs.Spake2.State.{State, blinded_bytes_m, blinded_bytes_n}
use qvole_rs.Relay.Addr.{AddrText}
use qvole_rs.Protocol.Exchange.{ExchangeError, Suite}
use qvole_rs.Protocol.Exchange.Confirm.{Random}

pub record PeerCandidate : Type 0 where
  pub point : Bytes
  pub fingerprint : Bytes
  pub confirm_key : Bytes
  pub enc_key : Bytes
  pub confirm_payload : Bytes
  pub is_server : Bool
  pub effective_my_point : Bytes

-- The local variables that the loop changes.
pub record Exchange : Type 0 where
  pub my_addr : Bytes
  pub candidates : Map Bytes PeerCandidate
  pub confirm_last_sent : Map Bytes ℕ
  pub buffered_confirms : List Bytes
  pub last_spake2_sent : Option ℕ
  pub last_reg_sent : Option ℕ
  pub received_regd : Bool
  pub pending_cookie : Bytes
  pub inbound_window : Option ℕ
  pub inbound_count : ℕ

-- What the loop reads only. `is_utf8` tells whether `str::from_utf8` succeeds.
pub record Peer (P : Type 0) : Type 0 where
  pub suite : Suite P
  pub state : State
  pub my_fingerprint : Bytes
  pub room : Bytes
  pub deadline : ℕ
  pub spake2_resend : ℕ
  pub confirm_resend : ℕ
  pub reg_interval : ℕ
  pub is_utf8 : Bytes → Bool
  pub text : AddrText

abbrev pub my_point_m : {P : Type 0} → Peer P → Bytes
my_point_m peer = blinded_bytes_m peer.suite.curve peer.suite.generators peer.state

abbrev pub my_point_n : {P : Type 0} → Peer P → Bytes
my_point_n peer = blinded_bytes_n peer.suite.curve peer.suite.generators peer.state

-- `timed_out` is the end of the read deadline.
pub data Received : Type 0 where
  timed_out broken : Received
  datagram : Bytes → Received

-- What a turn of the loop meets: the clock before the datagram, which the code reads at each step,
-- the clock behind it, and what the random source yields.
pub record Tick : Type 0 where
  pub is_cancelled : Bool
  pub now : ℕ
  pub later : ℕ
  pub received : Received
  pub random : Random

pub record Found : Type 0 where
  pub peer_addr : Bytes
  pub peer_fingerprint : Bytes
  pub is_server : Bool

pub data Outcome : Type 0 where
  going panicked : Outcome
  returned : Found → Outcome
  failed : ExchangeError → Outcome

-- The variables before the loop.
unfoldable pub start : Bytes → Exchange
start my_addr = record {
  my_addr = my_addr;
  candidates = Map.empty;
  confirm_last_sent = Map.empty;
  buffered_confirms = [];
  last_spake2_sent = none;
  last_reg_sent = none;
  received_regd = false;
  pending_cookie = [];
  inbound_window = none;
  inbound_count = 0;
}
