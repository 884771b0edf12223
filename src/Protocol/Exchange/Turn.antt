-- ===== src/Protocol/Exchange/Turn.antt =====
-- crates/qvole-protocol/src/exchange.rs: a turn of the loop of `register_and_exchange`, and the loop.
-- No line has two of the prefixes that the turn looks for.
use qvole_rs.Base.Split.{strip_prefix}
use qvole_rs.Base.{
  ℕ, zero, suc, ◌+◌, Option, none, some, List, [], ◌++◌, ltb, if◌then◌else◌, Bytes, bytes,
  bytes_key, take,
}
use qvole_rs.Base.Map.{is_some}
use qvole_rs.Protocol.Trim.{trim_ascii}
use qvole_rs.Protocol.Exchange.{ExchangeError}
use qvole_rs.Protocol.Exchange.State.{Exchange, Outcome, Peer, Received, Tick}
use qvole_rs.Protocol.Exchange.Send.{send_all}
use qvole_rs.Protocol.Exchange.Receive.{count_inbound, on_regd, on_spake2, on_confirm}

abbrev pub read_buffer_size : ℕ
read_buffer_size = 1500

-- What a turn that ends the loop returns, and else what the turns behind it return.
abbrev pub and_then :
    Exchange × List Bytes × Outcome
    → Exchange × List Bytes × Outcome
    → Exchange × List Bytes × Outcome
and_then (s, out, Outcome.going) (s1, out1, last) = (s1, out ++ out1, last)
and_then (s, out, Outcome.panicked) rest = (s, out, Outcome.panicked)
and_then (s, out, Outcome.returned f) rest = (s, out, Outcome.returned f)
and_then (s, out, Outcome.failed e) rest = (s, out, Outcome.failed e)

module _ {P : Type 0} (peer : Peer P) where
  abbrev pub after_regd : Exchange → Option Exchange → Exchange × List Bytes × Outcome
  after_regd s none = (s, [], Outcome.panicked)
  after_regd s (some s1) = (s1, [], Outcome.going)

  unfoldable pub on_text : Bytes → Bytes → Option Bytes
  on_text prefix line = elim (strip_prefix prefix line) [
    | none ↦ none
    | some b ↦ if peer.is_utf8 b then some b else none
  ]

  unfoldable pub on_message : Tick → Bytes → Exchange → Exchange × List Bytes × Outcome
  unfolding on_text
  on_message tick line s = elim (on_text (bytes "MSGD spake2 ") line) [
    | some hex_body ↦ on_spake2 peer tick hex_body s
    | none ↦ elim (on_text (bytes "MSGD confirm ") line) [
      | some hex_body ↦ on_confirm peer hex_body s
      | none ↦ (s, [], Outcome.going)
    ]
  ]

  unfoldable pub on_line : Tick → Bytes → Exchange → Exchange × List Bytes × Outcome
  unfolding on_message
  on_line tick line s =
      if is_some (strip_prefix (bytes "MSGD ") line)
      then (let (s1, admitted) = count_inbound tick.later s in
          if admitted then on_message tick line s1 else (s1, [], Outcome.going))
      else elim (strip_prefix (bytes "REGD ") line) [
        | none ↦ (s, [], Outcome.going)
        | some rest ↦ after_regd s (on_regd peer rest s)
      ]

  unfoldable pub on_received : Tick → Received → Exchange → Exchange × List Bytes × Outcome
  unfolding on_line
  on_received tick Received.timed_out s = (s, [], Outcome.going)
  on_received tick Received.broken s = (s, [], Outcome.failed ExchangeError.relay_read)
  on_received tick (Received.datagram b) s = elim (trim_ascii (take read_buffer_size b)) [
    | none ↦ (s, [], Outcome.panicked)
    | some line ↦ on_line tick line s
  ]

  unfoldable pub turn : Tick → Exchange → Exchange × List Bytes × Outcome
  unfolding on_received
  turn tick s =
      if tick.is_cancelled
      then (s, [], Outcome.failed ExchangeError.cancelled)
      else if ltb peer.deadline tick.now
      then (s, [], Outcome.failed ExchangeError.timeout)
      else let (s1, out1) = send_all peer tick.now s in
        let (s2, out2, outcome) = on_received tick tick.received s1 in (s2, out1 ++ out2, outcome)

  -- The loop, for at most a number of turns; turn `i` meets `ticks i`.
  unfoldable pub exchange : ℕ → ℕ → (ℕ → Tick) → Exchange → Exchange × List Bytes × Outcome
  unfolding turn
  exchange zero i ticks s = (s, [], Outcome.going)
  exchange (suc fuel) i ticks s =
      let r = turn (ticks i) s in let rest = exchange fuel (i + 1) ticks r.0 in and_then r rest
