-- ===== src/Protocol/Exchange/Receive.antt =====
-- crates/qvole-protocol/src/exchange.rs: what a turn of `register_and_exchange` does with a line.
use qvole_rs.Base.Map
use qvole_rs.Base.Map.{Map, is_some}
use qvole_rs.Base.Split.{split_once, strip_prefix}
use qvole_rs.Base.{
  ℕ, ◌+◌, ◌-◌, Bool, true, false, not, ◌&&◌, ◌||◌, Option, none, some, List, [], ◌∷◌, ◌++◌, ltb,
  leb, ◌==◌, if◌then◌else◌, Bytes, bytes, bytes_key, eqb, length, take, all,
}
use qvole_rs.Base.Result.{Result, ok, err}
use qvole_rs.Relay.Addr.{SocketAddr}
use qvole_rs.Protocol.Trim.{trim_ascii}
use qvole_rs.Protocol.Hex.{hex_decode, to_hex_lower}
use qvole_rs.Protocol.Exchange.{ExchangeError}
use qvole_rs.Protocol.Exchange.Spake.{ProcessedSpake, process_spake_msg}
use qvole_rs.Protocol.Exchange.Confirm.{build_confirm_payload, process_confirm_msg}
use qvole_rs.Protocol.Exchange.State.{
  my_point_m, my_point_n, Exchange, Found, Outcome, Peer, PeerCandidate, Tick,
}
use qvole_rs.Protocol.Exchange.Send.{msg_message}

-- `is_none_or`, with a window of one second
abbrev pub is_over : ℕ → Option ℕ → Bool
is_over later none = true
is_over later (some t) = leb 1000000000 (later - t)

abbrev pub windowed : ℕ → Exchange → Exchange
windowed later s =
    if is_over later s.inbound_window
    then record s { inbound_window = some later; inbound_count = 0 }
    else s

-- The count of the messages of a second; `false` when there are too many.
unfoldable pub count_inbound : ℕ → Exchange → Exchange × Bool
count_inbound later s =
    let s1 = windowed later s in
    let s2 = record s1 { inbound_count = s1.inbound_count + 1 } in (s2, leb s2.inbound_count 500)

abbrev port : SocketAddr → ℕ
port (SocketAddr.v4 ip p) = p
port (SocketAddr.v6 hi lo p flow scope) = p

-- `min_by_key` with the times of the last confirms, where none comes before every time.
abbrev pub leq : Option ℕ → Option ℕ → Bool
leq none t = true
leq (some a) none = false
leq (some a) (some b) = leb a b

unfoldable pub oldest : Map Bytes ℕ → List (Bytes × PeerCandidate) → Option Bytes
oldest sent [] = none
oldest sent ((k, cand) ∷ rest) = elim (oldest sent rest) [
  | none ↦ some k
  | some j ↦ if leq (Map.get k sent) (Map.get j sent) then some k else some j
]

unfoldable pub evict_candidate : Exchange → Exchange
unfolding oldest
evict_candidate s =
    if leb 50 (Map.len s.candidates)
    then elim (oldest s.confirm_last_sent (Map.to_list s.candidates)) [
      | none ↦ s
      | some k ↦ record s {
        candidates = Map.remove k s.candidates;
        confirm_last_sent = Map.remove k s.confirm_last_sent;
      }
    ]
    else s

abbrev pub candidate : ProcessedSpake → Bytes → PeerCandidate
candidate proc cp = record {
  point = proc.effective_peer_point;
  fingerprint = proc.peer_fingerprint;
  confirm_key = proc.confirm_key;
  enc_key = proc.enc_key;
  confirm_payload = cp;
  is_server = proc.is_server;
  effective_my_point = proc.effective_my_point;
}

module _ {P : Type 0} (peer : Peer P) where
  -- A confirm message under the keys of a candidate.
  abbrev pub confirms : Bytes → PeerCandidate → Result ExchangeError Bytes
  confirms hex_body cand =
      process_confirm_msg peer.suite hex_body cand.confirm_key cand.enc_key cand.effective_my_point
        cand.point peer.my_fingerprint cand.fingerprint

  abbrev pub found : PeerCandidate → Bytes → Found
  found cand pa = record {
    peer_addr = pa;
    peer_fingerprint = cand.fingerprint;
    is_server = cand.is_server;
  }

  -- An address that the relay reports, when it is a literal address with a port.
  abbrev pub is_literal : Bytes → Bool
  is_literal ext = elim (peer.text.parse ext) [
    | none ↦ false
    | some a ↦
        peer.is_utf8 ext
        && not (port a == 0)
        && all (λ b. ltb b 128) ext
        && all (λ b. leb 33 b && leb b 126) ext
  ]

  -- `none` is a panic.
  unfoldable pub on_registered : Bytes → Exchange → Option Exchange
  on_registered ok_rest s = elim (trim_ascii ok_rest) [
    | none ↦ none
    | some ext ↦
        if is_literal ext
        then some (record s { received_regd = true; my_addr = ext })
        else some (record s { received_regd = true })
  ]

  unfoldable pub on_cookie : Bytes → Exchange → Exchange
  on_cookie payload s =
      if length payload == 32 && peer.is_utf8 payload && is_some (hex_decode payload)
      then record s { pending_cookie = payload; last_reg_sent = none }
      else s

  unfoldable pub on_regd_payload : Bytes → Exchange → Option Exchange
  unfolding on_registered on_cookie
  on_regd_payload payload s = elim (strip_prefix (bytes "OK ") payload) [
    | some ok_rest ↦ on_registered ok_rest s
    | none ↦ some (on_cookie payload s)
  ]

  unfoldable pub on_regd : Bytes → Exchange → Option Exchange
  unfolding on_regd_payload
  on_regd rest s =
      let (relay_room, relay_payload) = split_once b' ' rest in
      elim relay_payload [
        | none ↦ some s
        | some b ↦
            if not (peer.is_utf8 relay_room && eqb relay_room peer.room)
            then some s
            else elim (trim_ascii b) [ none ↦ none | some payload ↦ on_regd_payload payload s ]
      ]

  -- The first confirm that the keys of the candidate open.
  unfoldable pub find_buffered : PeerCandidate → List Bytes → Outcome
  find_buffered cand [] = Outcome.going
  find_buffered cand (b ∷ buffered) = elim (confirms b cand) [
    | ok pa ↦ Outcome.returned (found cand pa)
    | err e ↦ find_buffered cand buffered
  ]

  -- The first candidate whose keys open the confirm.
  unfoldable pub find_candidate : Bytes → List (Bytes × PeerCandidate) → Outcome
  find_candidate hex_body [] = Outcome.going
  find_candidate hex_body ((k, cand) ∷ cands) = elim (confirms hex_body cand) [
    | ok pa ↦ Outcome.returned (found cand pa)
    | err e ↦ find_candidate hex_body cands
  ]

  -- A candidate that is new.
  unfoldable pub add_candidate :
      ℕ → Bytes → ProcessedSpake → Bytes → Exchange → Exchange × List Bytes × Outcome
  unfolding evict_candidate find_buffered
  add_candidate later payload_key proc cp s =
      let s1 = evict_candidate s in
      (
        record s1 {
          candidates = Map.insert payload_key (candidate proc cp) s1.candidates;
          confirm_last_sent = Map.insert payload_key later s1.confirm_last_sent;
        },
        msg_message peer (bytes "confirm") cp ∷ [],
        find_buffered (candidate proc cp) s1.buffered_confirms,
      )

  unfoldable pub on_spake2 : Tick → Bytes → Exchange → Exchange × List Bytes × Outcome
  unfolding add_candidate
  on_spake2 tick hex_body s = elim (hex_decode hex_body) [
    | none ↦ (s, [], Outcome.going)
    | some p ↦
        let payload_key = to_hex_lower (take 162 p) in
        if ltb (length p) 162 || Map.contains payload_key s.candidates
        then (s, [], Outcome.going)
        else elim (process_spake_msg peer.suite hex_body peer.state (my_point_m peer)
            (my_point_n peer) peer.my_fingerprint) [
              | err e ↦ (s, [], Outcome.going)
              | ok proc ↦
                  elim (build_confirm_payload peer.suite tick.random proc.confirm_key proc.enc_key
                    proc.effective_my_point proc.effective_peer_point peer.my_fingerprint
                    proc.peer_fingerprint s.my_addr) [
                      | err e ↦ (s, [], Outcome.going)
                      | ok cp ↦ add_candidate tick.later payload_key proc cp s
                    ]
            ]
  ]

  -- A confirm that no candidate has opened is kept.
  unfoldable pub keep_confirm : Bytes → Exchange → Outcome → Exchange
  keep_confirm hex_body s Outcome.going =
      if ltb (length s.buffered_confirms) 200
      then record s { buffered_confirms = s.buffered_confirms ++ hex_body ∷ [] }
      else s
  keep_confirm hex_body s Outcome.panicked = s
  keep_confirm hex_body s (Outcome.returned f) = s
  keep_confirm hex_body s (Outcome.failed e) = s

  unfoldable pub on_confirm : Bytes → Exchange → Exchange × List Bytes × Outcome
  unfolding find_candidate keep_confirm
  on_confirm hex_body s =
      let outcome = find_candidate hex_body (Map.to_list s.candidates) in
      (keep_confirm hex_body s outcome, [], outcome)
