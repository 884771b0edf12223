-- ===== src/Protocol/Exchange/Send.antt =====
-- crates/qvole-protocol/src/exchange.rs: what a turn of `register_and_exchange` sends before it
-- waits for a datagram. A datagram that cannot be sent is ignored.
use qvole_rs.Base.Map
use qvole_rs.Base.Map.{Map}
use qvole_rs.Base.{
  ℕ, ◌-◌, Bool, true, ◌&&◌, Option, none, some, List, [], ◌∷◌, ◌++◌, map, ltb, ◌==◌, if◌then◌else◌,
  Bytes, bytes, bytes_key, length,
}
use qvole_rs.Protocol.Hex.{to_hex_lower}
use qvole_rs.Protocol.Exchange.Spake.{spake2_payload}
use qvole_rs.Protocol.Exchange.State.{Exchange, Peer, PeerCandidate}

-- `is_none_or(|t| now.duration_since(t) > interval)`
unfoldable pub is_due : ℕ → ℕ → Option ℕ → Bool
is_due now interval none = true
is_due now interval (some t) = ltb interval (now - t)

-- The second loop: what is sent, under its key.
unfoldable pub mark_sent : ℕ → List (Bytes × Bytes) → Map Bytes ℕ → Map Bytes ℕ
mark_sent now [] sent = sent
mark_sent now ((point_hex, payload) ∷ due) sent = mark_sent now due (Map.insert point_hex now sent)

module _ {P : Type 0} (peer : Peer P) where
  abbrev reg_message : Bytes → Bytes
  reg_message cookie =
      if length cookie == 0
      then bytes "REG " ++ (peer.room ++ bytes "\n")
      else bytes "REG " ++ (peer.room ++ (bytes " " ++ (cookie ++ bytes "\n")))

  -- `MSG <room> <phase> <hex>`
  abbrev pub msg_message : Bytes → Bytes → Bytes
  msg_message phase payload =
      bytes "MSG "
      ++ (peer.room
          ++ (bytes " " ++ (phase ++ (bytes " " ++ (to_hex_lower payload ++ bytes "\n")))))

  unfoldable pub send_reg : ℕ → Exchange → Exchange × List Bytes
  unfolding is_due
  send_reg now s =
      if is_due now peer.reg_interval s.last_reg_sent
      then (record s { last_reg_sent = some now }, reg_message s.pending_cookie ∷ [])
      else (s, [])

  unfoldable pub send_spake2 : ℕ → Exchange → Exchange × List Bytes
  unfolding is_due
  send_spake2 now s =
      if s.received_regd && is_due now peer.spake2_resend s.last_spake2_sent
      then (
        record s { last_spake2_sent = some now },
        msg_message (bytes "spake2") (spake2_payload peer.suite peer.state peer.my_fingerprint)
            ∷ [],
      )
      else (s, [])

  -- The first loop over the candidates, which collects what is due.
  unfoldable pub resends : ℕ → Map Bytes ℕ → List (Bytes × PeerCandidate) → List (Bytes × Bytes)
  unfolding is_due
  resends now sent [] = []
  resends now sent ((point_hex, cand) ∷ cands) =
      let rest = resends now sent cands in
      if is_due now peer.confirm_resend (Map.get point_hex sent)
      then (point_hex, cand.confirm_payload) ∷ rest
      else rest

  unfoldable pub send_confirms : ℕ → Exchange → Exchange × List Bytes
  unfolding resends mark_sent
  send_confirms now s =
      let due = resends now s.confirm_last_sent (Map.to_list s.candidates) in
      (
        record s { confirm_last_sent = mark_sent now due s.confirm_last_sent },
        map (λ (d : Bytes × Bytes). msg_message (bytes "confirm") d.1) due,
      )

  unfoldable pub send_all : ℕ → Exchange → Exchange × List Bytes
  unfolding send_reg send_spake2 send_confirms
  send_all now s =
      let (s1, out1) = send_reg now s in
      let (s2, out2) = send_spake2 now s1 in
      let (s3, out3) = send_confirms now s2 in (s3, out1 ++ (out2 ++ out3))
