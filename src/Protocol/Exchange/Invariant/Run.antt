-- ===== src/Protocol/Exchange/Invariant/Run.antt =====
-- crates/qvole-protocol/src/exchange.rs: the invariant, through the turns of the loop.
use qvole_rs.Base.Map
use qvole_rs.Base.Map.{Map, is_some}
use qvole_rs.Base.Split.{split_once, strip_prefix}
use qvole_rs.Base.{
  ℕ, zero, suc, ◌+◌, ◌≤◌, ◌<◌, refl, inl, inr, Option-cases, ◌≡◌, sym, subst, ◌∙◌, not, ◌&&◌,
  Option, none, some, List, [], ◌∷◌, arith, ltb, ◌==◌, if_elim, option_elim, Bytes, bytes,
  bytes_key, length, take, All, if_neg, eqb,
}
use qvole_rs.Protocol.Trim.{trim_ascii}
use qvole_rs.Protocol.Exchange.State.{
  Exchange, Found, Outcome, Peer, PeerCandidate, Received, Tick, start,
}
use qvole_rs.Protocol.Exchange.Send.{
  is_due, resends, mark_sent, send_reg, send_spake2, send_confirms, send_all,
}
use qvole_rs.Protocol.Exchange.Receive.{
  count_inbound, is_over, windowed, is_literal, on_registered, on_cookie, on_regd_payload, on_regd,
}
use qvole_rs.Protocol.Exchange.Turn.{
  after_regd, on_text, on_message, on_line, on_received, turn, and_then, exchange, read_buffer_size,
}
use qvole_rs.Protocol.Exchange.Invariant.{
  Traffic, Hears, heard_in, IsValid, IsAuthentic, IsGenuine, Leaves, OnSome,
}
use qvole_rs.Protocol.Exchange.Invariant.Add.{on_spake2-Leaves, on_confirm-Leaves}

-- What is marked is a candidate's.
mark_sent-none :
    (now : ℕ) (j : Bytes) (cands : Map Bytes PeerCandidate) (due : List (Bytes × Bytes))
    (sent : Map Bytes ℕ)
    → All (λ (d : Bytes × Bytes). ¬ (Map.get d.0 cands ≡ none)) due
    → Map.get j cands ≡ none
    → Map.get j sent ≡ none
    → Map.get j (mark_sent now due sent) ≡ none
unfolding mark_sent
mark_sent-none now j cands [] sent a g h = h
mark_sent-none now j cands ((k, payload) ∷ due) sent a g h =
    mark_sent-none now j cands due (Map.insert k now sent) a.1 g (elim (bytes_key.dec k j) [
      | yes e ↦ absurd (a.0 (subst (λ i. Map.get i cands ≡ none) (sym e) g))
      | no n ↦
          Map.get-insert k j now sent
          ∙ (if_neg (bytes_key.dec k j) n (some now) (Map.get j sent) ∙ h)
    ])

module _ {P : Type 0} (peer : Peer P) (heard : Traffic) where
  resends-All :
      (now : ℕ) (Q : Bytes → Type 0) (sent : Map Bytes ℕ) (cands : List (Bytes × PeerCandidate))
      → All (λ (e : Bytes × PeerCandidate). Q e.0) cands
      → All (λ (d : Bytes × Bytes). Q d.0) (resends peer now sent cands)
  unfolding resends
  resends-All now Q sent [] a = tt
  resends-All now Q sent ((k, cand) ∷ cands) a =
      let rest = resends-All now Q sent cands a.1 in
      if_elim (All (λ (d : Bytes × Bytes). Q d.0)) (is_due now peer.confirm_resend (Map.get k sent))
        _ _ (λ t. (a.0, rest)) (λ f. rest)

  send_confirms-IsValid :
      (now : ℕ) (s : Exchange)
      → IsValid peer heard s
      → IsValid peer heard (send_confirms peer now s).0
  unfolding send_confirms
  send_confirms-IsValid now s w =
      let Q : Bytes → Type 0 = λ k. ¬ (Map.get k s.candidates ≡ none) in
      let a =
        Map.to_list-All (λ (e : Bytes × PeerCandidate). Q e.0) s.candidates
          (λ k v g n. absurd (ground (arith, sym g ∙ n))) in
      let b = resends-All now Q s.confirm_last_sent (Map.to_list s.candidates) a in
      record {
        few = w.few;
        short = w.short;
        buffered = w.buffered;
        sent = λ j g. mark_sent-none now j s.candidates _ s.confirm_last_sent b g (w.sent j g);
        derived = w.derived;
      }

  send_reg-IsValid :
      (now : ℕ) (s : Exchange) → IsValid peer heard s → IsValid peer heard (send_reg peer now s).0
  unfolding send_reg
  send_reg-IsValid now s w =
      if_elim {A = Exchange × List Bytes} (λ r. IsValid peer heard r.0)
        (is_due now peer.reg_interval s.last_reg_sent) _ _
        (λ t. record {
          few = w.few;
          short = w.short;
          buffered = w.buffered;
          sent = w.sent;
          derived = w.derived;
        })
        (λ f. w)

  send_spake2-IsValid :
      (now : ℕ) (s : Exchange)
      → IsValid peer heard s
      → IsValid peer heard (send_spake2 peer now s).0
  unfolding send_spake2
  send_spake2-IsValid now s w =
      if_elim {A = Exchange × List Bytes} (λ r. IsValid peer heard r.0)
        (s.received_regd && is_due now peer.spake2_resend s.last_spake2_sent) _ _
        (λ t. record {
          few = w.few;
          short = w.short;
          buffered = w.buffered;
          sent = w.sent;
          derived = w.derived;
        })
        (λ f. w)

  pub send_all-IsValid :
      (now : ℕ) (s : Exchange) → IsValid peer heard s → IsValid peer heard (send_all peer now s).0
  unfolding send_all
  send_all-IsValid now s w =
      send_confirms-IsValid now _ (send_spake2-IsValid now _ (send_reg-IsValid now s w))

  windowed-IsValid :
      (later : ℕ) (s : Exchange) → IsValid peer heard s → IsValid peer heard (windowed later s)
  windowed-IsValid later s w =
      if_elim (IsValid peer heard) (is_over later s.inbound_window) _ _
        (λ t. record {
          few = w.few;
          short = w.short;
          buffered = w.buffered;
          sent = w.sent;
          derived = w.derived;
        })
        (λ f. w)

  pub count_inbound-IsValid :
      (later : ℕ) (s : Exchange)
      → IsValid peer heard s
      → IsValid peer heard (count_inbound later s).0
  unfolding count_inbound
  count_inbound-IsValid later s w =
      let v = windowed-IsValid later s w in
      record {
        few = v.few;
        short = v.short;
        buffered = v.buffered;
        sent = v.sent;
        derived = v.derived;
      }

  on_cookie-IsValid :
      (payload : Bytes) (s : Exchange)
      → IsValid peer heard s
      → IsValid peer heard (on_cookie peer payload s)
  unfolding on_cookie
  on_cookie-IsValid payload s w =
      if_elim (IsValid peer heard) (length payload == 32 && peer.is_utf8 payload && _) _ _
        (λ t. record {
          few = w.few;
          short = w.short;
          buffered = w.buffered;
          sent = w.sent;
          derived = w.derived;
        })
        (λ f. w)

  on_registered-OnSome :
      (ok_rest : Bytes) (s : Exchange)
      → IsValid peer heard s
      → OnSome peer heard (on_registered peer ok_rest s)
  unfolding on_registered
  on_registered-OnSome ok_rest s w =
      option_elim (OnSome peer heard) (trim_ascii ok_rest) _ _ (λ e. tt)
        (λ ext e.
          if_elim (OnSome peer heard) (is_literal peer ext) _ _
            (λ t. record {
              few = w.few;
              short = w.short;
              buffered = w.buffered;
              sent = w.sent;
              derived = w.derived;
            })
            (λ f. record {
              few = w.few;
              short = w.short;
              buffered = w.buffered;
              sent = w.sent;
              derived = w.derived;
            }))

  on_regd-OnSome :
      (rest : Bytes) (s : Exchange) → IsValid peer heard s → OnSome peer heard (on_regd peer rest s)
  unfolding on_regd on_regd_payload
  on_regd-OnSome rest s w =
      option_elim (OnSome peer heard) (split_once b' ' rest).1 _ _ (λ e. w)
        (λ b e.
          if_elim (OnSome peer heard)
            (not (peer.is_utf8 (split_once b' ' rest).0 && eqb (split_once b' ' rest).0 peer.room))
            _ _ (λ t. w)
            (λ f.
              option_elim (OnSome peer heard) (trim_ascii b) _ _ (λ n. tt)
                (λ payload p.
                  option_elim (OnSome peer heard) (strip_prefix (bytes "OK ") payload) _ _
                    (λ n. on_cookie-IsValid payload s w)
                    (λ ok_rest o. on_registered-OnSome ok_rest s w))))

  after_regd-Leaves :
      (s : Exchange) (o : Option Exchange)
      → IsValid peer heard s
      → OnSome peer heard o
      → Leaves peer heard (after_regd peer s o)
  after_regd-Leaves s none w v = (w, tt)
  after_regd-Leaves s (some s1) w v = (v, tt)

  -- What is known holds of the body of a line.
  abbrev InLine : Bytes → Type 0
  InLine line =
      ((body : Bytes) → strip_prefix (bytes "MSGD spake2 ") line ≡ some body → heard.spake body)
      × ((body : Bytes)
          → strip_prefix (bytes "MSGD confirm ") line ≡ some body
          → heard.confirm body)

  on_text-strips :
      (prefix line body : Bytes)
      → on_text peer prefix line ≡ some body
      → strip_prefix prefix line ≡ some body
  unfolding on_text
  on_text-strips prefix line body h = elim (Option-cases (strip_prefix prefix line)) [
    | inl n ↦ absurd (ground (arith, h, n))
    | inr (b, e) ↦ ground (arith, h, e)
  ]

  on_message-Leaves :
      (tick : Tick) (line : Bytes) (s : Exchange)
      → InLine line
      → IsValid peer heard s
      → Leaves peer heard (on_message peer tick line s)
  unfolding on_message
  on_message-Leaves tick line s a w =
      option_elim (Leaves peer heard) (on_text peer (bytes "MSGD spake2 ") line) _ _
        (λ e.
          option_elim (Leaves peer heard) (on_text peer (bytes "MSGD confirm ") line) _ _
            (λ e'. (w, tt))
            (λ hex_body e'.
              on_confirm-Leaves peer heard hex_body s
                (a.1 hex_body (on_text-strips _ line hex_body e')) w))
        (λ hex_body e.
          on_spake2-Leaves peer heard tick hex_body s
            (a.0 hex_body (on_text-strips _ line hex_body e)) w)

  on_line-Leaves :
      (tick : Tick) (line : Bytes) (s : Exchange)
      → InLine line
      → IsValid peer heard s
      → Leaves peer heard (on_line peer tick line s)
  unfolding on_line
  on_line-Leaves tick line s a w =
      if_elim (Leaves peer heard) (is_some (strip_prefix (bytes "MSGD ") line)) _ _
        (λ t.
          if_elim (Leaves peer heard) (count_inbound tick.later s).1 _ _
            (λ admitted. on_message-Leaves tick line _ a (count_inbound-IsValid tick.later s w))
            (λ a. (count_inbound-IsValid tick.later s w, tt)))
        (λ f.
          option_elim (Leaves peer heard) (strip_prefix (bytes "REGD ") line) _ _ (λ e. (w, tt))
            (λ rest e. after_regd-Leaves s (on_regd peer rest s) w (on_regd-OnSome rest s w)))

  on_received-Leaves :
      (tick : Tick) (received : Received) (s : Exchange)
      → Hears heard tick
      → tick.received ≡ received
      → IsValid peer heard s
      → Leaves peer heard (on_received peer tick received s)
  unfolding on_received
  on_received-Leaves tick Received.timed_out s h r w = (w, tt)
  on_received-Leaves tick Received.broken s h r w = (w, tt)
  on_received-Leaves tick (Received.datagram b) s h r w =
      option_elim (Leaves peer heard) (trim_ascii (take read_buffer_size b)) _ _ (λ e. (w, tt))
        (λ line e.
          on_line-Leaves tick line s
            (λ body p. h.spake body (b, line, r, e, p), λ body p. h.confirm body (b, line, r, e, p))
            w)

  pub turn-Leaves :
      (tick : Tick) (s : Exchange)
      → Hears heard tick
      → IsValid peer heard s
      → Leaves peer heard (turn peer tick s)
  unfolding turn
  turn-Leaves tick s h w =
      if_elim (Leaves peer heard) tick.is_cancelled _ _ (λ t. (w, tt))
        (λ f.
          if_elim (Leaves peer heard) (ltb peer.deadline tick.now) _ _ (λ t. (w, tt))
            (λ f'. on_received-Leaves tick tick.received _ h refl (send_all-IsValid tick.now s w)))

  and_then-Leaves :
      (r rest : Exchange × List Bytes × Outcome)
      → Leaves peer heard r
      → Leaves peer heard rest
      → Leaves peer heard (and_then r rest)
  and_then-Leaves (s, out, Outcome.going) (s1, out1, last) v w = w
  and_then-Leaves (s, out, Outcome.panicked) rest v w = v
  and_then-Leaves (s, out, Outcome.returned f) rest v w = v
  and_then-Leaves (s, out, Outcome.failed e) rest v w = v

  exchange-Leaves :
      (fuel i : ℕ) (ticks : ℕ → Tick) (s : Exchange)
      → ((j : ℕ) → i ≤ j → j < i + fuel → Hears heard (ticks j))
      → IsValid peer heard s
      → Leaves peer heard (exchange peer fuel i ticks s)
  unfolding exchange
  exchange-Leaves zero i ticks s h w = (w, tt)
  exchange-Leaves (suc fuel) i ticks s h w =
      let v = turn-Leaves (ticks i) s (h i (omega arith) (omega arith)) w in
      and_then-Leaves (turn peer (ticks i) s) _ v
        (exchange-Leaves fuel (i + 1) ticks _ (λ j a b. h j (omega arith) (omega arith)) v.0)

  -- For any two properties that hold of the bodies of the spake2 and of the confirm messages that
  -- the turns meet, from variables that satisfy the invariant, whatever clocks and datagrams the
  -- turns meet and however many there are: the variables of the exchange satisfy it again, which
  -- is at most 50 candidates, at most 200 buffered confirms, each with the second property, a time
  -- of a last confirm only for a candidate, and every candidate with the keys that
  -- process_spake_msg derives from some payload with the first property.
  pub exchange-IsValid :
      (fuel i : ℕ) (ticks : ℕ → Tick) (s : Exchange)
      → ((j : ℕ) → i ≤ j → j < i + fuel → Hears heard (ticks j))
      → IsValid peer heard s
      → IsValid peer heard (exchange peer fuel i ticks s).0
  exchange-IsValid fuel i ticks s h w = (exchange-Leaves fuel i ticks s h w).0

  pub start-IsValid : (my_addr : Bytes) → IsValid peer heard (start my_addr)
  unfolding start
  start-IsValid my_addr = record {
    few = rw (Map.len-empty Bytes PeerCandidate) (omega arith);
    short = omega arith;
    buffered = tt;
    sent = λ k h. Map.get-empty k;
    derived = λ k cand h. absurd (ground (arith, h, Map.get-empty {V = PeerCandidate} k));
  }

pub heard_in-Hears :
    (fuel : ℕ) (ticks : ℕ → Tick) (j : ℕ)
    → 0 ≤ j
    → j < 0 + fuel
    → Hears (heard_in fuel ticks) (ticks j)
heard_in-Hears fuel ticks j a b = record {
  spake = λ body c. (j, omega arith, c);
  confirm = λ body c. (j, omega arith, c);
}

module _ {P : Type 0} (peer : Peer P) where
  -- From the start, whatever the turns meet and for any number of them: if the exchange returns a
  -- peer, then a spake2 message and a confirm message were among the datagrams of these turns,
  -- such that process_spake_msg accepts the body of the first with the returned fingerprint and
  -- role, the fingerprint is not the own one, verify_confirm accepts the nonce and code in the
  -- body of the second under the confirm key derived from the first, and process_confirm_msg reads
  -- the returned address from the second under these keys.
  pub exchange-IsAuthentic :
      (fuel : ℕ) (ticks : ℕ → Tick) (my_addr : Bytes) (f : Found)
      → (exchange peer fuel 0 ticks (start my_addr)).2 ≡ Outcome.returned f
      → IsAuthentic peer (heard_in fuel ticks) f
  exchange-IsAuthentic fuel ticks my_addr f h =
      let w = start-IsValid peer (heard_in fuel ticks) my_addr in
      subst (IsGenuine peer (heard_in fuel ticks)) h
        (exchange-Leaves peer (heard_in fuel ticks) fuel 0 ticks (start my_addr)
          (heard_in-Hears fuel ticks) w).1
