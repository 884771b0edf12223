-- ===== src/Protocol/Exchange/Invariant/Add.antt =====
-- crates/qvole-protocol/src/exchange.rs: a new candidate, and the confirms that are kept.
use qvole_rs.Base.Map
use qvole_rs.Base.Map.{Map}
use qvole_rs.Base.{
  ℕ, ◌+◌, ◌≤◌, ◌≡◌, refl, sym, ◌∙◌, subst, ◌||◌, none, some, [], ◌∷◌, arith, ltb, if_elim,
  option_elim, Bytes, bytes_key, length, All-append, length-append, take, if_pos, if_neg,
}
use qvole_rs.Base.Result.{ok, result_elim}
use qvole_rs.Protocol.Hex.{hex_decode, to_hex_lower}
use qvole_rs.Protocol.Exchange.Spake.{ProcessedSpake, process_spake_msg}
use qvole_rs.Protocol.Exchange.Confirm.{build_confirm_payload}
use qvole_rs.Protocol.Exchange.State.{
  my_point_m, my_point_n, Exchange, Outcome, Peer, PeerCandidate, Tick,
}
use qvole_rs.Protocol.Exchange.Receive.{
  candidate, add_candidate, evict_candidate, find_candidate, keep_confirm, on_spake2, on_confirm,
}
use qvole_rs.Protocol.Exchange.Invariant.{Traffic, IsValid, IsDerived, Leaves}
use qvole_rs.Protocol.Exchange.Invariant.Genuine.{find_buffered-IsGenuine, find_candidate-IsGenuine}
use qvole_rs.Protocol.Exchange.Invariant.Evict.{evict_candidate-IsValid}

-- What an insertion into two maps leaves missing.
insert-none :
    {V W : Type 0} (k j : Bytes) (v : V) (x : W) (m : Map Bytes V) (m' : Map Bytes W)
    → (Map.get j m ≡ none → Map.get j m' ≡ none)
    → Map.get j (Map.insert k v m) ≡ none
    → Map.get j (Map.insert k x m') ≡ none
insert-none k j v x m m' f h = elim (bytes_key.dec k j) [
  | yes e ↦
      let there =
        sym h ∙ (Map.get-insert k j v m ∙ if_pos (bytes_key.dec k j) e (some v) (Map.get j m)) in
      absurd (ground (arith, there))
  | no n ↦
      let gone =
        sym (if_neg (bytes_key.dec k j) n (some v) (Map.get j m))
        ∙ (sym (Map.get-insert k j v m) ∙ h) in
      Map.get-insert k j x m' ∙ (if_neg (bytes_key.dec k j) n (some x) (Map.get j m') ∙ f gone)
]

-- What is found behind an insertion.
insert-get :
    {V : Type 0} (Q : V → Type 0) (k j : Bytes) (v w : V) (m : Map Bytes V)
    → Q v
    → (Map.get j m ≡ some w → Q w)
    → Map.get j (Map.insert k v m) ≡ some w
    → Q w
insert-get Q k j v w m q f h = elim (bytes_key.dec k j) [
  | yes e ↦
      let there =
        sym (if_pos (bytes_key.dec k j) e (some v) (Map.get j m))
        ∙ (sym (Map.get-insert k j v m) ∙ h) in
      subst Q (ground (arith, there)) q
  | no n ↦ f (
      sym (if_neg (bytes_key.dec k j) n (some v) (Map.get j m))
      ∙ (sym (Map.get-insert k j v m) ∙ h))
]

len-insert-le :
    {V : Type 0} (k : Bytes) (v : V) (m : Map Bytes V) → Map.len (Map.insert k v m) ≤ Map.len m + 1
len-insert-le k v m = ground (arith, Map.len-insert k v m)

module _ {P : Type 0} (peer : Peer P) (heard : Traffic) where
  add_candidate-Leaves :
      (later : ℕ) (key body cp : Bytes) (proc : ProcessedSpake) (s : Exchange)
      → process_spake_msg peer.suite body peer.state
          (my_point_m peer)
          (my_point_n peer)
          peer.my_fingerprint
        ≡ ok proc
      → heard.spake body
      → IsValid peer heard s
      → Leaves peer heard (add_candidate peer later key proc cp s)
  unfolding add_candidate
  add_candidate-Leaves later key body cp proc s h c w =
      let (v, room) = evict_candidate-IsValid peer heard s w in
      let cand = candidate proc cp in
      let d : IsDerived peer heard cand = record {
        body = body;
        came = c;
        proc = proc;
        processed = h;
        same = refl;
      } in
      let m = (evict_candidate s).candidates in
      (
        record {
          few = omega (arith, len-insert-le key cand m, room);
          short = v.short;
          buffered = v.buffered;
          sent = λ j g.
              insert-none key j cand later m (evict_candidate s).confirm_last_sent (v.sent j) g;
          derived = λ j other g.
              insert-get (IsDerived peer heard) key j cand other m d (v.derived j other) g;
        },
        find_buffered-IsGenuine peer heard cand (evict_candidate s).buffered_confirms d v.buffered,
      )

  pub on_spake2-Leaves :
      (tick : Tick) (hex_body : Bytes) (s : Exchange)
      → heard.spake hex_body
      → IsValid peer heard s
      → Leaves peer heard (on_spake2 peer tick hex_body s)
  unfolding on_spake2
  on_spake2-Leaves tick hex_body s c w =
      option_elim (Leaves peer heard) (hex_decode hex_body) _ _ (λ e. (w, tt))
        (λ p e.
          if_elim (Leaves peer heard)
            (ltb (length p) 162 || Map.contains (to_hex_lower (take 162 p)) s.candidates) _ _
            (λ t. (w, tt))
            (λ t.
              result_elim (Leaves peer heard)
                (process_spake_msg peer.suite hex_body peer.state (my_point_m peer)
                  (my_point_n peer) peer.my_fingerprint)
                _ _
                (λ proc h.
                  result_elim (Leaves peer heard)
                    (build_confirm_payload peer.suite tick.random proc.confirm_key proc.enc_key
                      proc.effective_my_point proc.effective_peer_point peer.my_fingerprint
                      proc.peer_fingerprint s.my_addr)
                    _ _
                    (λ cp b.
                      add_candidate-Leaves tick.later (to_hex_lower (take 162 p)) hex_body cp proc s
                        h c w)
                    (λ e' b. (w, tt)))
                (λ e' h. (w, tt))))

  keep_confirm-IsValid :
      (hex_body : Bytes) (s : Exchange) (outcome : Outcome)
      → heard.confirm hex_body
      → IsValid peer heard s
      → IsValid peer heard (keep_confirm peer hex_body s outcome)
  unfolding keep_confirm
  keep_confirm-IsValid hex_body s Outcome.going c w =
      if_elim (IsValid peer heard) (ltb (length s.buffered_confirms) 200) _ _
        (λ t. record {
          few = w.few;
          short = ground (arith, length-append s.buffered_confirms (hex_body ∷ []), t);
          buffered =
              All-append heard.confirm s.buffered_confirms (hex_body ∷ []) w.buffered (c, tt);
          sent = w.sent;
          derived = w.derived;
        })
        (λ f. w)
  keep_confirm-IsValid hex_body s Outcome.panicked c w = w
  keep_confirm-IsValid hex_body s (Outcome.returned f) c w = w
  keep_confirm-IsValid hex_body s (Outcome.failed e) c w = w

  pub on_confirm-Leaves :
      (hex_body : Bytes) (s : Exchange)
      → heard.confirm hex_body
      → IsValid peer heard s
      → Leaves peer heard (on_confirm peer hex_body s)
  unfolding on_confirm
  on_confirm-Leaves hex_body s c w =
      let a =
        Map.to_list-All (λ (e : Bytes × PeerCandidate). IsDerived peer heard e.1) s.candidates
          w.derived in
      (
        keep_confirm-IsValid hex_body s (find_candidate peer hex_body (Map.to_list s.candidates)) c
            w,
        find_candidate-IsGenuine peer heard hex_body (Map.to_list s.candidates) c a,
      )
