-- ===== src/Protocol/Exchange/Answer.antt =====
-- crates/qvole-protocol/src/exchange.rs: the answer to a peer that follows the protocol.
use qvole_rs.Base.Map
use qvole_rs.Base.Map.{Map}
use qvole_rs.Base.{
  ℕ, ◌≡◌, ◌⊎◌, refl, ◌∙◌, false, some, List, [], ◌∷◌, arith, ltb, Bytes, bytes_key, length, take,
  if_pos, All, inl, inr,
}
use qvole_rs.Base.Result.{ok, err, ok_or, ok_or_ok, bind_ok, guard_ok}
use qvole_rs.Spake2.Curve.{IsCurve, IsCrypto}
use qvole_rs.Spake2.State.{State, blinded_bytes_m, blinded_bytes_n}
use qvole_rs.Protocol.Hex.{hex_decode, to_hex_lower}
use qvole_rs.Protocol.Exchange.{ExchangeError}
use qvole_rs.Protocol.Exchange.Spake.{ProcessedSpake, process_spake_msg, spake2_payload}
use qvole_rs.Protocol.Exchange.Spake.Agreement.{
  IsHonest, mirror, process_spake_msg-mirror, decode-spake2_payload, take-spake2_payload,
}
use qvole_rs.Protocol.Exchange.Confirm.{Random, build_confirm_payload}
use qvole_rs.Protocol.Exchange.Confirm.RoundTrip.{IsRandom, IsText, process_confirm_msg-build}
use qvole_rs.Protocol.Exchange.State.{
  Exchange, Found, Outcome, Peer, PeerCandidate, Tick, my_point_m, my_point_n,
}
use qvole_rs.Protocol.Exchange.Receive.{
  candidate, confirms, found, add_candidate, evict_candidate, on_spake2, on_confirm, find_candidate,
}

module _ {P : Type 0} (peer : Peer P) where
  processed_payload :
      (body : Bytes) (p : ProcessedSpake)
      → process_spake_msg peer.suite body peer.state
          (my_point_m peer)
          (my_point_n peer)
          peer.my_fingerprint
        ≡ ok p
      → (payload : Bytes) × (hex_decode body ≡ some payload) × (ltb (length payload) 162 ≡ false)
  unfolding process_spake_msg
  processed_payload body p h =
      let (payload, e, h1) = bind_ok (ok_or ExchangeError.invalid_hex (hex_decode body)) _ p h in
      let (l, _) = guard_ok (ltb (length payload) 162) _ _ p h1 in
      (payload, ok_or_ok _ _ payload e, l)

  get-add_candidate :
      (later : ℕ) (key : Bytes) (p : ProcessedSpake) (cp : Bytes) (s : Exchange)
      → Map.get key (add_candidate peer later key p cp s).0.candidates ≡ some (candidate p cp)
  unfolding add_candidate
  get-add_candidate later key p cp s =
      Map.get-insert key key (candidate p cp) (evict_candidate s).candidates
      ∙ if_pos (bytes_key.dec key key) refl (some (candidate p cp)) _

  on_spake2-add :
      (tick : Tick) (body payload cp : Bytes) (p : ProcessedSpake) (s : Exchange)
      → hex_decode body ≡ some payload
      → ltb (length payload) 162 ≡ false
      → Map.contains (to_hex_lower (take 162 payload)) s.candidates ≡ false
      → process_spake_msg peer.suite body peer.state
          (my_point_m peer)
          (my_point_n peer)
          peer.my_fingerprint
        ≡ ok p
      → build_confirm_payload peer.suite tick.random p.confirm_key p.enc_key p.effective_my_point
          p.effective_peer_point peer.my_fingerprint p.peer_fingerprint s.my_addr
        ≡ ok cp
      → on_spake2 peer tick body s
        ≡ add_candidate peer tick.later (to_hex_lower (take 162 payload)) p cp s
  unfolding on_spake2
  on_spake2-add tick body payload cp p s d l c h b = rw (on_spake2, d, l, c, h, b) refl

  -- A new payload that leads to keys makes a candidate.
  on_spake2-candidate :
      (tick : Tick) (body payload cp : Bytes) (p : ProcessedSpake) (s : Exchange)
      → hex_decode body ≡ some payload
      → Map.contains (to_hex_lower (take 162 payload)) s.candidates ≡ false
      → process_spake_msg peer.suite body peer.state
          (my_point_m peer)
          (my_point_n peer)
          peer.my_fingerprint
        ≡ ok p
      → build_confirm_payload peer.suite tick.random p.confirm_key p.enc_key p.effective_my_point
          p.effective_peer_point peer.my_fingerprint p.peer_fingerprint s.my_addr
        ≡ ok cp
      → Map.get (to_hex_lower (take 162 payload)) (on_spake2 peer tick body s).0.candidates
        ≡ some (candidate p cp)
  on_spake2-candidate tick body payload cp p s d c h b =
      let (payload', d', l) = processed_payload body p h in
      let same : payload ≡ payload' = ground (arith, d, d') in
      let l' : ltb (length payload) 162 ≡ false = rw same l in
      let key = to_hex_lower (take 162 payload) in
      rw (on_spake2-add tick body payload cp p s d l' c h b)
        (get-add_candidate tick.later key p cp s)

  find_candidate-cases :
      (hex_body pa : Bytes) (cands : List (Bytes × PeerCandidate))
      → ((f : Found) × (find_candidate peer hex_body cands ≡ Outcome.returned f))
        ⊎ All (λ (e : Bytes × PeerCandidate). ¬ (confirms peer hex_body e.1 ≡ ok pa)) cands
  unfolding find_candidate
  find_candidate-cases hex_body pa [] = inr tt
  find_candidate-cases hex_body pa ((k, cand) ∷ cands) =
      elim (confirms peer hex_body cand)
        as (λ r.
          ((f : Found) × (elim r as (λ _. Outcome) [
            | ok pa' ↦ Outcome.returned (found peer cand pa')
            | err e ↦ find_candidate peer hex_body cands
          ]
              ≡ Outcome.returned f))
          ⊎ (¬ (r ≡ ok pa)
              × All (λ (e : Bytes × PeerCandidate). ¬ (confirms peer hex_body e.1 ≡ ok pa))
                  cands)) [
                    | ok pa' ↦ inl (found peer cand pa', refl)
                    | err e ↦ elim (find_candidate-cases hex_body pa cands) [
                      | inl f ↦ inl f
                      | inr a ↦ inr ((λ h. absurd (ground (arith, h))), a)
                    ]
                  ]

  -- The keys of some candidate open a confirm that those of this candidate open.
  on_confirm-returned :
      (hex_body pa : Bytes) (k : Bytes) (cand : PeerCandidate) (s : Exchange)
      → Map.get k s.candidates ≡ some cand
      → confirms peer hex_body cand ≡ ok pa
      → (f : Found) × ((on_confirm peer hex_body s).2 ≡ Outcome.returned f)
  unfolding on_confirm
  on_confirm-returned hex_body pa k cand s g h =
      elim (find_candidate-cases hex_body pa (Map.to_list s.candidates)) [
        | inl f ↦ f
        | inr a ↦ absurd (
            Map.All-get (λ (e : Bytes × PeerCandidate). ¬ (confirms peer hex_body e.1 ≡ ok pa)) k
              cand s.candidates a g h)
      ]

module _ {P : Type 0} (peer : Peer P) (law : IsCurve peer.suite.curve)
    (safe : IsCrypto peer.suite.crypto) where
  -- With operations that obey the laws of IsCurve and IsCrypto, two honest sides with one password
  -- scalar (as in the agreement theorem) and random bytes of the right lengths: if the other side
  -- derives its keys from this side's payload, and both build their confirm payloads, then this
  -- side, given the other's payload (not a candidate yet) and then its confirm message, returns a
  -- peer, whatever its other candidates are.
  pub on_confirm-honest :
      (pw m n m' n' : ℕ) (f' addr' cp cp' : Bytes) (s' : State) (pm pn : Bytes × Bytes)
      (theirs : ProcessedSpake) (tick : Tick) (r' : Random) (s : Exchange)
      → IsHonest peer.suite law pw m n peer.my_fingerprint peer.state
      → IsHonest peer.suite law pw m' n' f' s'
      → peer.suite.curve.affine (peer.suite.curve.mul pw peer.suite.generators.m) ≡ some pm
      → peer.suite.curve.affine (peer.suite.curve.mul pw peer.suite.generators.n) ≡ some pn
      → process_spake_msg peer.suite
          (to_hex_lower (spake2_payload peer.suite peer.state peer.my_fingerprint))
          s'
          (blinded_bytes_m peer.suite.curve peer.suite.generators s')
          (blinded_bytes_n peer.suite.curve peer.suite.generators s')
          f'
        ≡ ok theirs
      → Map.contains (to_hex_lower (spake2_payload peer.suite s' f')) s.candidates ≡ false
      → build_confirm_payload peer.suite tick.random theirs.confirm_key theirs.enc_key
          theirs.effective_peer_point theirs.effective_my_point peer.my_fingerprint f' s.my_addr
        ≡ ok cp
      → build_confirm_payload peer.suite r' theirs.confirm_key theirs.enc_key
          theirs.effective_my_point theirs.effective_peer_point f' peer.my_fingerprint addr'
        ≡ ok cp'
      → IsRandom r'
      → IsText addr'
      → (f : Found) × ((on_confirm peer
            (to_hex_lower cp')
            (on_spake2 peer tick (to_hex_lower (spake2_payload peer.suite s' f')) s).0).2
          ≡ Outcome.returned f)
  on_confirm-honest pw m n m' n' f' addr' cp cp' s' pm pn theirs tick r' s h h' km kn t c b b'
        random text =
      let mine =
        process_spake_msg-mirror peer.suite law pw m' n' m n f' peer.my_fingerprint s' peer.state pm
          pn h' h km kn theirs t in
      let payload = spake2_payload peer.suite s' f' in
      let short = take-spake2_payload peer.suite law pw m' n' f' s' h' in
      let d = decode-spake2_payload peer.suite law pw m' n' f' s' h' in
      let c' : Map.contains (to_hex_lower (take 162 payload)) s.candidates ≡ false = rw short c in
      let there =
        on_spake2-candidate peer tick (to_hex_lower payload) payload cp (mirror f' theirs) s d c'
          mine b in
      on_confirm-returned peer (to_hex_lower cp') addr' (to_hex_lower (take 162 payload))
        (candidate (mirror f' theirs) cp) (on_spake2 peer tick (to_hex_lower payload) s).0 there
        (process_confirm_msg-build peer.suite safe r' theirs.confirm_key theirs.enc_key
          theirs.effective_my_point theirs.effective_peer_point f' peer.my_fingerprint addr' cp'
          random text b')
