-- ===== src/Protocol/Exchange/Invariant/Genuine.antt =====
-- crates/qvole-protocol/src/exchange.rs: the peer that the exchange returns.
use qvole_rs.Base.{
  ◌≡◌, refl, sym, ap, ◌∙◌, subst, Bool, some, true, false, not, ◌||◌, List, [], ◌∷◌, arith, ltb,
  ◌==◌, eqb, eqb-false_ne, if◌then◌else◌, Bytes, bytes_key, length, take, drop, All, Bool-cases,
  inl, inr,
}
use qvole_rs.Base.Order.{gt}
use qvole_rs.Base.Result.{ok, err, ok_or, map_err, bind_ok, ok_or_ok, ok_inj, result_elim, guard_ok}
use qvole_rs.Spake2.State.{State, compute_shared}
use qvole_rs.Spake2.Session.{derive_session_key, verify_confirm}
use qvole_rs.Protocol.Hex.{hex_decode}
use qvole_rs.Protocol.Exchange.{ExchangeError, Suite}
use qvole_rs.Protocol.Exchange.Spake.{ProcessedSpake, derive, compare, process_spake_msg}
use qvole_rs.Protocol.Exchange.Confirm.{process_confirm_msg}
use qvole_rs.Protocol.Exchange.State.{my_point_m, my_point_n, Peer, PeerCandidate}
use qvole_rs.Protocol.Exchange.Receive.{confirms, found, find_buffered, find_candidate}
use qvole_rs.Protocol.Exchange.Invariant.{Traffic, IsAuthentic, IsDerived, IsGenuine}

module _ {P : Type 0} (suite : Suite P) where
  derive-fingerprint :
      (s : State) (f f' mine peer : Bytes) (role : Bool) (p : ProcessedSpake)
      → derive suite s f f' role mine peer ≡ ok p
      → p.peer_fingerprint ≡ f'
  unfolding derive
  derive-fingerprint s f f' mine peer role p h =
      let (shared, h1, r1) =
        bind_ok
          (map_err ExchangeError.spake2_state
            (compute_shared suite.curve suite.generators s peer role))
          _ p h in
      let (keys, h2, r2) =
        bind_ok
          (map_err ExchangeError.derive_key
            (derive_session_key suite.crypto suite.n_point shared mine peer f f'))
          _ p r1 in
      ap (λ (x : ProcessedSpake). x.peer_fingerprint) (sym (ok_inj _ _ p refl r2))

  compare-fingerprint :
      (s : State) (m n f m' n' f' : Bytes) (p : ProcessedSpake)
      → compare suite s m n f m' n' f' ≡ ok p
      → ¬ (p.peer_fingerprint ≡ f)
  unfolding compare
  compare-fingerprint s m n f m' n' f' p h =
      let (_, h1) = guard_ok (not (length f == 32) || not (length f' == 32)) _ _ p h in
      let (q, h2) = guard_ok (eqb f f') _ _ p h1 in
      let (_, h3) = guard_ok (eqb m m') _ _ p h2 in
      elim (Bool-cases (gt m m')) [
        | inl g ↦
            λ e. eqb-false_ne f f' q (sym e ∙ derive-fingerprint s f f' n m' true p (rw g at h3))
        | inr g ↦
            λ e. eqb-false_ne f f' q (sym e ∙ derive-fingerprint s f f' m n' false p (rw g at h3))
      ]

  process_spake_msg-fingerprint :
      (body : Bytes) (s : State) (m n f : Bytes) (p : ProcessedSpake)
      → process_spake_msg suite body s m n f ≡ ok p
      → ¬ (p.peer_fingerprint ≡ f)
  unfolding process_spake_msg
  process_spake_msg-fingerprint body s m n f p h =
      let (payload, _, h1) = bind_ok (ok_or ExchangeError.invalid_hex (hex_decode body)) _ p h in
      let (_, h2) = guard_ok (ltb (length payload) 162) _ _ p h1 in
      compare-fingerprint s m n f _ _ _ p h2

  process_confirm_msg-verified :
      (hex_body ck ek my peer f f' pa : Bytes)
      → process_confirm_msg suite hex_body ck ek my peer f f' ≡ ok pa
      → (payload : Bytes) × (hex_decode hex_body ≡ some payload)
        × (verify_confirm suite.crypto suite.n_point ck my peer
              (take 16 payload)
              f
              f'
              (take 32 (drop 16 payload))
            ≡ true)
  unfolding process_confirm_msg
  process_confirm_msg-verified hex_body ck ek my peer f f' pa h =
      let (payload, d, h1) =
        bind_ok (ok_or ExchangeError.invalid_hex (hex_decode hex_body)) _ pa h in
      let (_, _, h2) =
        bind_ok
          (if ltb (length payload) 160
            then err ExchangeError.confirm_payload_too_short
            else ok payload)
          _ pa h1 in
      elim (Bool-cases (
        verify_confirm suite.crypto suite.n_point ck my peer (take 16 payload) f f'
          (take 32 (drop 16 payload)))) [
            | inl v ↦
                (payload, ok_or_ok ExchangeError.invalid_hex (hex_decode hex_body) payload d, v)
            | inr v ↦ absurd (ground (arith, rw v at h2))
          ]

module _ {P : Type 0} (peer : Peer P) (heard : Traffic) where
  confirms-IsAuthentic :
      (hex_body pa : Bytes) (cand : PeerCandidate)
      → IsDerived peer heard cand
      → heard.confirm hex_body
      → confirms peer hex_body cand ≡ ok pa
      → IsAuthentic peer heard (found peer cand pa)
  confirms-IsAuthentic hex_body pa cand d c h =
      let accepted = subst (λ c. confirms peer hex_body c ≡ ok pa) d.same h in
      let (payload, e, v) =
        process_confirm_msg-verified peer.suite hex_body _ _ _ _ _ _ pa accepted in
      record {
        body = d.body;
        came = d.came;
        confirm_body = hex_body;
        confirm_came = c;
        decoded = e;
        address = accepted;
        proc = d.proc;
        processed = d.processed;
        fingerprint = ap (λ (c : PeerCandidate). c.fingerprint) d.same;
        not_mine = λ e.
            process_spake_msg-fingerprint peer.suite d.body peer.state (my_point_m peer)
              (my_point_n peer) peer.my_fingerprint d.proc d.processed
              (sym (ap (λ (c : PeerCandidate). c.fingerprint) d.same) ∙ e);
        role = ap (λ (c : PeerCandidate). c.is_server) d.same;
        payload = payload;
        verified = v;
      }

  pub find_buffered-IsGenuine :
      (cand : PeerCandidate) (buffered : List Bytes)
      → IsDerived peer heard cand
      → All heard.confirm buffered
      → IsGenuine peer heard (find_buffered peer cand buffered)
  unfolding find_buffered
  find_buffered-IsGenuine cand [] d a = tt
  find_buffered-IsGenuine cand (b ∷ buffered) d a =
      result_elim (IsGenuine peer heard) (confirms peer b cand) _ _
        (λ pa h. confirms-IsAuthentic b pa cand d a.0 h)
        (λ e h. find_buffered-IsGenuine cand buffered d a.1)

  pub find_candidate-IsGenuine :
      (hex_body : Bytes) (cands : List (Bytes × PeerCandidate))
      → heard.confirm hex_body
      → All (λ (e : Bytes × PeerCandidate). IsDerived peer heard e.1) cands
      → IsGenuine peer heard (find_candidate peer hex_body cands)
  unfolding find_candidate
  find_candidate-IsGenuine hex_body [] c a = tt
  find_candidate-IsGenuine hex_body ((k, cand) ∷ cands) c a =
      result_elim (IsGenuine peer heard) (confirms peer hex_body cand) _ _
        (λ pa h. confirms-IsAuthentic hex_body pa cand a.0 c h)
        (λ e h. find_candidate-IsGenuine hex_body cands c a.1)
