-- ===== src/Protocol/Exchange/Spake/Agreement.antt =====
-- crates/qvole-protocol/src/exchange.rs: what `process_spake_msg` derives on the two sides.
use qvole_rs.Base.{
  ℕ, ◌<◌, ◌≡◌, refl, sym, ap, ◌∙◌, Bool, true, false, not, some, ◌++◌, arith, ltb, if◌then◌else◌,
  eqb-false_ne, eqb-false_sym, Bytes, bytes_key, length, length-append, take, drop, eqb, All-append,
  Bool-cases, inl, inr,
}
use qvole_rs.Base.Slices.{take-append, drop-append, take_all, drop_add}
use qvole_rs.Base.Order.{gt, gt_asymm, gt_total}
use qvole_rs.Base.Result.{ok, map_err, bind_ok, ok_inj}
use qvole_rs.Spake2.Compare.{AreBytes}
use qvole_rs.Spake2.Curve.{IsCurve, marshal_point}
use qvole_rs.Spake2.State.{
  State, state_from_scalars, blinded_bytes_m, blinded_bytes_n, compute_shared,
}
use qvole_rs.Spake2.State.Agreement.{compute_shared-agree, state_from_scalars-IsState}
use qvole_rs.Spake2.Session.{derive_session_key}
use qvole_rs.Spake2.Session.Symmetry.{derive_session_key_comm}
use qvole_rs.Protocol.Hex.{to_hex_lower, hex_decode}
use qvole_rs.Protocol.Hex.RoundTrip.{decode-to_hex_lower}
use qvole_rs.Protocol.Exchange.{ExchangeError, Suite}
use qvole_rs.Protocol.Exchange.Spake.{
  ProcessedSpake, spake2_payload, derive, compare, process_spake_msg,
}

-- What the other side derives: the points swapped, the other role, the same keys.
abbrev pub mirror : Bytes → ProcessedSpake → ProcessedSpake
mirror my_fingerprint p = record {
  effective_my_point = p.effective_peer_point;
  effective_peer_point = p.effective_my_point;
  peer_fingerprint = my_fingerprint;
  is_server = not p.is_server;
  confirm_key = p.confirm_key;
  enc_key = p.enc_key;
}

parts :
    (a b f : Bytes)
    → length a ≡ 65
    → length b ≡ 65
    → length f ≡ 32
    → (length (a ++ (b ++ f)) ≡ 162)
      × (take 65 (a ++ (b ++ f)) ≡ a)
      × (take 65 (drop 65 (a ++ (b ++ f))) ≡ b)
      × (take 32 (drop 130 (a ++ (b ++ f))) ≡ f)
parts a b f la lb lf =
    let d = drop-append 65 a (b ++ f) la in
    let dd = drop_add 65 65 (a ++ (b ++ f)) ∙ (ap (drop 65) d ∙ drop-append 65 b f lb) in
    (
      omega (arith, length-append a (b ++ f), length-append b f, la, lb, lf),
      take-append 65 a (b ++ f) la,
      ap (take 65) d ∙ take-append 65 b f lb,
      ap (take 32) dd ∙ take_all 32 f lf,
    )

module _ {P : Type 0} (suite : Suite P) (law : IsCurve suite.curve) where
  -- A side whose scalars give points other than the identity.
  abbrev pub IsHonest : ℕ → ℕ → ℕ → Bytes → State → Type 0
  IsHonest pw m n f s =
      (state_from_scalars suite.curve suite.generators pw m n ≡ ok s)
      × ((u : Bytes × Bytes) × (suite.curve.affine (suite.curve.mul m suite.curve.base) ≡ some u))
      × ((v : Bytes × Bytes) × (suite.curve.affine (suite.curve.mul n suite.curve.base) ≡ some v))
      × (length f ≡ 32)
      × AreBytes f

  derive-mirror :
      (s s' : State) (f f' mine peer : Bytes) (role : Bool) (p : ProcessedSpake)
      → compute_shared suite.curve suite.generators s peer role
        ≡ compute_shared suite.curve suite.generators s' mine (not role)
      → AreBytes f
      → AreBytes f'
      → derive suite s f f' role mine peer ≡ ok p
      → derive suite s' f' f (not role) peer mine ≡ ok (mirror f p)
  unfolding derive
  derive-mirror s s' f f' mine peer role p e hf hf' h =
      let (shared, h1, r1) =
        bind_ok
          (map_err ExchangeError.spake2_state
            (compute_shared suite.curve suite.generators s peer role))
          _ p h in
      let (keys, h2, r2) =
        bind_ok
          (map_err ExchangeError.derive_key
            (derive_session_key suite.crypto suite.n_point shared mine peer f f'))
          _ p r1 in
      rw
        (
          sym e,
          h1,
          derive_session_key_comm suite.crypto suite.n_point shared peer mine f' f hf' hf,
          h2,
        )
        (ap (λ x. ok (mirror f x)) (ok_inj _ _ p refl r2))

  marshal_point-bytes :
      (p : P) (xy : Bytes × Bytes)
      → suite.curve.affine p ≡ some xy
      → (length (marshal_point xy) ≡ 65) × AreBytes (marshal_point xy)
  unfolding marshal_point
  marshal_point-bytes p xy e =
      let (lx, ly, bx, by) = law.affine-bytes p xy e in
      (
        omega (arith, length-append xy.0 xy.1, lx, ly),
        (omega arith, All-append (λ c. c < 256) xy.0 xy.1 bx by),
      )

  pub spake2_payload-parts :
      (s : State) (f : Bytes)
      → length (blinded_bytes_m suite.curve suite.generators s) ≡ 65
      → length (blinded_bytes_n suite.curve suite.generators s) ≡ 65
      → length f ≡ 32
      → (length (spake2_payload suite s f) ≡ 162)
        × (take 65 (spake2_payload suite s f) ≡ blinded_bytes_m suite.curve suite.generators s)
        × (take 65 (drop 65 (spake2_payload suite s f))
            ≡ blinded_bytes_n suite.curve suite.generators s)
        × (take 32 (drop 130 (spake2_payload suite s f)) ≡ f)
  unfolding spake2_payload
  spake2_payload-parts s f lm ln lf = parts _ _ f lm ln lf

  -- The points of an honest side, in the form that is sent.
  points-bytes :
      (pw m n : ℕ) (f : Bytes) (s : State)
      → IsHonest pw m n f s
      → ((length (blinded_bytes_m suite.curve suite.generators s) ≡ 65)
          × AreBytes (blinded_bytes_m suite.curve suite.generators s))
        × ((length (blinded_bytes_n suite.curve suite.generators s) ≡ 65)
            × AreBytes (blinded_bytes_n suite.curve suite.generators s))
  unfolding blinded_bytes_m blinded_bytes_n
  points-bytes pw m n f s (h, _, _, _, _) =
      let (_, _, _, x, y) =
        state_from_scalars-IsState suite.curve law suite.generators pw m n s h in
      (marshal_point-bytes _ s.blinded_m x, marshal_point-bytes _ s.blinded_n y)

  pub decode-spake2_payload :
      (pw m n : ℕ) (f : Bytes) (s : State)
      → IsHonest pw m n f s
      → hex_decode (to_hex_lower (spake2_payload suite s f)) ≡ some (spake2_payload suite s f)
  unfolding spake2_payload
  decode-spake2_payload pw m n f s h =
      let ((_, bm), (_, bn)) = points-bytes pw m n f s h in
      let join = All-append (λ c. c < 256) in decode-to_hex_lower _ (join _ _ bm (join _ f bn h.4))

  pub take-spake2_payload :
      (pw m n : ℕ) (f : Bytes) (s : State)
      → IsHonest pw m n f s
      → take 162 (spake2_payload suite s f) ≡ spake2_payload suite s f
  take-spake2_payload pw m n f s h =
      let ((lm, _), (ln, _)) = points-bytes pw m n f s h in
      take_all 162 _ (spake2_payload-parts s f lm ln h.3).0

  -- A peer's payload, taken apart.
  process_spake_msg-payload :
      (pw m n : ℕ) (f my_f my_m my_n : Bytes) (s my : State)
      → IsHonest pw m n f s
      → process_spake_msg suite (to_hex_lower (spake2_payload suite s f)) my my_m my_n my_f
        ≡ compare suite my my_m my_n my_f
            (blinded_bytes_m suite.curve suite.generators s)
            (blinded_bytes_n suite.curve suite.generators s)
            f
  unfolding process_spake_msg
  process_spake_msg-payload pw m n f my_f my_m my_n s my h =
      let ((lm, _), (ln, _)) = points-bytes pw m n f s h in
      let (l, tm, tn, tf) = spake2_payload-parts s f lm ln h.3 in
      let short : ltb (length (spake2_payload suite s f)) 162 ≡ false = ground (arith, l) in
      rw (decode-spake2_payload pw m n f s h, short, tm, tn, tf) refl

  -- A comparison that goes through, whichever side is the greater.
  compare-ok :
      (s : State) (m n f m' n' f' : Bytes) (p : ProcessedSpake)
      → length f ≡ 32
      → length f' ≡ 32
      → compare suite s m n f m' n' f' ≡ ok p
      → (eqb f f' ≡ false)
        × (eqb m m' ≡ false)
        × ((if gt m m' then derive suite s f f' true n m' else derive suite s f f' false m n')
            ≡ ok p)
  unfolding compare
  compare-ok s m n f m' n' f' p l l' h = elim (Bool-cases (eqb f f')) [
    | inl q ↦ absurd (ground (arith, rw (l, l', q) at h))
    | inr q ↦ elim (Bool-cases (eqb m m')) [
      | inl r ↦ absurd (ground (arith, rw (l, l', q, r) at h))
      | inr r ↦ (q, r, rw (l, l', q, r) at h)
    ]
  ]

  compare_intro :
      (s : State) (m n f m' n' f' : Bytes)
      → length f ≡ 32
      → length f' ≡ 32
      → eqb f f' ≡ false
      → eqb m m' ≡ false
      → compare suite s m n f m' n' f'
        ≡ (if gt m m' then derive suite s f f' true n m' else derive suite s f f' false m n')
  unfolding compare
  compare_intro s m n f m' n' f' l l' q r = rw (l, l', q, r) refl

  abbrev point_m : State → Bytes
  point_m = blinded_bytes_m suite.curve suite.generators

  abbrev point_n : State → Bytes
  point_n = blinded_bytes_n suite.curve suite.generators

  module _ (pw m n m' n' : ℕ) (f f' : Bytes) (s s' : State) (pm pn : Bytes × Bytes)
      (h : IsHonest pw m n f s) (h' : IsHonest pw m' n' f' s')
      (km : suite.curve.affine (suite.curve.mul pw suite.generators.m) ≡ some pm)
      (kn : suite.curve.affine (suite.curve.mul pw suite.generators.n) ≡ some pn) where
    shared-server :
        compute_shared suite.curve suite.generators s (point_m s') true
        ≡ compute_shared suite.curve suite.generators s' (point_n s) false
    shared-server =
        let agree = compute_shared-agree suite.curve law suite.generators pw m n m' n' s s' pm pn in
        (agree h'.1.0 h.2.0 h.0 h'.0 km kn h'.1.1 h.2.1).1

    shared-client :
        compute_shared suite.curve suite.generators s (point_n s') false
        ≡ compute_shared suite.curve suite.generators s' (point_m s) true
    shared-client =
        let agree = compute_shared-agree suite.curve law suite.generators pw m' n' m n s' s pm pn in
        sym (agree h.1.0 h'.2.0 h'.0 h.0 km kn h.1.1 h'.2.1).1

    compare-mirror :
        (p : ProcessedSpake)
        → compare suite s (point_m s) (point_n s) f (point_m s') (point_n s') f' ≡ ok p
        → compare suite s' (point_m s') (point_n s') f' (point_m s) (point_n s) f ≡ ok (mirror f p)
    compare-mirror p e =
        let (q, r, d) =
          compare-ok s (point_m s) (point_n s) f (point_m s') (point_n s') f' p h.3 h'.3 e in
        let c =
          compare_intro s' (point_m s') (point_n s') f' (point_m s) (point_n s) f h'.3 h.3
            (eqb-false_sym f f' q) (eqb-false_sym (point_m s) (point_m s') r) in
        elim (Bool-cases (gt (point_m s) (point_m s'))) [
          | inl g ↦
              let d' = rw g at d in
              rw (c, gt_asymm (point_m s) (point_m s') g)
                (derive-mirror s s' f f' (point_n s) (point_m s') true p shared-server h.4 h'.4 d')
          | inr g ↦ elim (Bool-cases (gt (point_m s') (point_m s))) [
            | inl g' ↦
                let d' = rw g at d in
                rw (c, g')
                  (derive-mirror s s' f f' (point_m s) (point_n s') false p shared-client h.4 h'.4
                    d')
            | inr g' ↦
                absurd
                  (eqb-false_ne (point_m s) (point_m s') r (gt_total (point_m s) (point_m s') g g'))
          ]
        ]

    -- Two sides whose states were built with one password scalar, whose own scalars do not give
    -- the identity, and whose fingerprints are 32 bytes; the scalar times M and times N not the
    -- identity: when process_spake_msg succeeds for one side on the other's payload, it succeeds
    -- for the other side on the first one's payload, with the same confirm and encryption keys,
    -- the points swapped, the first one's fingerprint, and the opposite role.
    pub process_spake_msg-mirror :
        (p : ProcessedSpake)
        → process_spake_msg suite
            (to_hex_lower (spake2_payload suite s' f'))
            s
            (point_m s)
            (point_n s)
            f
          ≡ ok p
        → process_spake_msg suite
            (to_hex_lower (spake2_payload suite s f))
            s'
            (point_m s')
            (point_n s')
            f'
          ≡ ok (mirror f p)
    process_spake_msg-mirror p e =
        let left = process_spake_msg-payload pw m' n' f' f (point_m s) (point_n s) s' s h' in
        let right = process_spake_msg-payload pw m n f f' (point_m s') (point_n s') s s' h in
        right ∙ compare-mirror p (sym left ∙ e)
