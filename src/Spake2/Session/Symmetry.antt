-- ===== src/Spake2/Session/Symmetry.antt =====
-- crates/qvole-spake2/src/spake2.rs: the session of one side and that of the other.
use qvole_rs.Base.{
  ◌+◌, ◌≡◌, refl, sym, ap, ◌∙◌, true, false, not, ◌||◌, some, ◌++◌, arith, ltb, ◌==◌, if◌then◌else◌,
  Bytes, length, take, drop, length-append, Bool-cases, inl, inr,
}
use qvole_rs.Base.Order.{gt, gt_asymm, gt_total}
use qvole_rs.Base.Slices.{take-append, drop-append}
use qvole_rs.Base.Result.{Result, ok, err, bind_ok, guard_ok, ok_or_ok, ok_inj}
use qvole_rs.Spake2.Compare.{constant_time_eq, constant_time_eq_iff, AreBytes}
use qvole_rs.Spake2.Curve.{Crypto, IsCrypto}
use qvole_rs.Spake2.State.{Error}
use qvole_rs.Spake2.Session.{
  session_aad, aad_with_generators, check_prints, derive_session_key, encrypt_metadata,
  decrypt_metadata, compute_confirm, verify_confirm, accepts_mac,
}

pub session_aad_comm : (a b : Bytes) → session_aad a b ≡ session_aad b a
unfolding session_aad
session_aad_comm a b = elim (Bool-cases (gt a b)) [
  | inl h ↦ rw (h, gt_asymm a b h) refl
  | inr h ↦ elim (Bool-cases (gt b a)) [
    | inl k ↦ rw (h, k) refl
    | inr k ↦ rw (gt_total a b h k) refl
  ]
]

constant_time_eq_comm :
    (a b : Bytes) → AreBytes a → AreBytes b → constant_time_eq a b ≡ constant_time_eq b a
constant_time_eq_comm a b ha hb = elim (Bool-cases (constant_time_eq a b)) [
  | inl h ↦
      h ∙ sym ((constant_time_eq_iff b a hb ha).1 (sym ((constant_time_eq_iff a b ha hb).0 h)))
  | inr h ↦ elim (Bool-cases (constant_time_eq b a)) [
    | inl k ↦
        (constant_time_eq_iff a b ha hb).1 (sym ((constant_time_eq_iff b a hb ha).0 k)) ∙ sym k
    | inr k ↦ h ∙ sym k
  ]
]

checked_comm {ℓ} :
    {A : Type ℓ} (a b : Bytes) (rest : Result Error A)
    → AreBytes a
    → AreBytes b
    → check_prints a b rest ≡ check_prints b a rest
checked_comm a b rest ha hb =
    rw (constant_time_eq_comm a b ha hb) (elim (Bool-cases (length a == 32)) [
      | inl p ↦ elim (Bool-cases (length b == 32)) [
        | inl q ↦ rw (p, q) refl
        | inr q ↦ rw (p, q) refl
      ]
      | inr p ↦ elim (Bool-cases (length b == 32)) [
        | inl q ↦ rw (p, q) refl
        | inr q ↦ rw (p, q) refl
      ]
    ])

accepts_mac-true :
    (mac : Bytes) (r : Result Error Bytes)
    → ((m : Bytes) → r ≡ ok m → AreBytes m)
    → AreBytes mac
    → accepts_mac mac r ≡ true
    → r ≡ ok mac
accepts_mac-true mac (ok m) hm hmac h = ap ok ((constant_time_eq_iff m mac (hm m refl) hmac).0 h)
accepts_mac-true mac (err e) hm hmac h = absurd (ground arith)

new_gcm_ok :
    (key cipher : Bytes)
    → (if length key == 32 then ok key else err Error.gcm) ≡ ok cipher
    → ((length key == 32) ≡ true) × (key ≡ cipher)
new_gcm_ok key cipher h = elim (Bool-cases (length key == 32)) [
  | inl y ↦ (y, ground (arith, h, y))
  | inr n ↦ absurd (ground (arith, h, n))
]

module _ (k : Crypto) where
  -- Both sides derive the same keys.
  pub derive_session_key_comm :
      (n_point secret my_point peer_point f f' : Bytes)
      → AreBytes f
      → AreBytes f'
      → derive_session_key k n_point secret my_point peer_point f f'
        ≡ derive_session_key k n_point secret peer_point my_point f' f
  unfolding derive_session_key aad_with_generators
  derive_session_key_comm n_point secret my_point peer_point f f' hf hf' =
      rw (session_aad_comm my_point peer_point, session_aad_comm f f', checked_comm f f' _ hf hf')
        refl

  compute_confirm_comm :
      (n_point key my_point peer_point nonce f f' : Bytes)
      → compute_confirm k n_point key my_point peer_point nonce f f'
        ≡ compute_confirm k n_point key peer_point my_point nonce f f'
  unfolding compute_confirm
  compute_confirm_comm n_point key my_point peer_point nonce f f' =
      rw (session_aad_comm my_point peer_point) refl

  -- What one side computes, the other accepts_mac.
  pub verify_confirm-compute_confirm :
      (n_point key my_point peer_point nonce f f' mac : Bytes)
      → AreBytes mac
      → compute_confirm k n_point key my_point peer_point nonce f f' ≡ ok mac
      → verify_confirm k n_point key peer_point my_point nonce f' f mac ≡ true
  unfolding verify_confirm
  verify_confirm-compute_confirm n_point key my_point peer_point nonce f f' mac h e =
      rw (compute_confirm_comm n_point key peer_point my_point nonce f f', e)
        ((constant_time_eq_iff mac mac h h).1 refl)

  -- What is accepted is what the other side computes.
  pub verify_confirm-true :
      (n_point key my_point peer_point nonce f f' mac : Bytes)
      → ((m : Bytes)
          → compute_confirm k n_point key my_point peer_point nonce f' f ≡ ok m
          → AreBytes m)
      → AreBytes mac
      → verify_confirm k n_point key my_point peer_point nonce f f' mac ≡ true
      → compute_confirm k n_point key my_point peer_point nonce f' f ≡ ok mac
  unfolding verify_confirm
  verify_confirm-true n_point key my_point peer_point nonce f f' mac hm b h =
      accepts_mac-true mac (compute_confirm k n_point key my_point peer_point nonce f' f) hm b h

  -- What encryption returns: the nonce, then the ciphertext.
  pub encrypt_metadata-ok :
      (nonce key aad msg out : Bytes)
      → encrypt_metadata k nonce key aad msg ≡ ok out
      → (ct : Bytes) × ((length key == 32) ≡ true)
        × (k.encrypt key nonce msg aad ≡ some ct)
        × (out ≡ nonce ++ ct)
  unfolding encrypt_metadata
  encrypt_metadata-ok nonce key aad msg out h =
      let (cipher, g, h') = bind_ok _ _ out h in
      let (ct, e, h'') = bind_ok _ _ out h' in
      let (l, key') = new_gcm_ok key cipher g in
      let c : k.encrypt cipher nonce msg aad ≡ some ct = ok_or_ok Error.gcm _ ct e in
      let o : nonce ++ ct ≡ out = ok_inj _ (nonce ++ ct) out refl h'' in
      (ct, l, rw (key', c), sym o)

  pub decrypt_metadata-encrypt_metadata :
      IsCrypto k
      → (nonce key aad msg out : Bytes) → length nonce ≡ 12
      → encrypt_metadata k nonce key aad msg ≡ ok out
      → (decrypt_metadata k key aad out ≡ ok msg) × (length out ≡ length msg + 28)
  unfolding decrypt_metadata
  decrypt_metadata-encrypt_metadata law nonce key aad msg out l h =
      let (ct, g, e, o) = encrypt_metadata-ok nonce key aad msg out h in
      let t : take 12 out ≡ nonce = rw o (take-append 12 nonce ct l) in
      let d : drop 12 out ≡ ct = rw o (drop-append 12 nonce ct l) in
      let n : length out ≡ 12 + length ct = rw (o, length-append nonce ct, l) refl in
      let m = law.length-encrypt key nonce msg aad ct e in
      let c = law.decrypt-encrypt key nonce msg aad ct e in
      let b : ltb (length out) 12 ≡ false = ground (arith, n) in
      (rw (g, b, t, d, c) refl, omega (arith, n, m))

  pub checked_ok {ℓ} :
      {A : Type ℓ} (a b : Bytes) (rest : Result Error A) (x : A)
      → check_prints a b rest ≡ ok x
      → rest ≡ ok x
  checked_ok a b rest x h =
      let (_, h') =
        guard_ok (not (length a == 32) || not (length b == 32)) Error.bad_fingerprint
          (if constant_time_eq a b then err Error.reflected_fingerprint else rest) x h in
      (guard_ok (constant_time_eq a b) Error.reflected_fingerprint rest x h').1

  pub compute_confirm-ok :
      IsCrypto k
      → (n_point key my_point peer_point nonce f f' mac : Bytes)
      → compute_confirm k n_point key my_point peer_point nonce f f' ≡ ok mac
      → (length mac ≡ 32) × AreBytes mac
  unfolding compute_confirm
  compute_confirm-ok law n_point key my_point peer_point nonce f f' mac h =
      let (_, h') = guard_ok (length nonce == 0) Error.empty_nonce _ mac h in
      let e = ok_or_ok Error.hmac _ mac (checked_ok f f' _ mac h') in
      (law.length-hmac key _ mac e, law.hmac-bytes key _ mac e)
