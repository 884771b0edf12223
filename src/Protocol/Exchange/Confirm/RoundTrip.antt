-- ===== src/Protocol/Exchange/Confirm/RoundTrip.antt =====
-- crates/qvole-protocol/src/exchange.rs: a confirm message and its reader.
use mathlib.Core.List.{append_assoc}
use qvole_rs.Base.{
  ℕ, zero, suc, ◌-◌, ◌<◌, ◌≤◌, subst, ◌≡◌, refl, sym, ap, ◌∙◌, true, false, [], ◌∷◌, ◌++◌, arith,
  ltb, ◌==◌, if◌then◌else◌, Bytes, length, length-append, length-replicate, take, drop, replicate,
  All, All-append,
}
use qvole_rs.Base.Slices.{take-append, drop-append, drop_add}
use qvole_rs.Base.Result.{ok, err, map_err, bind_ok, ok_inj, guard_ok, map_err_ok}
use qvole_rs.Spake2.Compare.{AreBytes}
use qvole_rs.Spake2.Curve.{IsCrypto}
use qvole_rs.Spake2.Session.{session_aad, encrypt_metadata, decrypt_metadata, compute_confirm}
use qvole_rs.Spake2.Session.Symmetry.{
  session_aad_comm, compute_confirm-ok, verify_confirm-compute_confirm, encrypt_metadata-ok,
  decrypt_metadata-encrypt_metadata,
}
use qvole_rs.Protocol.Hex.{to_hex_lower}
use qvole_rs.Protocol.Hex.RoundTrip.{decode-to_hex_lower}
use qvole_rs.Protocol.Exchange.{ExchangeError, Suite}
use qvole_rs.Protocol.Exchange.Confirm.{
  Random, until_zero, from_chars, padded, build_confirm_payload, process_confirm_msg,
}

abbrev pub IsRandom : Random → Type 0
IsRandom r =
    (length r.confirm_nonce ≡ 16)
    × AreBytes r.confirm_nonce
    × (length r.cipher_nonce ≡ 12)
    × AreBytes r.cipher_nonce
    × ((n : ℕ) → (length (r.padding n) ≡ n) × AreBytes (r.padding n))

-- A text of ASCII characters other than NUL.
abbrev pub IsText : Bytes → Type 0
IsText b = All (λ c. (0 < c) × (c < 128)) b

until_zero-zeros : (n : ℕ) → until_zero (replicate n 0) ≡ []
unfolding until_zero
until_zero-zeros zero = refl
until_zero-zeros (suc n) = refl

text_back : (b : Bytes) (n : ℕ) → IsText b → from_chars (until_zero (b ++ replicate n 0)) ≡ b
unfolding from_chars until_zero
text_back [] n h = rw (until_zero-zeros n) refl
text_back (c ∷ b) n h =
    let z : (c == 0) ≡ false = ground (arith, h.0.0) in
    let l : ltb c 128 ≡ true = ground (arith, h.0.1) in rw (z, l, text_back b n h.1) refl

module _ (r : Random) (mac enc : Bytes) (random : IsRandom r) (lm : length mac ≡ 32)
    (le : length enc ≡ 80) where
  abbrev payload : Bytes
  payload = r.confirm_nonce ++ (mac ++ (enc ++ r.padding 32))

  padded_lem : padded r (r.confirm_nonce ++ (mac ++ enc)) ≡ payload
  padded_lem =
      let n = length-append r.confirm_nonce (mac ++ enc) in
      let l : length (r.confirm_nonce ++ (mac ++ enc)) ≡ 128 =
        omega (arith, n, length-append mac enc, lm, le, random.0) in
      let a = append_assoc r.confirm_nonce (mac ++ enc) (r.padding 32) in
      rw (l, a, append_assoc mac enc (r.padding 32)) refl

  length-payload : ltb (length payload) 160 ≡ false
  length-payload =
      let n = length-append r.confirm_nonce (mac ++ (enc ++ r.padding 32)) in
      let m = length-append mac (enc ++ r.padding 32) in
      let e = length-append enc (r.padding 32) in
      let p = (random.4 32).0 in
      let l : length payload ≡ 160 = omega (arith, n, m, e, p, lm, le, random.0) in
      ground (arith, l)

  payload-bytes : AreBytes mac → AreBytes enc → AreBytes payload
  payload-bytes bm be =
      let all = All-append (λ c. c < 256) in
      all r.confirm_nonce _ random.1 (all mac _ bm (all enc _ be (random.4 32).1))

  payload-nonce : take 16 payload ≡ r.confirm_nonce
  payload-nonce = take-append 16 r.confirm_nonce _ random.0

  payload-mac : take 32 (drop 16 payload) ≡ mac
  payload-mac = ap (take 32) (drop-append 16 r.confirm_nonce _ random.0) ∙ take-append 32 mac _ lm

  payload-enc : take 80 (drop 48 payload) ≡ enc
  payload-enc =
      ap (take 80) (
        drop_add 16 32 payload
        ∙ (ap (drop 32) (drop-append 16 r.confirm_nonce _ random.0) ∙ drop-append 32 mac _ lm))
      ∙ take-append 80 enc _ le

module _ {P : Type 0} (suite : Suite P) (law : IsCrypto suite.crypto) where
  -- What was written.
  abbrev IsWritten : Random → Bytes → Bytes → Bytes → Bytes → Bytes → Bytes → Bytes → Bytes → Type 0
  IsWritten r ck ek my peer f f' addr cp =
      (mac enc : Bytes) × (compute_confirm suite.crypto suite.n_point ck my peer r.confirm_nonce f
          f'
        ≡ ok mac)
      × (encrypt_metadata suite.crypto r.cipher_nonce ek (session_aad my peer)
            (addr ++ replicate (52 - length addr) 0)
          ≡ ok enc)
      × (ltb 52 (length addr) ≡ false)
      × (padded r (r.confirm_nonce ++ (mac ++ enc)) ≡ cp)

  build_confirm_payload-ok :
      (r : Random) (ck ek my peer f f' addr cp : Bytes)
      → build_confirm_payload suite r ck ek my peer f f' addr ≡ ok cp
      → IsWritten r ck ek my peer f f' addr cp
  unfolding build_confirm_payload
  build_confirm_payload-ok r ck ek my peer f f' addr cp h =
      let (mac, h1, r1) =
        bind_ok
          (map_err ExchangeError.bad_confirm
            (compute_confirm suite.crypto suite.n_point ck my peer r.confirm_nonce f f'))
          _ cp h in
      let (text, h2, r2) =
        bind_ok
          (if ltb 52 (length addr)
            then err (ExchangeError.address_too_long (length addr) 52)
            else ok (addr ++ replicate (52 - length addr) 0))
          _ cp r1 in
      let (l, t) = guard_ok (ltb 52 (length addr)) _ _ text h2 in
      let (enc, h3, r3) =
        bind_ok
          (map_err ExchangeError.encrypt_addr
            (encrypt_metadata suite.crypto r.cipher_nonce ek (session_aad my peer) text))
          _ cp r2 in
      let t' = ok_inj _ _ text refl t in
      let e = map_err_ok ExchangeError.encrypt_addr _ enc h3 in
      (mac, enc, map_err_ok ExchangeError.bad_confirm _ mac h1, rw t' e, l, ok_inj _ _ cp refl r3)

  encrypted :
      (r : Random) (ek aad addr enc : Bytes)
      → IsRandom r
      → IsText addr
      → ltb 52 (length addr) ≡ false
      → encrypt_metadata suite.crypto r.cipher_nonce ek aad (addr ++ replicate (52 - length addr) 0)
        ≡ ok enc
      → (length enc ≡ 80) × AreBytes enc
  encrypted r ek aad addr enc random text l e =
      let msg = addr ++ replicate (52 - length addr) 0 in
      let (ct, _, c, o) = encrypt_metadata-ok suite.crypto r.cipher_nonce ek aad msg enc e in
      let n =
        (decrypt_metadata-encrypt_metadata suite.crypto law r.cipher_nonce ek aad msg enc random.2
          e).1 in
      let fits : length addr ≤ 52 = ground arith in
      let m : length msg ≡ 52 = omega (
        arith,
        length-append addr (replicate (52 - length addr) 0),
        length-replicate {A = ℕ} (52 - length addr) 0,
        fits,
      ) in
      let b =
        All-append (λ c. c < 256) r.cipher_nonce ct random.3
          (law.encrypt-bytes ek r.cipher_nonce msg aad ct c) in
      (omega (arith, n, m), subst AreBytes (sym o) b)

  decrypted :
      (r : Random) (ek aad addr enc : Bytes)
      → IsRandom r
      → encrypt_metadata suite.crypto r.cipher_nonce ek aad (addr ++ replicate (52 - length addr) 0)
        ≡ ok enc
      → decrypt_metadata suite.crypto ek aad enc ≡ ok (addr ++ replicate (52 - length addr) 0)
  decrypted r ek aad addr enc random e =
      (decrypt_metadata-encrypt_metadata suite.crypto law r.cipher_nonce ek aad
        (addr ++ replicate (52 - length addr) 0) enc random.2 e).0

  -- With operations that obey the laws of IsCrypto and random bytes of the right lengths: a
  -- confirm payload that build_confirm_payload builds for an address of ASCII characters other
  -- than NUL, written in hexadecimal, is accepted by the other side's process_confirm_msg, which
  -- returns the address.
  pub process_confirm_msg-build :
      (r : Random) (ck ek my peer f f' addr cp : Bytes)
      → IsRandom r
      → IsText addr
      → build_confirm_payload suite r ck ek my peer f f' addr ≡ ok cp
      → process_confirm_msg suite (to_hex_lower cp) ck ek peer my f' f ≡ ok addr
  unfolding process_confirm_msg
  process_confirm_msg-build r ck ek my peer f f' addr cp random text h =
      let (mac, enc, c, e, l, p) = build_confirm_payload-ok r ck ek my peer f f' addr cp h in
      let (lm, bm) =
        compute_confirm-ok suite.crypto law suite.n_point ck my peer r.confirm_nonce f f' mac c in
      let (le, be) = encrypted r ek (session_aad my peer) addr enc random text l e in
      let v =
        verify_confirm-compute_confirm suite.crypto suite.n_point ck my peer r.confirm_nonce f f'
          mac bm c in
      let d =
        decode-to_hex_lower (payload r mac enc random lm le)
          (payload-bytes r mac enc random lm le bm be) in
      rw
        (
          sym p,
          padded_lem r mac enc random lm le,
          d,
          length-payload r mac enc random lm le,
          payload-nonce r mac enc random lm le,
          payload-mac r mac enc random lm le,
          v,
          payload-enc r mac enc random lm le,
          session_aad_comm peer my,
          decrypted r ek (session_aad my peer) addr enc random e,
          text_back addr (52 - length addr) text,
        )
        refl
