-- ===== src/Spake2/Session.antt =====
-- crates/qvole-spake2/src/spake2.rs: the keys of a session, the encryption of metadata and the
-- confirmation. `n_point` is the generator N in the form that `marshal_point` gives it.
pub mod Symmetry
use qvole_rs.Base.{
  Bool, true, false, not, ◌||◌, Option, none, some, List, [], ◌∷◌, ◌++◌, ltb, ◌==◌, if◌then◌else◌,
  Bytes, bytes, length, take, drop,
}
use qvole_rs.Base.Order.{gt}
use qvole_rs.Base.Result.{Result, ok, err, ok_or, ◌>>=◌}
use qvole_rs.Spake2.Compare.{constant_time_eq}
use qvole_rs.Spake2.Curve.{Crypto}
use qvole_rs.Spake2.State.{Error}

unfoldable pub session_aad : Bytes → Bytes → Bytes
session_aad my_point peer_point =
    if gt my_point peer_point then peer_point ++ my_point else my_point ++ peer_point

unfoldable pub aad_with_generators : Bytes → Bytes → Bytes → Bytes
unfolding session_aad
aad_with_generators n_point my_point peer_point = session_aad my_point peer_point ++ n_point

-- What the two checks of the fingerprints return, before `rest`.
abbrev pub check_prints {ℓ} : {A : Type ℓ} → Bytes → Bytes → Result Error A → Result Error A
check_prints a b rest =
    if not (length a == 32) || not (length b == 32)
    then err Error.bad_fingerprint
    else if constant_time_eq a b
    then err Error.reflected_fingerprint
    else rest

-- The text whose digest is the salt; the fingerprints are sorted.
abbrev pub salt_text : Bytes → Bytes → Bytes → Bytes → Bytes → Bytes
salt_text n_point my_point peer_point my_fingerprint peer_fingerprint =
    aad_with_generators n_point my_point peer_point
    ++ (bytes "qvole-spake2-fingerprints" ++ session_aad my_fingerprint peer_fingerprint)

abbrev pub accepts_mac : Bytes → Result Error Bytes → Bool
accepts_mac peer_confirm (ok expected) = constant_time_eq expected peer_confirm
accepts_mac peer_confirm (err e) = false

module _ (k : Crypto) where
  -- The confirm key, then the encryption key.
  unfoldable pub derive_session_key :
      Bytes → Bytes → Bytes → Bytes → Bytes → Bytes → Result Error (Bytes × Bytes)
  unfolding aad_with_generators
  derive_session_key n_point shared_secret my_point peer_point my_fingerprint peer_fingerprint =
      check_prints my_fingerprint peer_fingerprint (do
        key ← ok_or Error.hkdf (
            k.expand
              (k.sha256 (salt_text n_point my_point peer_point my_fingerprint peer_fingerprint))
              shared_secret (bytes "qvole-spake2-session") 64)
        ok (take 32 key, drop 32 key))

  abbrev new_gcm : Bytes → Result Error Bytes
  new_gcm key = if length key == 32 then ok key else err Error.gcm

  -- The nonce, of 12 bytes, is what the random source yields.
  unfoldable pub encrypt_metadata : Bytes → Bytes → Bytes → Bytes → Result Error Bytes
  encrypt_metadata nonce key aad msg = do
    cipher ← new_gcm key
    ct ← ok_or Error.gcm (k.encrypt cipher nonce msg aad)
    ok (nonce ++ ct)

  unfoldable pub decrypt_metadata : Bytes → Bytes → Bytes → Result Error Bytes
  decrypt_metadata key aad ciphertext = do
    cipher ← new_gcm key
    if ltb (length ciphertext) 12
        then err Error.ciphertext_too_short
        else ok_or Error.gcm_auth (k.decrypt cipher (take 12 ciphertext) (drop 12 ciphertext) aad)

  abbrev confirm_text : Bytes → Bytes → Bytes → Bytes → Bytes → Bytes → Bytes
  confirm_text n_point my_point peer_point nonce sender_fingerprint receiver_fingerprint =
      session_aad my_point peer_point
      ++ (n_point
          ++ (bytes "qvole-spake2-confirm-sender"
              ++ (sender_fingerprint
                  ++ (bytes "qvole-spake2-confirm-receiver"
                      ++ (receiver_fingerprint ++ (nonce ++ bytes "qvole-spake2-confirm"))))))

  unfoldable pub compute_confirm :
      Bytes → Bytes → Bytes → Bytes → Bytes → Bytes → Bytes → Result Error Bytes
  unfolding session_aad
  compute_confirm n_point session_key my_point peer_point nonce sender_fingerprint
        receiver_fingerprint =
      if length nonce == 0
      then err Error.empty_nonce
      else check_prints sender_fingerprint receiver_fingerprint (
          ok_or Error.hmac (
            k.hmac session_key (
              confirm_text n_point my_point peer_point nonce sender_fingerprint
                receiver_fingerprint)))

  unfoldable pub verify_confirm :
      Bytes → Bytes → Bytes → Bytes → Bytes → Bytes → Bytes → Bytes → Bool
  unfolding compute_confirm
  verify_confirm n_point session_key my_point peer_point nonce my_fingerprint peer_fingerprint
        peer_confirm =
      accepts_mac peer_confirm (
        compute_confirm n_point session_key my_point peer_point nonce peer_fingerprint
          my_fingerprint)
