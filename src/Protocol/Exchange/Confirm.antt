-- ===== src/Protocol/Exchange/Confirm.antt =====
-- crates/qvole-protocol/src/exchange.rs: the confirm message, written and read.
pub mod RoundTrip
use qvole_rs.Base.{
  ℕ, ◌+◌, ◌-◌, ◌*◌, ◌/◌, ◌%◌, Bool, true, false, not, List, [], ◌∷◌, ◌++◌, ltb, ◌==◌, if◌then◌else◌,
  Bytes, length, take, drop, replicate,
}
use qvole_rs.Base.Result.{Result, ok, err, ok_or, map_err, ◌>>=◌}
use qvole_rs.Spake2.Session.{
  session_aad, encrypt_metadata, decrypt_metadata, compute_confirm, verify_confirm,
}
use qvole_rs.Protocol.Hex.{hex_decode}
use qvole_rs.Protocol.Exchange.{ExchangeError, Suite}

-- What the random source yields: the nonce of the confirmation, that of the cipher, and padding.
pub record Random : Type 0 where
  pub confirm_nonce : Bytes
  pub cipher_nonce : Bytes
  pub padding : ℕ → Bytes

-- `take_while(|&b| b != 0)`
unfoldable pub until_zero : Bytes → Bytes
until_zero [] = []
until_zero (c ∷ b) = if c == 0 then [] else c ∷ until_zero b

-- `map(char::from)`, the characters in UTF-8.
unfoldable pub from_chars : Bytes → Bytes
from_chars [] = []
from_chars (c ∷ b) =
    if ltb c 128 then c ∷ from_chars b else (192 + c / 64) ∷ (128 + c % 64) ∷ from_chars b

-- The padding to the size of a confirm payload.
abbrev pub padded : Random → Bytes → Bytes
padded random cp = if ltb (length cp) 160 then cp ++ random.padding (160 - length cp) else cp

module _ {P : Type 0} (suite : Suite P) where
  unfoldable pub build_confirm_payload :
      Random → Bytes → Bytes → Bytes → Bytes → Bytes → Bytes → Bytes → Result ExchangeError Bytes
  build_confirm_payload random confirm_key enc_key my_point peer_point my_fingerprint
        peer_fingerprint my_addr =
      do
        confirm ← map_err ExchangeError.bad_confirm (
            compute_confirm suite.crypto suite.n_point confirm_key my_point peer_point
              random.confirm_nonce my_fingerprint peer_fingerprint)
        addr_bytes ←
            (if ltb 52 (length my_addr)
              then err (ExchangeError.address_too_long (length my_addr) 52)
              else ok (my_addr ++ replicate (52 - length my_addr) 0))
        enc_addr ← map_err ExchangeError.encrypt_addr (
            encrypt_metadata suite.crypto random.cipher_nonce enc_key
              (session_aad my_point peer_point) addr_bytes)
        ok (padded random (random.confirm_nonce ++ (confirm ++ enc_addr)))

  unfoldable pub process_confirm_msg :
      Bytes → Bytes → Bytes → Bytes → Bytes → Bytes → Bytes → Result ExchangeError Bytes
  unfolding until_zero from_chars
  process_confirm_msg hex_body confirm_key enc_key my_point peer_point my_fingerprint
        peer_fingerprint =
      do
        payload ← ok_or ExchangeError.invalid_hex (hex_decode hex_body)
        _ ←
            (if ltb (length payload) 160
              then err ExchangeError.confirm_payload_too_short
              else ok payload)
        _ ←
            (if verify_confirm suite.crypto suite.n_point confirm_key my_point peer_point
                (take 16 payload) my_fingerprint peer_fingerprint (take 32 (drop 16 payload))
              then ok payload
              else err ExchangeError.confirm_mismatch)
        addr ← map_err ExchangeError.decrypt_addr (
            decrypt_metadata suite.crypto enc_key (session_aad my_point peer_point)
              (take 80 (drop 48 payload)))
        ok (from_chars (until_zero addr))
