-- ===== src/Protocol/Hex/RoundTrip.antt =====
-- The texts of crates/qvole-protocol/src/hex.rs, written and read back.
use qvole_rs.Base.{ℕ, ◌+◌, ◌*◌, ◌/◌, ◌%◌, ◌<◌, ◌≡◌, refl, some, [], ◌∷◌, arith, Bytes, All, length}
use qvole_rs.Protocol.Hex.{hex_char, to_hex_lower, val, decode_pairs, hex_decode}

val-hex_char : (n : ℕ) → n < 16 → val (hex_char n) ≡ some n
unfolding val hex_char
val-hex_char n h = ground arith

decode_pairs-to_hex_lower :
    (b : Bytes) → All (λ c. c < 256) b → decode_pairs (to_hex_lower b) ≡ some b
unfolding decode_pairs to_hex_lower
decode_pairs-to_hex_lower [] a = refl
decode_pairs-to_hex_lower (c ∷ b) a =
    let e : c / 16 * 16 + c % 16 ≡ c = omega arith in
    rw (
      val-hex_char (c / 16) (omega (arith, a.0)),
      val-hex_char (c % 16) (omega arith),
      decode_pairs-to_hex_lower b a.1,
      e,
    )

length-to_hex_lower : (b : Bytes) → length (to_hex_lower b) ≡ 2 * length b
unfolding to_hex_lower
length-to_hex_lower [] = refl
length-to_hex_lower (c ∷ b) = omega (arith, length-to_hex_lower b)

-- The hexadecimal text that the protocol's to_hex_lower writes of any bytes, its hex_decode reads
-- back as these bytes.
pub decode-to_hex_lower : (b : Bytes) → All (λ c. c < 256) b → hex_decode (to_hex_lower b) ≡ some b
unfolding hex_decode
decode-to_hex_lower b a = ground (arith, length-to_hex_lower b, decode_pairs-to_hex_lower b a)
