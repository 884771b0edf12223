-- ===== src/Relay/Cookie/RoundTrip.antt =====
-- The hexadecimal form of cookies in crates/qvole-relay/src/relay.rs, written and read back.
use qvole_rs.Base.{ℕ, ◌+◌, ◌*◌, ◌/◌, ◌%◌, ◌<◌, ◌≡◌, refl, some, [], ◌∷◌, arith, Bytes, All, length}
use qvole_rs.Relay.Cookie.{hex_digit, to_hex_lower, hv, hex_decode}

abbrev pub IsByte : ℕ → Type 0
IsByte c = c < 256

hv-hex_digit : (n : ℕ) → n < 16 → hv (hex_digit n) ≡ some n
unfolding hv hex_digit
hv-hex_digit n h = ground arith

-- hex_decode reads back any bytes that to_hex_lower wrote.
pub hex_decode-to_hex_lower : (b : Bytes) → All IsByte b → hex_decode (to_hex_lower b) ≡ some b
unfolding hex_decode to_hex_lower
hex_decode-to_hex_lower [] a = refl
hex_decode-to_hex_lower (c ∷ b) a =
    let e : c / 16 * 16 + c % 16 ≡ c = omega arith in
    rw (
      hv-hex_digit (c / 16) (omega (arith, a.0)),
      hv-hex_digit (c % 16) (omega arith),
      hex_decode-to_hex_lower b a.1,
      e,
    )

pub length-to_hex_lower : (b : Bytes) → length (to_hex_lower b) ≡ 2 * length b
unfolding to_hex_lower
length-to_hex_lower [] = refl
length-to_hex_lower (c ∷ b) = omega (arith, length-to_hex_lower b)
