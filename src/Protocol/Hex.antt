-- ===== src/Protocol/Hex.antt =====
-- crates/qvole-protocol/src/hex.rs: hexadecimal texts.
pub mod RoundTrip
use qvole_rs.Base.{
  ℕ, ◌+◌, ◌-◌, ◌*◌, ◌/◌, ◌%◌, ◌&&◌, Option, none, some, List, [], ◌∷◌, leb, ltb, ◌==◌, not,
  if◌then◌else◌, Bytes, length,
}
use qvole_rs.Relay.Cookie.{◌>>=◌}

-- An entry of the table `HEX`.
unfoldable pub hex_char : ℕ → ℕ
hex_char n = if ltb n 10 then b'0' + n else b'a' + (n - 10)

unfoldable pub to_hex_lower : Bytes → Bytes
unfolding hex_char
to_hex_lower [] = []
to_hex_lower (byte ∷ b) = hex_char (byte / 16) ∷ hex_char (byte % 16) ∷ to_hex_lower b

unfoldable pub val : ℕ → Option ℕ
val c =
    if leb b'0' c && leb c b'9'
    then some (c - b'0')
    else if leb b'a' c && leb c b'f'
    then some (c - b'a' + 10)
    else if leb b'A' c && leb c b'F'
    then some (c - b'A' + 10)
    else none

-- The loop, two bytes at a time.
unfoldable pub decode_pairs : Bytes → Option Bytes
unfolding val
decode_pairs [] = some []
decode_pairs (c ∷ []) = none
decode_pairs (a ∷ c ∷ b) = do
  hi ← val a
  lo ← val c
  rest ← decode_pairs b
  some ((hi * 16 + lo) ∷ rest)

unfoldable pub hex_decode : Bytes → Option Bytes
unfolding decode_pairs
hex_decode s = if not (length s % 2 == 0) then none else decode_pairs s
