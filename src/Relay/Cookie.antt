-- ===== src/Relay/Cookie.antt =====
-- crates/qvole-relay/src/relay.rs: the hexadecimal form of cookies, `to_hex_lower` and `hex_decode`.
pub mod RoundTrip
use qvole_rs.Base.{
  ℕ, ◌+◌, ◌-◌, ◌*◌, ◌/◌, ◌%◌, ◌&&◌, Option, none, some, List, [], ◌∷◌, leb, ltb, if◌then◌else◌,
  Bytes,
}

-- A digit of `{byte:02x}`.
unfoldable pub hex_digit : ℕ → ℕ
hex_digit n = if ltb n 10 then b'0' + n else b'a' + (n - 10)

unfoldable pub to_hex_lower : Bytes → Bytes
unfolding hex_digit
to_hex_lower [] = []
to_hex_lower (byte ∷ b) = hex_digit (byte / 16) ∷ hex_digit (byte % 16) ∷ to_hex_lower b

unfoldable pub hv : ℕ → Option ℕ
hv c =
    if leb b'0' c && leb c b'9'
    then some (c - b'0')
    else if leb b'a' c && leb c b'f'
    then some (c - b'a' + 10)
    else if leb b'A' c && leb c b'F'
    then some (c - b'A' + 10)
    else none

infixl 5 ◌>>=◌
abbrev pub ◌>>=◌ {ℓ κ} : {A : Type ℓ} {B : Type κ} → Option A → (A → Option B) → Option B
◌>>=◌ none f = none
◌>>=◌ (some a) f = f a

-- The pairs of `as_chunks`, and `None` for a digit left over. The loop fails on the first bad digit
-- and a digit left over fails before it: the answer is the same.
unfoldable pub hex_decode : Bytes → Option Bytes
unfolding hv
hex_decode [] = some []
hex_decode (a ∷ []) = none
hex_decode (a ∷ c ∷ b) = do hi ← hv a; lo ← hv c; rest ← hex_decode b; some ((hi * 16 + lo) ∷ rest)
