-- ===== src/Spake2/Code.antt =====
-- crates/qvole-spake2/src/code.rs: connection codes, their nameplates and the random numbers that
-- they are drawn with. SHA-256 is a parameter, and so is what the random source yields.
pub mod Bounds
use qvole_rs.Base.{
  ℕ, ◌*◌, ◌/◌, ◌%◌, Bool, true, false, ◌&&◌, ◌||◌, Option, none, some, List, [], ◌∷◌, ◌++◌, ltb,
  leb, ◌==◌, if◌then◌else◌, Bytes, bytes, length, take, all,
}
use qvole_rs.Protocol.Hex.{to_hex_lower}

abbrev is_digit : ℕ → Bool
is_digit c = leb b'0' c && leb c b'9'

abbrev fifth_is_dash : Bytes → Bool
fifth_is_dash (a ∷ b ∷ c ∷ d ∷ e ∷ rest) = e == b'-'
fifth_is_dash _ = false

unfoldable pub is_generated_code : Bytes → Bool
is_generated_code b = leb 5 (length b) && all is_digit (take 4 b) && fifth_is_dash b

-- `hex_encode` of this file has the body of `to_hex_lower`.
unfoldable pub nameplate : (Bytes → Bytes) → Bytes → Bytes
unfolding is_generated_code
nameplate sha256 code =
    if is_generated_code code
    then take 4 code
    else to_hex_lower (take 4 (sha256 (bytes "qvole-nameplate:" ++ code)))

-- What `rand_int` ends with: an error, a number, or no more random words.
pub data Drawn : Type 0 where
  out_of_range dry : Drawn
  drawn : ℕ → Drawn

unfoldable pub draw : ℕ → List ℕ → Drawn
draw max [] = Drawn.dry
draw max (v ∷ words) =
    let rest = draw max words in if ltb v (65536 / max * max) then Drawn.drawn (v % max) else rest

-- The random words are given in the order in which they are read.
unfoldable pub rand_int : ℕ → List ℕ → Drawn
unfolding draw
rand_int max words = if max == 0 || ltb 65536 max then Drawn.out_of_range else draw max words
