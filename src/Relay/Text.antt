-- ===== src/Relay/Text.antt =====
-- crates/qvole-relay/src/room.rs: the checks on datagrams and names, and the choice of a shard.
pub mod Trimmed
use Prim.Native.Nat.{bit_xor}
use qvole_rs.Base.{
  ℕ, zero, suc, ◌+◌, ◌*◌, ◌%◌, ◌^◌, ◌<◌, ◌≡◌, refl, Bool, false, ◌&&◌, ◌||◌, not, List, [], ◌∷◌,
  Option, none, some, arith, ltb, leb, ◌==◌, if◌then◌else◌, Bytes, length, all,
}
use qvole_rs.Base.Strip.{is_space, position, rposition, slice}

abbrev pub max_room_name_len : ℕ
max_room_name_len = 64

abbrev pub max_datagram_len : ℕ
max_datagram_len = 1400

-- `u32` arithmetic wraps.
unfoldable pub fnv1a32_from : ℕ → Bytes → ℕ
fnv1a32_from h [] = h
fnv1a32_from h (b ∷ key) = fnv1a32_from (bit_xor h b * 0x01000193 % 2 ^ 32) key

unfoldable pub fnv1a32 : Bytes → ℕ
unfolding fnv1a32_from
fnv1a32 key = fnv1a32_from 0x811c9dc5 key

-- `n as u32` is `n` at both calls, where it is 16.
unfoldable pub shard_idx : Bytes → ℕ → ℕ
unfolding fnv1a32
shard_idx key n = fnv1a32 key % n

unfoldable pub valid_room_name : Bytes → Bool
valid_room_name room =
    if length room == 0 || ltb max_room_name_len (length room)
    then false
    else all (λ c. leb 33 c && leb c 126) room

-- `u8::is_ascii_hexdigit`
unfoldable pub is_ascii_hexdigit : ℕ → Bool
is_ascii_hexdigit c =
    leb b'0' c && leb c b'9' || leb b'a' c && leb c b'f' || leb b'A' c && leb c b'F'

unfoldable pub is_valid_hex : Bytes → Bool
unfolding is_ascii_hexdigit
is_valid_hex s = if length s == 0 || not (length s % 2 == 0) then false else all is_ascii_hexdigit s

abbrev pub unwrap_or : Option ℕ → ℕ → ℕ
unwrap_or none d = d
unwrap_or (some i) d = i

abbrev pub next : Option ℕ → Option ℕ
next none = none
next (some i) = some (i + 1)

unfoldable pub trim_ascii_space : Bytes → Bytes
unfolding is_space position rposition
trim_ascii_space b =
    let start = unwrap_or (position (λ c. not (is_space c)) b) (length b) in
    let end = unwrap_or (next (rposition (λ c. not (is_space c)) b)) start in slice start end b

pub shard_idx-lt : (key : Bytes) (n : ℕ) → 0 < n → shard_idx key n < n
unfolding shard_idx
shard_idx-lt key n h = grind arith

fnv_empty : fnv1a32 [] ≡ 0x811c9dc5
unfolding fnv1a32
fnv_empty = refl

fnv_a : fnv1a32 (b'a' ∷ []) ≡ 0xe40c292c
unfolding fnv1a32
fnv_a = refl
