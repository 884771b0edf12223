-- ===== src/Protocol/Trim.antt =====
-- crates/qvole-protocol/src/exchange.rs: `trim_ascii`, which the exchange applies to every datagram.
use mathlib.Core.List.{reverse-cons}
use qvole_rs.Base.{
  ◌≤◌, false, ◌&&◌, ◌==◌, ℕ, suc, ◌+◌, ◌-◌, ◌≡◌, refl, ◌⊎◌, inl, inr, Bool, true, [], ◌∷◌, ◌++◌,
  reverse, Option, none, some, arith, ltb, if◌then◌else◌, Bytes, length, all, length-append,
  Bool-cases,
}
use qvole_rs.Base.Strip.{is_space, strip, slice, ends, position, rposition, is_ink}

-- `iter().take_while(p).count()`
unfoldable pub leading : Bytes → ℕ
leading [] = 0
leading (c ∷ b) = if is_space c then suc (leading b) else 0

-- `none` is the panic of a slice that starts behind its end.
unfoldable pub slice_checked : ℕ → ℕ → Bytes → Option Bytes
slice_checked start end b = if ltb end start then none else some (slice start end b)

unfoldable pub trim_ascii : Bytes → Option Bytes
unfolding leading slice_checked
trim_ascii b =
    let start = leading b in let end = leading (reverse b) in slice_checked start (length b - end) b

leading-append_one :
    (b : Bytes) (c : ℕ)
    → leading (b ++ c ∷ [])
      ≡ (if all is_space b then (if is_space c then suc (length b) else length b) else leading b)
unfolding leading
leading-append_one [] c = refl
leading-append_one (d ∷ b) c = ground (arith, leading-append_one b c)

leading-blank : (b : Bytes) → all is_space b ≡ true → leading b ≡ length b
unfolding leading
leading-blank [] h = refl
leading-blank (c ∷ b) h = ground (arith, leading-blank b)

all-append : (p : ℕ → Bool) (b : Bytes) (c : ℕ) → all p (b ++ c ∷ []) ≡ (all p b && p c)
all-append p [] c = ground arith
all-append p (d ∷ b) c = ground (arith, all-append p b c)

all-reverse : (b : Bytes) → all is_space (reverse b) ≡ all is_space b
all-reverse [] = refl
all-reverse (c ∷ b) =
    rw (reverse-cons c b) (ground (arith, all-append is_space (reverse b) c, all-reverse b))

length-reverse : (b : Bytes) → length (reverse b) ≡ length b
length-reverse [] = refl
length-reverse (c ∷ b) =
    rw (reverse-cons c b) (omega (arith, length-append (reverse b) (c ∷ []), length-reverse b))

-- Where the slice of `trim_ascii` begins and ends, beside the first and the last printing byte.
abbrev Spans : Bytes → Type 0
Spans b =
    ((all is_space b ≡ true) × (position is_ink b ≡ none) × (rposition is_ink b ≡ none))
    ⊎ ((j i : ℕ) × (all is_space b ≡ false)
        × (position is_ink b ≡ some j)
        × (rposition is_ink b ≡ some i)
        × (leading b ≡ j)
        × (leading (reverse b) + (i + 1) ≡ length b)
        × (j ≤ i))

Spans-cons : (c : ℕ) (b : Bytes) → Spans b → Spans (c ∷ b)
unfolding leading position rposition
Spans-cons c b (inl e) = elim (Bool-cases (is_space c)) [
  | inl s ↦ inl (ground arith, ground arith, ground arith)
  | inr s ↦ inr (
    0,
    0,
    ground arith,
    ground arith,
    ground arith,
    ground arith,
    rw (reverse-cons c b)
        (ground (arith, leading-append_one (reverse b) c, all-reverse b, length-reverse b)),
    omega arith,
  )
]
Spans-cons c b (inr (j, i, a, p, q, l, t, h)) = elim (Bool-cases (is_space c)) [
  | inl s ↦ inr (
    suc j,
    suc i,
    ground arith,
    ground arith,
    ground arith,
    ground arith,
    rw (reverse-cons c b)
        (ground (arith, leading-append_one (reverse b) c, all-reverse b, length-reverse b)),
    omega arith,
  )
  | inr s ↦ inr (
    0,
    suc i,
    ground arith,
    ground arith,
    ground arith,
    ground arith,
    rw (reverse-cons c b)
        (ground (arith, leading-append_one (reverse b) c, all-reverse b, length-reverse b)),
    omega arith,
  )
]

spans : (b : Bytes) → Spans b
unfolding position rposition
spans [] = inl (refl, refl, refl)
spans (c ∷ b) = Spans-cons c b (spans b)

slice_end :
    (b : Bytes) (j i n : ℕ) → n + (i + 1) ≡ length b → slice j (length b - n) b ≡ slice j (i + 1) b
slice_end b j i n h = let e : length b - n ≡ i + 1 = omega arith in rw e

trim_blank :
    (b : Bytes)
    → all is_space b ≡ true
    → trim_ascii b
      ≡ (if all is_space b then (if length b == 0 then some [] else none) else some (strip b))
unfolding trim_ascii
trim_blank [] a = refl
trim_blank (c ∷ b) a = ground (
  arith,
  leading-blank (c ∷ b),
  leading-blank (reverse (c ∷ b)),
  all-reverse (c ∷ b),
  length-reverse (c ∷ b),
)

-- trim_ascii panics exactly on a nonempty datagram of white space only; on any other it returns
-- the text without the white space at both ends.
pub trim_ascii_lem :
    (b : Bytes)
    → trim_ascii b
      ≡ (if all is_space b then (if length b == 0 then some [] else none) else some (strip b))
unfolding trim_ascii
trim_ascii_lem b = elim (spans b) [
  | inl e ↦ trim_blank b e.0
  | inr (j, i, a, p, q, l, t, h) ↦
      rw (l, slice_checked) (ground (arith, ends b, slice_end b j i (leading (reverse b)) t))
]
