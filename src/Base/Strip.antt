-- ===== src/Base/Strip.antt =====
-- White space taken off both ends of a byte string, by recursion: what both `trim` routines of the
-- program are measured against, and the searches of a slice that they are written with.
use Prim.Native.Nat.{ℕ, suc, ◌+◌, ◌-◌}
use mathlib.Core.Path.{◌≡◌, refl}
use mathlib.Core.Logic.{◌⊎◌, inl, inr}
use mathlib.Core.Bool.{Bool, not, ◌||◌}
use mathlib.Core.List.{[], ◌∷◌}
use mathlib.Core.Option.{Option, none, some}
use native.Mathlib.Omega.{arith}
use qvole_rs.Base.Tests.{◌==◌, if◌then◌else◌, Bytes, Bool-cases}
use qvole_rs.Base.Lists.{take, drop}

-- One of b"\t\n\x0b\x0c\r ".
unfoldable pub is_space : ℕ → Bool
is_space c = c == 9 || c == 10 || c == 11 || c == 12 || c == 13 || c == 32

-- `iter().position(p)`
unfoldable pub position : (ℕ → Bool) → Bytes → Option ℕ
position p [] = none
position p (c ∷ b) =
    let rest = position p b in
    if p c then some 0 else elim rest [ some i ↦ some (suc i) | none ↦ none ]

-- `iter().rposition(p)`
unfoldable pub rposition : (ℕ → Bool) → Bytes → Option ℕ
rposition p [] = none
rposition p (c ∷ b) = elim (rposition p b) [
  | some i ↦ some (suc i)
  | none ↦ if p c then some 0 else none
]

-- `&b[start..end]`
abbrev pub slice : ℕ → ℕ → Bytes → Bytes
slice start end b = take (end - start) (drop start b)

abbrev pub strip_end : Bytes → Bytes
strip_end [] = []
strip_end (c ∷ b) = elim (strip_end b) [
  | [] ↦ if is_space c then [] else c ∷ []
  | d ∷ r ↦ c ∷ d ∷ r
]

abbrev pub strip : Bytes → Bytes
strip [] = []
strip (c ∷ b) = if is_space c then strip b else c ∷ strip_end b

abbrev pub is_ink : ℕ → Bool
is_ink c = not (is_space c)

-- A blank text, or one whose first and last printing characters stand at `j` and `i`.
abbrev pub Ends : Bytes → Type 0
Ends b =
    ((position is_ink b ≡ none) × (rposition is_ink b ≡ none) × (strip_end b ≡ []) × (strip b ≡ []))
    ⊎ ((j i d : ℕ) × (r : Bytes) × (position is_ink b ≡ some j)
        × (rposition is_ink b ≡ some i)
        × (strip_end b ≡ d ∷ r)
        × (take (i + 1) b ≡ d ∷ r)
        × (strip b ≡ slice j (i + 1) b))

take-suc : (i c : ℕ) (b : Bytes) → take (suc i + 1) (c ∷ b) ≡ c ∷ take (i + 1) b
take-suc i c b = let e : suc i + 1 ≡ suc (i + 1) = omega arith in rw e

slice-suc : (i j c : ℕ) (b : Bytes) → slice (suc j) (suc i + 1) (c ∷ b) ≡ slice j (i + 1) b
slice-suc i j c b = let e : suc i + 1 - suc j ≡ i + 1 - j = omega arith in rw e

Ends-cons : (c : ℕ) (b : Bytes) → Ends b → Ends (c ∷ b)
unfolding position rposition
Ends-cons c b (inl e) = elim (Bool-cases (is_space c)) [
  | inl s ↦ inl (ground arith, ground arith, ground arith, ground arith)
  | inr s ↦ inr (0, 0, c, [], ground arith, ground arith, ground arith, refl, ground arith)
]
Ends-cons c b (inr (j, i, d, r, p, q, e, t, s)) = elim (Bool-cases (is_space c)) [
  | inl sp ↦ inr (
    suc j,
    suc i,
    c,
    d ∷ r,
    ground arith,
    ground arith,
    ground arith,
    ground (arith, take-suc i c b),
    ground (arith, slice-suc i j c b),
  )
  | inr sp ↦ inr (
    0,
    suc i,
    c,
    d ∷ r,
    ground arith,
    ground arith,
    ground arith,
    ground (arith, take-suc i c b),
    ground (arith, take-suc i c b),
  )
]

pub ends : (b : Bytes) → Ends b
unfolding position rposition
ends [] = inl (refl, refl, refl, refl)
ends (c ∷ b) = Ends-cons c b (ends b)
