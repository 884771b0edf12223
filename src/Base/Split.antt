-- ===== src/Base/Split.antt =====
-- `splitn` on a slice, with a byte for its predicate.
use Prim.Native.Nat.{ℕ, zero, suc}
use mathlib.Core.List.{List, [], ◌∷◌}
use mathlib.Core.Option.{Option, none, some}
use qvole_rs.Base.Tests.{◌==◌, if◌then◌else◌, Bytes}

-- What stands before the first separator, and what stands behind it.
unfoldable pub split_once : ℕ → Bytes → Bytes × Option Bytes
split_once sep [] = ([], none)
split_once sep (c ∷ b) =
    let (before, rest) = split_once sep b in if c == sep then ([], some b) else (c ∷ before, rest)

-- At most `n` pieces; the last one keeps its separators.
unfoldable pub splitn : ℕ → ℕ → Bytes → List Bytes
unfolding split_once
splitn zero sep b = []
splitn (suc zero) sep b = b ∷ []
splitn (suc (suc n)) sep b =
    let (before, rest) = split_once sep b in
    elim rest [ none ↦ before ∷ [] | some r ↦ before ∷ splitn (suc n) sep r ]

-- `strip_prefix`
unfoldable pub strip_prefix : Bytes → Bytes → Option Bytes
strip_prefix [] b = some b
strip_prefix (c ∷ prefix) [] = none
strip_prefix (c ∷ prefix) (d ∷ b) =
    let rest = strip_prefix prefix b in if d == c then rest else none
