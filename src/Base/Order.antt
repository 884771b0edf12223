-- ===== src/Base/Order.antt =====
-- The lexicographic order of slices, as `>` of the standard library compares them.
use mathlib.Core.Path.{◌≡◌, refl}
use mathlib.Core.Bool.{Bool, true, false}
use mathlib.Core.List.{[], ◌∷◌}
use native.Mathlib.Omega.{arith}
use qvole_rs.Base.Tests.{◌==◌, ltb, if◌then◌else◌, Bytes}

abbrev pub gt : Bytes → Bytes → Bool
gt [] b = false
gt (x ∷ a) [] = true
gt (x ∷ a) (y ∷ b) = let rest = gt a b in if x == y then rest else ltb y x

pub gt_asymm : (a b : Bytes) → gt a b ≡ true → gt b a ≡ false
gt_asymm [] b h = absurd (ground arith)
gt_asymm (x ∷ a) [] h = refl
gt_asymm (x ∷ a) (y ∷ b) h = ground (arith, gt_asymm a b)

pub gt_total : (a b : Bytes) → gt a b ≡ false → gt b a ≡ false → a ≡ b
gt_total [] [] h k = refl
gt_total [] (y ∷ b) h k = absurd (ground arith)
gt_total (x ∷ a) [] h k = absurd (ground arith)
gt_total (x ∷ a) (y ∷ b) h k = ground (arith, gt_total a b)
