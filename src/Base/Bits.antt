-- ===== src/Base/Bits.antt =====
-- Bytes folded bit by bit, as a comparison in constant time folds them.
use Prim.Native.Nat.{ℕ, zero, suc, ◌<◌, bit_or, bit_xor}
use mathlib.Core.Path.{◌≡◌, refl}
use mathlib.Core.Bool.{Bool, true, ◌&&◌, ◌||◌, not}
use native.Mathlib.Omega.{arith}
use qvole_rs.Base.Tests.{◌==◌, ltb, ==_iff}

abbrev all_below : ℕ → (ℕ → Bool) → Bool
all_below zero p = true
all_below (suc n) p = p n && all_below n p

all_below-at : (n : ℕ) (p : ℕ → Bool) (x : ℕ) → all_below n p ≡ true → x < n → p x ≡ true
all_below-at zero p x h lt = absurd (omega arith)
all_below-at (suc n) p x h lt = ground (arith, all_below-at n p x)

abbrev xor_fits : ℕ → ℕ → Bool
xor_fits x y = ltb (bit_xor x y) 256 && (not (bit_xor x y == 0) || x == y)

abbrev or_fits : ℕ → ℕ → Bool
or_fits x y = ltb (bit_or x y) 256 && (not (bit_or x y == 0) || (x == 0 && y == 0))

xor_table : all_below 256 (λ x. all_below 256 (xor_fits x)) ≡ true
xor_table = refl

or_table : all_below 256 (λ x. all_below 256 (or_fits x)) ≡ true
or_table = refl

xor_fits-at : (x y : ℕ) → x < 256 → y < 256 → xor_fits x y ≡ true
xor_fits-at x y h k =
    all_below-at 256 (xor_fits x) y
      (all_below-at 256 (λ x. all_below 256 (xor_fits x)) x xor_table h) k

or_fits-at : (x y : ℕ) → x < 256 → y < 256 → or_fits x y ≡ true
or_fits-at x y h k =
    all_below-at 256 (or_fits x) y (all_below-at 256 (λ x. all_below 256 (or_fits x)) x or_table h)
      k

fits_or :
    (v : ℕ) (b : Bool) → (ltb v 256 && (not (v == 0) || b)) ≡ true → (v < 256) × (v ≡ 0 → b ≡ true)
fits_or v b e = (ground arith, ground arith)

both_zero : (x y : ℕ) → (x == 0 && y == 0) ≡ true → (x ≡ 0) × (y ≡ 0)
both_zero x y e = (ground arith, ground arith)

pub bit_xor-byte : (x y : ℕ) → x < 256 → y < 256 → (bit_xor x y < 256) × (bit_xor x y ≡ 0 → x ≡ y)
bit_xor-byte x y h k =
    let f = fits_or (bit_xor x y) (x == y) (xor_fits-at x y h k) in
    (f.0, λ z. (==_iff x y).0 (f.1 z))

pub bit_or-byte :
    (x y : ℕ) → x < 256 → y < 256 → (bit_or x y < 256) × (bit_or x y ≡ 0 → (x ≡ 0) × (y ≡ 0))
bit_or-byte x y h k =
    let f = fits_or (bit_or x y) (x == 0 && y == 0) (or_fits-at x y h k) in
    (f.0, λ z. both_zero x y (f.1 z))

same_table : all_below 256 (λ x. bit_xor x x == 0) ≡ true
same_table = refl

pub zero_table : bit_or 0 0 ≡ 0
zero_table = refl

pub bit_xor-same : (x : ℕ) → x < 256 → bit_xor x x ≡ 0
bit_xor-same x h =
    (==_iff (bit_xor x x) 0).0 (all_below-at 256 (λ x. bit_xor x x == 0) x same_table h)
