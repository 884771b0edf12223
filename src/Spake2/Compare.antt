-- ===== src/Spake2/Compare.antt =====
-- crates/qvole-spake2/src/spake2.rs: `constant_time_eq`.
use Prim.Native.Nat.{bit_or, bit_xor}
use qvole_rs.Base.{
  ℕ, ◌<◌, ◌≡◌, ◌↔◌, refl, Bool, true, false, not, [], ◌∷◌, arith, ◌==◌, ==_iff, if◌then◌else◌,
  Bytes, length, All, Bool-cases, inl, inr,
}
use qvole_rs.Base.Bits.{bit_xor-byte, bit_or-byte, bit_xor-same, zero_table}

-- The loop over the zipped slices, from a mask on.
unfoldable pub fold_diff : ℕ → Bytes → Bytes → ℕ
fold_diff diff [] b = diff
fold_diff diff (x ∷ a) [] = diff
fold_diff diff (x ∷ a) (y ∷ b) = fold_diff (bit_or diff (bit_xor x y)) a b

unfoldable pub constant_time_eq : Bytes → Bytes → Bool
unfolding fold_diff
constant_time_eq a b = if not (length a == length b) then false else fold_diff 0 a b == 0

abbrev pub AreBytes : Bytes → Type 0
AreBytes b = All (λ c. c < 256) b

fold_diff-zero :
    (diff : ℕ) (a b : Bytes)
    → diff < 256
    → AreBytes a
    → AreBytes b
    → length a ≡ length b
    → fold_diff diff a b ≡ 0
    → (diff ≡ 0) × (a ≡ b)
unfolding fold_diff
fold_diff-zero diff [] [] d ha hb l z = (z, refl)
fold_diff-zero diff [] (y ∷ b) d ha hb l z = absurd (omega arith)
fold_diff-zero diff (x ∷ a) [] d ha hb l z = absurd (omega arith)
fold_diff-zero diff (x ∷ a) (y ∷ b) d ha hb l z =
    let xor = bit_xor-byte x y ha.0 hb.0 in
    let or = bit_or-byte diff (bit_xor x y) d xor.0 in
    let (m, e) =
      fold_diff-zero (bit_or diff (bit_xor x y)) a b or.0 ha.1 hb.1 (omega (arith, l)) z in
    let (p, q) = or.1 m in let same : x ≡ y = xor.1 q in (p, rw (same, e))

fold_diff-same : (a : Bytes) → AreBytes a → fold_diff 0 a a ≡ 0
unfolding fold_diff
fold_diff-same [] h = refl
fold_diff-same (x ∷ a) h = rw (bit_xor-same x h.0, zero_table) (fold_diff-same a h.1)

-- On byte strings, constant_time_eq, which folds the differences into a mask, is true exactly when
-- the two are equal.
pub constant_time_eq_iff :
    (a b : Bytes) → AreBytes a → AreBytes b → (constant_time_eq a b ≡ true) ↔ (a ≡ b)
unfolding constant_time_eq
constant_time_eq_iff a b ha hb = (
  λ h. elim (Bool-cases (length a == length b)) [
    | inl y ↦
        let l : length a ≡ length b = (==_iff (length a) (length b)).0 y in
        let z : fold_diff 0 a b ≡ 0 = ground (arith, h, y) in
        (fold_diff-zero 0 a b (omega arith) ha hb l z).1
    | inr n ↦ absurd (ground (arith, h, n))
  ],
  λ e. rw⁻¹ e (ground (arith, fold_diff-same a ha)),
)
