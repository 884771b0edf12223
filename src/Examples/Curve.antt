-- ===== src/Examples/Curve.antt =====
-- A group of five points for a curve, and operations in place of those of the cryptographic crates.
use native.Mathlib.Nat.{add-mul-mod_self_left, mul-add, mul_assoc, mul_comm}
use qvole_rs.Base.{
  ℕ, zero, suc, ◌+◌, ◌-◌, ◌*◌, ◌/◌, ◌%◌, ◌<◌, ◌≡◌, refl, sym, subst, ap, ◌∙◌, true, Option, none,
  some, [], ◌∷◌, ◌++◌, get_or, arith, ltb, ◌==◌, if◌then◌else◌, Bytes, length, length-append,
  length-replicate, take, replicate, all, All, All-append, Bool-cases, inl, inr,
}
use qvole_rs.Base.Slices.{take-append}
use qvole_rs.Spake2.Curve.{Curve, IsCurve, Crypto, IsCrypto, marshal_point}

pub data Point : Type 0 where
  p0 p1 p2 p3 p4 : Point

abbrev num : Point → ℕ
num Point.p0 = 0
num Point.p1 = 1
num Point.p2 = 2
num Point.p3 = 3
num Point.p4 = 4

abbrev small : ℕ → Point
small zero = Point.p0
small (suc zero) = Point.p1
small (suc (suc zero)) = Point.p2
small (suc (suc (suc zero))) = Point.p3
small (suc (suc (suc (suc n)))) = Point.p4

abbrev of : ℕ → Point
of n = small (n % 5)

num-small : (n : ℕ) → n < 5 → num (small n) ≡ n
num-small zero h = refl
num-small (suc zero) h = refl
num-small (suc (suc zero)) h = refl
num-small (suc (suc (suc zero))) h = refl
num-small (suc (suc (suc (suc n)))) h = omega arith

num-of : (n : ℕ) → num (of n) ≡ n % 5
num-of n = num-small (n % 5) (omega arith)

of-num : (p : Point) → of (num p) ≡ p
of-num Point.p0 = refl
of-num Point.p1 = refl
of-num Point.p2 = refl
of-num Point.p3 = refl
of-num Point.p4 = refl

mul_mod : (j x : ℕ) → j * (x % 5) % 5 ≡ j * x % 5
mul_mod j x =
    let q = x / 5 in
    let e : x ≡ x % 5 + 5 * q = omega arith in
    let d : j * x ≡ j * (x % 5) + 5 * (j * q) =
      ap (λ n. j * n) e
      ∙ (mul-add j (x % 5) (5 * q)
          ∙ ap (λ n. j * (x % 5) + n)
              (sym (mul_assoc j 5 q) ∙ (ap (λ n. n * q) (mul_comm j 5) ∙ mul_assoc 5 j q))) in
    sym (ap (λ n. n % 5) d ∙ add-mul-mod_self_left (j * (x % 5)) 5 (j * q))

mul_left : (j k a : ℕ) → j * (k * a) ≡ k * (j * a)
mul_left j k a = sym (mul_assoc j k a) ∙ (ap (λ n. n * a) (mul_comm j k) ∙ mul_assoc k j a)

abbrev last_byte : Point → Bytes
last_byte p = replicate 31 0 ++ num p ∷ []

abbrev coordinates : Point → Option (Bytes × Bytes)
coordinates Point.p0 = none
coordinates p = some (last_byte p, last_byte p)

abbrev at_31 : Bytes → ℕ
at_31 b = get_or b 31 0

abbrev known : ℕ → Option Point
known n = if n == 0 then none else some (of n)

unfoldable pub curve : Curve Point
curve = record {
  zero = Point.p0;
  add = λ p q. of (num p + num q);
  neg = λ p. of (5 - num p);
  mul = λ k p. of (k * num p);
  base = Point.p1;
  affine = coordinates;
  from_xy = λ x y. some (of (at_31 y));
  negate = λ y. replicate 31 0 ++ (5 - at_31 y) ∷ [];
  parse = λ b. if length b == 65 then some (some (of (get_or b 64 0))) else none;
}

add_mod : (x a : ℕ) → of (x % 5 + a) ≡ of (x + a)
add_mod x a = let e : (x % 5 + a) % 5 ≡ (x + a) % 5 = omega arith in ap small e

abbrev value : Bytes × Bytes → Option (Bytes × Bytes) → Bytes × Bytes
value d none = d
value d (some xy) = xy

-- What holds of the coordinates of each point other than the identity.
on_points :
    (Q : Point → Bytes × Bytes → Type 0) (p : Point) (xy : Bytes × Bytes)
    → coordinates p ≡ some xy
    → Q Point.p1 (last_byte Point.p1, last_byte Point.p1)
    → Q Point.p2 (last_byte Point.p2, last_byte Point.p2)
    → Q Point.p3 (last_byte Point.p3, last_byte Point.p3)
    → Q Point.p4 (last_byte Point.p4, last_byte Point.p4)
    → Q p xy
on_points Q Point.p0 xy h a b c d = absurd (ground (arith, h))
on_points Q Point.p1 xy h a b c d = subst (Q Point.p1) (ap (value xy) h) a
on_points Q Point.p2 xy h a b c d = subst (Q Point.p2) (ap (value xy) h) b
on_points Q Point.p3 xy h a b c d = subst (Q Point.p3) (ap (value xy) h) c
on_points Q Point.p4 xy h a b c d = subst (Q Point.p4) (ap (value xy) h) d

pub all-All : (b : Bytes) → all (λ c. ltb c 256) b ≡ true → All (λ c. c < 256) b
all-All [] h = tt
all-All (c ∷ b) h = (ground arith, all-All b (ground arith))

abbrev AreCoordinates : Point → Bytes × Bytes → Type 0
AreCoordinates p xy =
    (length xy.0 ≡ 32)
    × (length xy.1 ≡ 32)
    × (all (λ c. ltb c 256) xy.0 ≡ true)
    × (all (λ c. ltb c 256) xy.1 ≡ true)

add_left : (a x : ℕ) → of (a + x % 5) ≡ of (a + x)
add_left a x = let e : (a + x % 5) % 5 ≡ (a + x) % 5 = omega arith in ap small e

assoc : (a b c : ℕ) → of (num (of (a + b)) + c) ≡ of (a + num (of (b + c)))
assoc a b c =
    ap (λ n. of (n + c)) (num-of (a + b))
    ∙ (add_mod (a + b) c
        ∙ (ap of (omega arith)
            ∙ (sym (add_left a (b + c)) ∙ ap (λ n. of (a + n)) (sym (num-of (b + c))))))

mul_of : (j k a : ℕ) → of (j * num (of (k * a))) ≡ of (j * (k * a))
mul_of j k a = ap (λ n. of (j * n)) (num-of (k * a)) ∙ ap small (mul_mod j (k * a))

add-neg_lem : (p : Point) → of (num p + num (of (5 - num p))) ≡ Point.p0
add-neg_lem Point.p0 = refl
add-neg_lem Point.p1 = refl
add-neg_lem Point.p2 = refl
add-neg_lem Point.p3 = refl
add-neg_lem Point.p4 = refl

add-zero_lem : (p : Point) → of (num p + 0) ≡ p
add-zero_lem Point.p0 = refl
add-zero_lem Point.p1 = refl
add-zero_lem Point.p2 = refl
add-zero_lem Point.p3 = refl
add-zero_lem Point.p4 = refl

pub curve-IsCurve : IsCurve curve
unfolding curve marshal_point
curve-IsCurve = record {
  add_assoc = λ p q r. assoc (num p) (num q) (num r);
  add-zero = add-zero_lem;
  add-neg = add-neg_lem;
  affine-bytes = λ p xy h.
      let (a, b, c, d) =
        on_points AreCoordinates p xy h (refl, refl, refl, refl) (refl, refl, refl, refl)
          (refl, refl, refl, refl) (refl, refl, refl, refl) in
      (a, b, all-All xy.0 c, all-All xy.1 d);
  mul_comm =
      λ j k p. mul_of j k (num p) ∙ (ap of (mul_left j k (num p)) ∙ sym (mul_of k j (num p)));
  from_xy-negate = λ p xy h.
      on_points (λ q uv. curve.from_xy uv.0 (curve.negate uv.1) ≡ some (curve.neg q)) p xy h refl
        refl refl refl;
  parse-marshal = λ p xy h.
      on_points (λ q uv. curve.parse (marshal_point uv) ≡ some (some q)) p xy h refl refl refl refl;
}

unfoldable pub crypto : Crypto
crypto = record {
  sha256 = λ b. replicate 32 9;
  expand = λ salt secret info n. some (replicate n 7);
  hmac = λ key msg. some (replicate 32 (length msg % 256));
  encrypt =
      λ key nonce msg aad. if all (λ c. ltb c 256) msg then some (msg ++ replicate 16 0) else none;
  decrypt = λ key nonce ct aad. some (take (length ct - 16) ct);
}

zeros-bytes : (n c : ℕ) → c < 256 → All (λ c. c < 256) (replicate n c)
zeros-bytes zero c h = tt
zeros-bytes (suc n) c h = (h, zeros-bytes n c h)

encrypted :
    (msg ct : Bytes)
    → (if all (λ c. ltb c 256) msg then some (msg ++ replicate 16 0) else none) ≡ some ct
    → (ct ≡ msg ++ replicate 16 0) × All (λ c. c < 256) msg
encrypted msg ct h = elim (Bool-cases (all (λ c. ltb c 256) msg)) [
  | inl t ↦ (ground (arith, rw t at h), all-All msg t)
  | inr f ↦ absurd (ground (arith, rw f at h))
]

abbrev value_of : Option Bytes → Bytes
value_of none = []
value_of (some b) = b

pub crypto-IsCrypto : IsCrypto crypto
unfolding crypto
crypto-IsCrypto = record {
  decrypt-encrypt = λ key nonce msg aad ct h.
      let (e, _) = encrypted msg ct h in
      let l : length msg ≡ length (msg ++ replicate 16 0) - 16 =
        omega (arith, length-append msg (replicate 16 0), length-replicate {A = ℕ} 16 0) in
      rw e (ap some (take-append _ msg (replicate 16 0) l));
  length-encrypt =
      λ key nonce msg aad ct h. rw (encrypted msg ct h).0 (length-append msg (replicate 16 0));
  encrypt-bytes = λ key nonce msg aad ct h.
      let (e, b) = encrypted msg ct h in
      subst (All (λ c. c < 256)) (sym e)
        (All-append (λ c. c < 256) msg (replicate 16 0) b (zeros-bytes 16 0 (omega arith)));
  length-hmac = λ key msg mac h.
      subst (λ m. length m ≡ 32) (ap (λ o. value_of o) h) (length-replicate 32 (length msg % 256));
  hmac-bytes = λ key msg mac h.
      subst (All (λ c. c < 256)) (ap (λ o. value_of o) h)
        (zeros-bytes 32 (length msg % 256) (omega arith));
}
