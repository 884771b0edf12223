-- ===== src/Base/Tests.antt =====
-- Boolean tests on numbers, the conditional, decidable keys, and the bytes of a literal.
use Prim.Native.Nat.{ℕ, ◌≤◌, ◌<◌, compare, Ordering}
use Prim.Native.Char.{code}
use Prim.Native.String.{String}
use mathlib.Core.Path.{◌≡◌, refl, sym}
use mathlib.Core.Logic.{◌⊎◌, inl, inr, ◌↔◌}
use mathlib.Core.Bool.{Bool, true, false}
use mathlib.Core.Option.{Option, none, some}
use mathlib.Core.List.{List, [], ◌∷◌}
use native.Mathlib.Omega.{arith}
use native.Mathlib.Decide.{ℕ_discrete}

abbrev pub ltb : ℕ → ℕ → Bool
ltb a b = elim (compare a b) [ Ordering.lt ↦ true | _ ↦ false ]

abbrev pub leb : ℕ → ℕ → Bool
leb a b = elim (compare a b) [ Ordering.gt ↦ false | _ ↦ true ]

infix 50 ◌==◌
abbrev pub ◌==◌ : ℕ → ℕ → Bool
a == b = elim (compare a b) [ Ordering.eq ↦ true | _ ↦ false ]

infix 1 if◌then◌else◌
abbrev pub if◌then◌else◌ {ℓ} : {A : Type ℓ} → Bool → A → A → A
if true then x else y = x
if false then x else y = y

pub leb→le : (a b : ℕ) → leb a b ≡ true → a ≤ b
leb→le a b h = ground arith

pub ltb→lt : (a b : ℕ) → ltb a b ≡ true → a < b
ltb→lt a b h = ground arith

pub ==_iff : (a b : ℕ) → ((a == b) ≡ true) ↔ (a ≡ b)
==_iff a b = ground arith

-- To split on a computed value and keep the equation.
pub Bool-cases : (b : Bool) → (b ≡ true) ⊎ (b ≡ false)
Bool-cases true = inl refl
Bool-cases false = inr refl

pub Option-cases {ℓ} : {A : Type ℓ} (o : Option A) → (o ≡ none) ⊎ ((a : A) × (o ≡ some a))
Option-cases none = inl refl
Option-cases (some a) = inr (a, refl)

-- A type whose values can be the keys of a map.
pub record Key {ℓ} (K : Type ℓ) : Type ℓ where
  pub dec : Discrete K

abbrev pub eqb {ℓ} : {K : Type ℓ} ⦃key : Key K⦄ → K → K → Bool
eqb ⦃key⦄ a b = elim (key.dec a b) [ yes _ ↦ true | no _ ↦ false ]

true_of {ℓ} : {A : Type ℓ} (d : Dec A) → elim d [ yes _ ↦ true | no _ ↦ false ] ≡ true → A
true_of (yes a) h = a
true_of (no n) h = absurd (ground arith)

false_of {ℓ} : {A : Type ℓ} (d : Dec A) → elim d [ yes _ ↦ true | no _ ↦ false ] ≡ false → ¬ A
false_of (yes a) h = absurd (ground arith)
false_of (no n) h = n

pub eqb-true {ℓ} : {K : Type ℓ} ⦃key : Key K⦄ (a b : K) → eqb a b ≡ true → a ≡ b
eqb-true ⦃key⦄ a b h = true_of (key.dec a b) h

pub eqb-false_ne {ℓ} : {K : Type ℓ} ⦃key : Key K⦄ (a b : K) → eqb a b ≡ false → ¬ (a ≡ b)
eqb-false_ne ⦃key⦄ a b h = false_of (key.dec a b) h

pub eqb-false_sym {ℓ} : {K : Type ℓ} ⦃key : Key K⦄ (a b : K) → eqb a b ≡ false → eqb b a ≡ false
eqb-false_sym ⦃key⦄ a b h = elim (Bool-cases (eqb b a)) [
  | inl t ↦ absurd (eqb-false_ne a b h (sym (eqb-true b a t)))
  | inr f ↦ f
]

-- Text and datagrams are lists of bytes.
abbrev pub Bytes : Type 0
Bytes = List ℕ

unfoldable pub Bytes-discrete : Discrete Bytes
Bytes-discrete = hlevel ℕ_discrete

instance abbrev pub bytes_key : Key Bytes
bytes_key = record { dec = Bytes-discrete }

-- The bytes of an ASCII literal.
abbrev pub bytes : String → Bytes
bytes String.[] = []
bytes (String.◌∷◌ c s) = code c ∷ bytes s

-- A property of both branches of a test.
pub if_elim {ℓ κ} :
    {A : Type ℓ} (P : A → Type κ) (b : Bool) (x y : A)
    → (b ≡ true → P x)
    → (b ≡ false → P y)
    → P (if b then x else y)
if_elim P true x y t f = t refl
if_elim P false x y t f = f refl

pub option_elim {ℓ κ μ} :
    {B : Type μ} {A : Type ℓ} (P : A → Type κ) (o : Option B) (x : A) (f : B → A)
    → (o ≡ none → P x)
    → ((b : B) → o ≡ some b → P (f b))
    → P (elim o [ none ↦ x | some b ↦ f b ])
option_elim P none x f n s = n refl
option_elim P (some b) x f n s = s b refl
