-- ===== src/Base/Assoc.antt =====
-- Association lists, the representation of a hash map: at most one pair for each key.
use Prim.Native.Nat.{ℕ, ◌+◌, ◌≤◌}
use mathlib.Core.Path.{◌≡◌, refl, sym, ◌∙◌}
use mathlib.Core.Bool.{Bool, true, false, ◌||◌}
use mathlib.Core.Option
use mathlib.Core.Option.{Option, none, some}
use mathlib.Core.List.{List, [], ◌∷◌}
use mathlib.Core.Logic.{ite, if_pos, if_neg, inl, inr}
use native.Mathlib.Omega.{arith}
use qvole_rs.Base.Tests.{Key, if◌then◌else◌, Bool-cases}
use qvole_rs.Base.Lists.{All, sum_of}

module _ {ℓ} {K V : Type ℓ} ⦃key : Key K⦄ where
  unfoldable pub get : K → List (K × V) → Option V
  get k [] = none
  get k ((j, v) ∷ m) = ite (key.dec j k) (some v) (get k m)

  unfoldable pub insert : K → V → List (K × V) → List (K × V)
  insert k v [] = (k, v) ∷ []
  insert k v ((j, w) ∷ m) = ite (key.dec j k) ((j, v) ∷ m) ((j, w) ∷ insert k v m)

  unfoldable pub remove : K → List (K × V) → List (K × V)
  remove k [] = []
  remove k ((j, w) ∷ m) = ite (key.dec j k) m ((j, w) ∷ remove k m)

  abbrev pub Distinct : List (K × V) → Type ℓ
  Distinct [] = Unit
  Distinct ((k, v) ∷ m) = (get k m ≡ none) × Distinct m

  pub get-insert :
      (k j : K) (v : V) (m : List (K × V))
      → get j (insert k v m) ≡ ite (key.dec k j) (some v) (get j m)
  unfolding get insert
  get-insert k j v [] = refl
  get-insert k j v ((i, w) ∷ m) = ground (arith, get-insert k j v m)

  pub insert-Distinct : (k : K) (v : V) (m : List (K × V)) → Distinct m → Distinct (insert k v m)
  unfolding get insert
  insert-Distinct k v [] d = (refl, tt)
  insert-Distinct k v ((i, w) ∷ m) d = ground (arith, insert-Distinct k v m d.1, get-insert k i v m)

  pub get-remove_ne : (k j : K) (m : List (K × V)) → ¬ (k ≡ j) → get j (remove k m) ≡ get j m
  unfolding get remove
  get-remove_ne k j [] h = refl
  get-remove_ne k j ((i, w) ∷ m) h = ground (arith, get-remove_ne k j m h)

  pub get-remove :
      (k j : K) (m : List (K × V))
      → Distinct m
      → get j (remove k m) ≡ ite (key.dec k j) none (get j m)
  unfolding get remove
  get-remove k j [] d = ground arith
  get-remove k j ((i, w) ∷ m) d = ground (arith, get-remove k j m d.1)

  -- `(k, v)` kept where the test holds.
  unfoldable pub retain : (K → V → Bool) → List (K × V) → List (K × V)
  retain p [] = []
  retain p ((k, v) ∷ m) = let rest = retain p m in if p k v then (k, v) ∷ rest else rest

  unfoldable pub map_values : (K → V → V) → List (K × V) → List (K × V)
  map_values g [] = []
  map_values g ((k, v) ∷ m) = (k, g k v) ∷ map_values g m

  -- The sum of a measure over the pairs.
  unfoldable pub weigh : (K → V → ℕ) → List (K × V) → ℕ
  weigh f [] = 0
  weigh f ((k, v) ∷ m) = f k v + weigh f m

  abbrev pub kept : (K → V → Bool) → K → Option V → Option V
  kept p k none = none
  kept p k (some v) = if p k v then some v else none

  abbrev pub weight : (K → V → ℕ) → K → Option V → ℕ
  weight f k none = 0
  weight f k (some v) = f k v

  pub get-retain :
      (p : K → V → Bool) (k : K) (m : List (K × V))
      → Distinct m
      → get k (retain p m) ≡ kept p k (get k m)
  unfolding get retain
  get-retain p k [] d = refl
  get-retain p k ((i, w) ∷ m) d = ground (arith, get-retain p k m d.1)

  pub retain-Distinct : (p : K → V → Bool) (m : List (K × V)) → Distinct m → Distinct (retain p m)
  unfolding get retain
  retain-Distinct p [] d = tt
  retain-Distinct p ((i, w) ∷ m) d = ground (arith, retain-Distinct p m d.1, get-retain p i m d.1)

  pub remove-Distinct : (k : K) (m : List (K × V)) → Distinct m → Distinct (remove k m)
  unfolding get remove
  remove-Distinct k [] d = tt
  remove-Distinct k ((i, w) ∷ m) d = ground (arith, remove-Distinct k m d.1, get-remove k i m d.1)

  pub get-map_values :
      (g : K → V → V) (k : K) (m : List (K × V))
      → get k (map_values g m) ≡ Option.map (g k) (get k m)
  unfolding get map_values
  get-map_values g k [] = refl
  get-map_values g k ((i, w) ∷ m) = ground (arith, get-map_values g k m)

  pub map_values-Distinct :
      (g : K → V → V) (m : List (K × V)) → Distinct m → Distinct (map_values g m)
  unfolding get map_values
  map_values-Distinct g [] d = tt
  map_values-Distinct g ((i, w) ∷ m) d =
      ground (arith, map_values-Distinct g m d.1, get-map_values g i m)

  pub weigh-insert :
      (f : K → V → ℕ) (k : K) (v : V) (m : List (K × V))
      → weigh f (insert k v m) + weight f k (get k m) ≡ weigh f m + f k v
  unfolding get insert weigh
  weigh-insert f k v [] = omega arith
  weigh-insert f k v ((i, w) ∷ m) = ground (arith, weigh-insert f k v m)

  pub weigh-remove :
      (f : K → V → ℕ) (k : K) (m : List (K × V))
      → weigh f (remove k m) + weight f k (get k m) ≡ weigh f m
  unfolding get remove weigh
  weigh-remove f k [] = omega arith
  weigh-remove f k ((i, w) ∷ m) = ground (arith, weigh-remove f k m)

  pub weigh-retain :
      (f : K → V → ℕ) (p : K → V → Bool) (m : List (K × V))
      → weigh f (retain p m) + weigh (λ k v. if p k v then 0 else f k v) m ≡ weigh f m
  unfolding retain weigh
  weigh-retain f p [] = omega arith
  weigh-retain f p ((i, w) ∷ m) = ground (arith, weigh-retain f p m)

  pub weigh-map_values :
      (f : K → V → ℕ) (g : K → V → V) (m : List (K × V))
      → weigh f (map_values g m) ≡ weigh (λ k v. f k (g k v)) m
  unfolding map_values weigh
  weigh-map_values f g [] = refl
  weigh-map_values f g ((i, w) ∷ m) = omega (arith, weigh-map_values f g m)

  pub weight-le-weigh :
      (f : K → V → ℕ) (k : K) (m : List (K × V)) → weight f k (get k m) ≤ weigh f m
  unfolding get weigh
  weight-le-weigh f k [] = omega arith
  weight-le-weigh f k ((i, w) ∷ m) = ground (arith, weight-le-weigh f k m)

  pub weigh_mono :
      (f g : K → V → ℕ) (m : List (K × V))
      → ((k : K) (v : V) → f k v ≤ g k v)
      → weigh f m ≤ weigh g m
  unfolding weigh
  weigh_mono f g [] h = omega arith
  weigh_mono f g ((i, w) ∷ m) h = omega (arith, h i w, weigh_mono f g m h)

  pub weigh_add :
      (f g : K → V → ℕ) (m : List (K × V)) → weigh (λ k v. f k v + g k v) m ≡ weigh f m + weigh g m
  unfolding weigh
  weigh_add f g [] = omega arith
  weigh_add f g ((i, w) ∷ m) = omega (arith, weigh_add f g m)

  -- `keys().any(…)`, and the keys that `filter` and `collect` leave.
  unfoldable pub any : (K → V → Bool) → List (K × V) → Bool
  any p [] = false
  any p ((k, v) ∷ m) = p k v || any p m

  unfoldable pub keys_where : (K → V → Bool) → List (K × V) → List K
  keys_where p [] = []
  keys_where p ((k, v) ∷ m) = let rest = keys_where p m in if p k v then k ∷ rest else rest

  pub any-false :
      (p : K → V → Bool) (k : K) (v : V) (m : List (K × V))
      → any p m ≡ false
      → get k m ≡ some v
      → p k v ≡ false
  unfolding any get
  any-false p k v [] h g = cc
  any-false p k v ((i, w) ∷ m) h g = ground (arith, any-false p k v m)

  pub any-true :
      (p : K → V → Bool) (m : List (K × V))
      → Distinct m
      → any p m ≡ true
      → (k : K) × (v : V) × (get k m ≡ some v) × (p k v ≡ true)
  unfolding any get
  any-true p [] d h = absurd (cc h)
  any-true p ((i, w) ∷ m) d h = elim (Bool-cases (p i w)) [
    | inl y ↦ (i, w, ground arith, y)
    | inr n ↦ (
      (any-true p m d.1 (ground arith)).0,
      (any-true p m d.1 (ground arith)).1,
      ground (arith, any-true p m d.1),
      (any-true p m d.1 (ground arith)).3,
    )
  ]

  -- What holds of every passing pair holds of the collected keys.
  pub keys_where-All :
      (P : K → Type ℓ) (p : K → V → Bool) (m : List (K × V))
      → Distinct m
      → ((k : K) (v : V) → get k m ≡ some v → p k v ≡ true → P k)
      → All P (keys_where p m)
  unfolding keys_where get
  keys_where-All P p [] d h = tt
  keys_where-All P p ((i, w) ∷ m) d h = elim (Bool-cases (p i w)) [
    | inl y ↦ rw y (
      h i w (ground arith) y,
      keys_where-All P p m d.1 (λ k v g t. h k v (ground (arith, d.0)) t),
    )
    | inr n ↦ rw n (keys_where-All P p m d.1 (λ k v g t. h k v (ground (arith, d.0)) t))
  ]

  pub weigh-sum_of :
      (f : K → V → ℕ) (m : List (K × V)) → weigh f m ≡ sum_of (λ (e : K × V). f e.0 e.1) m
  unfolding weigh
  weigh-sum_of f [] = refl
  weigh-sum_of f ((k, v) ∷ m) = omega (arith, weigh-sum_of f m)

  -- A measure of the collected keys is the measure of the passing pairs.
  pub sum_of-keys_where :
      (g : K → ℕ) (p : K → V → Bool) (m : List (K × V))
      → sum_of g (keys_where p m) ≡ weigh (λ k v. if p k v then g k else 0) m
  unfolding weigh keys_where
  sum_of-keys_where g p [] = refl
  sum_of-keys_where g p ((k, v) ∷ m) = ground (arith, sum_of-keys_where g p m)

  pub weigh_zero :
      (f : K → V → ℕ) (m : List (K × V)) → ((k : K) (v : V) → f k v ≡ 0) → weigh f m ≡ 0
  unfolding weigh
  weigh_zero f [] h = refl
  weigh_zero f ((k, v) ∷ m) h = omega (arith, h k v, weigh_zero f m h)

  pub All-get {κ} :
      (P : K × V → Type κ) (k : K) (v : V) (m : List (K × V))
      → All P m
      → get k m ≡ some v
      → P (k, v)
  unfolding get
  All-get P k v [] a h = absurd (ground (arith, h))
  All-get P k v ((j, w) ∷ m) a h = elim (key.dec j k) [
    | yes e ↦
        let q : some w ≡ some v = sym (if_pos (key.dec j k) e (some w) (get k m)) ∙ h in
        let r : v ≡ w = ground (arith, q) in rw (sym e, r) a.0
    | no n ↦ All-get P k v m a.1 (sym (if_neg (key.dec j k) n (some w) (get k m)) ∙ h)
  ]

  pub pairs-All :
      (P : K × V → Type ℓ) (m : List (K × V))
      → Distinct m
      → ((k : K) (v : V) → get k m ≡ some v → P (k, v))
      → All P m
  unfolding get
  pairs-All P [] d h = tt
  pairs-All P ((k, v) ∷ m) d h =
      (h k v (ground arith), pairs-All P m d.1 (λ j w g. h j w (ground (arith, d.0))))
