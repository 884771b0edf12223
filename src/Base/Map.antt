-- ===== src/Base/Map.antt =====
-- `HashMap` and `HashSet` of the standard library: finite maps with one value for each key. The
-- order of iteration, which the standard library leaves open, is the order of first insertion.
-- Clients reason by the laws; the representation is private to this file.
use mathlib.Core.Option
use qvole_rs.Base.Assoc
use qvole_rs.Base.Assoc.{kept, weight}
use Prim.Native.Nat.{ℕ, ◌+◌, ◌≤◌}
use mathlib.Core.Path.{◌≡◌, refl}
use mathlib.Core.Bool.{Bool, true, false}
use mathlib.Core.Option.{Option, none, some}
use mathlib.Core.List.{List, []}
use mathlib.Core.Logic.{ite}
use native.Mathlib.Omega.{arith}
use qvole_rs.Base.Lists.{All, sum_of}
use qvole_rs.Base.Tests.{Key, if◌then◌else◌}

abbrev pub is_some {ℓ} : {V : Type ℓ} → Option V → Bool
is_some none = false
is_some (some v) = true

module _ {ℓ} (K V : Type ℓ) ⦃key : Key K⦄ where
  pub record Map : Type ℓ where
    entries : List (K × V)
    distinct : Assoc.Distinct entries

module _ {ℓ} {K V : Type ℓ} ⦃key : Key K⦄ where
  unfoldable pub empty : Map K V
  empty = record { entries = []; distinct = tt }

  -- `iter()`
  unfoldable pub to_list : Map K V → List (K × V)
  to_list m = m.entries

  unfoldable pub get : K → Map K V → Option V
  unfolding Assoc.get
  get k m = Assoc.get k m.entries

  unfoldable pub insert : K → V → Map K V → Map K V
  unfolding Assoc.insert
  insert k v m = record {
    entries = Assoc.insert k v m.entries;
    distinct = Assoc.insert-Distinct k v m.entries m.distinct;
  }

  unfoldable pub remove : K → Map K V → Map K V
  unfolding Assoc.remove
  remove k m = record {
    entries = Assoc.remove k m.entries;
    distinct = Assoc.remove-Distinct k m.entries m.distinct;
  }

  unfoldable pub retain : (K → V → Bool) → Map K V → Map K V
  unfolding Assoc.retain
  retain p m = record {
    entries = Assoc.retain p m.entries;
    distinct = Assoc.retain-Distinct p m.entries m.distinct;
  }

  -- A pass over `iter_mut()` that changes each value in place.
  unfoldable pub map_values : (K → V → V) → Map K V → Map K V
  unfolding Assoc.map_values
  map_values g m = record {
    entries = Assoc.map_values g m.entries;
    distinct = Assoc.map_values-Distinct g m.entries m.distinct;
  }

  -- The sum of a measure over the pairs.
  unfoldable pub weigh : (K → V → ℕ) → Map K V → ℕ
  unfolding Assoc.weigh
  weigh f m = Assoc.weigh f m.entries

  abbrev one : K → V → ℕ
  one k v = 1

  abbrev pub indicator : (K → V → Bool) → K → V → ℕ
  indicator p k v = if p k v then 1 else 0

  unfoldable pub len : Map K V → ℕ
  len m = weigh one m

  -- `iter().filter(p).count()`
  unfoldable pub count : (K → V → Bool) → Map K V → ℕ
  count p m = weigh (indicator p) m

  unfoldable pub contains : K → Map K V → Bool
  contains k m = is_some (get k m)

  pub get-empty : (k : K) → get k empty ≡ none
  unfolding get empty
  get-empty k = refl

  pub weigh-empty : (f : K → V → ℕ) → weigh f empty ≡ 0
  unfolding weigh empty
  weigh-empty f = refl

  pub get-insert :
      (k j : K) (v : V) (m : Map K V) → get j (insert k v m) ≡ ite (key.dec k j) (some v) (get j m)
  unfolding get insert
  get-insert k j v m = Assoc.get-insert k j v m.entries

  pub get-remove : (k j : K) (m : Map K V) → get j (remove k m) ≡ ite (key.dec k j) none (get j m)
  unfolding get remove
  get-remove k j m = Assoc.get-remove k j m.entries m.distinct

  pub get-retain :
      (p : K → V → Bool) (k : K) (m : Map K V) → get k (retain p m) ≡ kept p k (get k m)
  unfolding get retain
  get-retain p k m = Assoc.get-retain p k m.entries m.distinct

  pub get-map_values :
      (g : K → V → V) (k : K) (m : Map K V) → get k (map_values g m) ≡ Option.map (g k) (get k m)
  unfolding get map_values
  get-map_values g k m = Assoc.get-map_values g k m.entries

  pub weigh-insert :
      (f : K → V → ℕ) (k : K) (v : V) (m : Map K V)
      → weigh f (insert k v m) + weight f k (get k m) ≡ weigh f m + f k v
  unfolding get insert weigh
  weigh-insert f k v m = Assoc.weigh-insert f k v m.entries

  pub weigh-remove :
      (f : K → V → ℕ) (k : K) (m : Map K V)
      → weigh f (remove k m) + weight f k (get k m) ≡ weigh f m
  unfolding get remove weigh
  weigh-remove f k m = Assoc.weigh-remove f k m.entries

  pub weigh-retain :
      (f : K → V → ℕ) (p : K → V → Bool) (m : Map K V)
      → weigh f (retain p m) + weigh (λ k v. if p k v then 0 else f k v) m ≡ weigh f m
  unfolding retain weigh
  weigh-retain f p m = Assoc.weigh-retain f p m.entries

  pub weigh-map_values :
      (f : K → V → ℕ) (g : K → V → V) (m : Map K V)
      → weigh f (map_values g m) ≡ weigh (λ k v. f k (g k v)) m
  unfolding map_values weigh
  weigh-map_values f g m = Assoc.weigh-map_values f g m.entries

  pub weight-le-weigh : (f : K → V → ℕ) (k : K) (m : Map K V) → weight f k (get k m) ≤ weigh f m
  unfolding get weigh
  weight-le-weigh f k m = Assoc.weight-le-weigh f k m.entries

  pub weigh_mono :
      (f g : K → V → ℕ) (m : Map K V) → ((k : K) (v : V) → f k v ≤ g k v) → weigh f m ≤ weigh g m
  unfolding weigh
  weigh_mono f g m h = Assoc.weigh_mono f g m.entries h

  pub len-insert :
      (k : K) (v : V) (m : Map K V)
      → len (insert k v m) ≡ (if contains k m then len m else len m + 1)
  unfolding len contains
  len-insert k v m = ground (arith, weigh-insert one k v m)

  pub len-insert_new :
      (k : K) (v : V) (m : Map K V) → get k m ≡ none → len (insert k v m) ≡ len m + 1
  unfolding len
  len-insert_new k v m h = ground (arith, weigh-insert one k v m)

  pub len-remove-le : (k : K) (m : Map K V) → len (remove k m) ≤ len m
  unfolding len
  len-remove-le k m = omega (arith, weigh-remove one k m)

  pub len-retain-le : (p : K → V → Bool) (m : Map K V) → len (retain p m) ≤ len m
  unfolding len
  len-retain-le p m = omega (arith, weigh-retain one p m)

  pub len-map_values : (g : K → V → V) (m : Map K V) → len (map_values g m) ≡ len m
  unfolding len
  len-map_values g m = weigh-map_values one g m

  -- Where nothing counts, no entry passes the test.
  pub count_zero :
      (p : K → V → Bool) (k : K) (v : V) (m : Map K V)
      → count p m ≡ 0
      → get k m ≡ some v
      → p k v ≡ false
  unfolding count
  count_zero p k v m z h = ground (arith, weight-le-weigh (indicator p) k m)

  -- `iter().any(p)`
  unfoldable pub any : (K → V → Bool) → Map K V → Bool
  unfolding Assoc.any
  any p m = Assoc.any p m.entries

  -- `iter().filter(p).map(key).collect()`
  unfoldable pub keys_where : (K → V → Bool) → Map K V → List K
  unfolding Assoc.keys_where
  keys_where p m = Assoc.keys_where p m.entries

  pub any-false :
      (p : K → V → Bool) (k : K) (v : V) (m : Map K V)
      → any p m ≡ false
      → get k m ≡ some v
      → p k v ≡ false
  unfolding any get
  any-false p k v m h g = Assoc.any-false p k v m.entries h g

  pub any-true :
      (p : K → V → Bool) (m : Map K V)
      → any p m ≡ true
      → (k : K) × (v : V) × (get k m ≡ some v) × (p k v ≡ true)
  unfolding any get
  any-true p m h = Assoc.any-true p m.entries m.distinct h

  pub keys_where-All :
      (P : K → Type ℓ) (p : K → V → Bool) (m : Map K V)
      → ((k : K) (v : V) → get k m ≡ some v → p k v ≡ true → P k)
      → All P (keys_where p m)
  unfolding keys_where get
  keys_where-All P p m h = Assoc.keys_where-All P p m.entries m.distinct h

  pub count-insert :
      (p : K → V → Bool) (k : K) (v : V) (m : Map K V)
      → count p (insert k v m) + weight (indicator p) k (get k m) ≡ count p m + indicator p k v
  unfolding count
  count-insert p k v m = weigh-insert (indicator p) k v m

  pub count-remove :
      (p : K → V → Bool) (k : K) (m : Map K V)
      → count p (remove k m) + weight (indicator p) k (get k m) ≡ count p m
  unfolding count
  count-remove p k m = weigh-remove (indicator p) k m

  pub count-retain-le : (q p : K → V → Bool) (m : Map K V) → count q (retain p m) ≤ count q m
  unfolding count
  count-retain-le q p m = omega (arith, weigh-retain (indicator q) p m)

  pub count-empty : (p : K → V → Bool) → count p empty ≡ 0
  unfolding count
  count-empty p = weigh-empty (indicator p)

  pub len-insert_old :
      (k : K) (v w : V) (m : Map K V) → get k m ≡ some w → len (insert k v m) ≡ len m
  unfolding len
  len-insert_old k v w m h = ground (arith, weigh-insert one k v m)

  pub weigh-sum_of :
      (f : K → V → ℕ) (m : Map K V) → weigh f m ≡ sum_of (λ (e : K × V). f e.0 e.1) (to_list m)
  unfolding weigh to_list
  weigh-sum_of f m = Assoc.weigh-sum_of f m.entries

  pub sum_of-keys_where :
      (g : K → ℕ) (p : K → V → Bool) (m : Map K V)
      → sum_of g (keys_where p m) ≡ weigh (λ k v. if p k v then g k else 0) m
  unfolding weigh keys_where
  sum_of-keys_where g p m = Assoc.sum_of-keys_where g p m.entries

  pub weigh_add :
      (f g : K → V → ℕ) (m : Map K V) → weigh (λ k v. f k v + g k v) m ≡ weigh f m + weigh g m
  unfolding weigh
  weigh_add f g m = Assoc.weigh_add f g m.entries

  pub weigh_ext :
      (f g : K → V → ℕ) (m : Map K V) → ((k : K) (v : V) → f k v ≡ g k v) → weigh f m ≡ weigh g m
  weigh_ext f g m h = omega (
    arith,
    weigh_mono f g m (λ k v. omega (arith, h k v)),
    weigh_mono g f m (λ k v. omega (arith, h k v)),
  )

  pub weigh_zero : (f : K → V → ℕ) (m : Map K V) → ((k : K) (v : V) → f k v ≡ 0) → weigh f m ≡ 0
  unfolding weigh
  weigh_zero f m h = Assoc.weigh_zero f m.entries h

  -- What holds of each entry holds of the entries listed.
  pub to_list-All :
      (P : K × V → Type ℓ) (m : Map K V)
      → ((k : K) (v : V) → get k m ≡ some v → P (k, v))
      → All P (to_list m)
  unfolding get to_list
  to_list-All P m h = Assoc.pairs-All P m.entries m.distinct h

module _ {ℓ κ} {K V : Type ℓ} ⦃key : Key K⦄ where
  -- What holds of the entries listed holds of what is found.
  pub All-get :
      (P : K × V → Type κ) (k : K) (v : V) (m : Map K V)
      → All P (to_list m)
      → get k m ≡ some v
      → P (k, v)
  unfolding get to_list
  All-get P k v m a h = Assoc.All-get P k v m.entries a h

pub len-empty {ℓ} : (K V : Type ℓ) ⦃key : Key K⦄ → len (empty {K = K} {V = V}) ≡ 0
unfolding len
len-empty K V = weigh-empty one
