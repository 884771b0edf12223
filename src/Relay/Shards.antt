-- ===== src/Relay/Shards.antt =====
-- The sharded tables of crates/qvole-relay/src/relay.rs: `NUM_SHARDS` hash maps, and a key's entry
-- in the one that `shard_idx` of the key's text names. A relay locks one shard at a time, and a
-- table is what all of them hold.
pub mod Placed
pub mod New
use qvole_rs.Base.Map
use qvole_rs.Base.Assoc.{weight, kept}
use qvole_rs.Base.Map.{Map}
use mathlib.Core.Option
use qvole_rs.Base.{
  ℕ, zero, suc, ◌+◌, ◌≤◌, ◌<◌, ◌≡◌, refl, Bool, Option, none, some, List, [], ◌∷◌, ◌++◌, ite, arith,
  Key, Bytes, ℕ_discrete, length, get_or, set, replicate, map, length-set, length-map,
  get_or-set_self, get_or-set_ne, get_or-map, sum_of, sum_of-set, sum_of-map, sum_of-append,
  sum_of_add,
}
use qvole_rs.Relay.Text.{shard_idx, shard_idx-lt}

abbrev pub num_shards : ℕ
num_shards = 16

module _ (K V : Type 0) ⦃key : Key K⦄ where
  pub record Shards : Type 0 where
    shards : List (Map K V)
    sized : length shards ≡ num_shards

module _ {K V : Type 0} ⦃key : Key K⦄ where
  unfoldable pub new : Shards K V
  new = record { shards = replicate num_shards Map.empty; sized = refl }

  -- The hash map at an index.
  unfoldable pub at : ℕ → Shards K V → Map K V
  at i s = get_or s.shards i Map.empty

  unfoldable pub set_at : ℕ → Map K V → Shards K V → Shards K V
  set_at i m s = record { shards = set s.shards i m; sized = rw (length-set s.shards i m) s.sized }

  -- A pass over all shards, one at a time.
  unfoldable pub map_shards : (Map K V → Map K V) → Shards K V → Shards K V
  map_shards f s = record { shards = map f s.shards; sized = rw (length-map f s.shards) s.sized }

  unfoldable pub sum_shards : (Map K V → ℕ) → Shards K V → ℕ
  sum_shards f s = sum_of f s.shards

  -- The sum of a measure over all entries.
  unfoldable pub total : (K → V → ℕ) → Shards K V → ℕ
  total f s = sum_shards (Map.weigh f) s

  abbrev pub concat_map : {X : Type 0} → (Map K V → List X) → List (Map K V) → List X
  concat_map f [] = []
  concat_map f (m ∷ ms) = f m ++ concat_map f ms

  unfoldable pub concat_shards : {X : Type 0} → (Map K V → List X) → Shards K V → List X
  concat_shards f s = concat_map f s.shards

  pub at-set_at_self :
      (i : ℕ) (m : Map K V) (s : Shards K V) → i < num_shards → at i (set_at i m s) ≡ m
  unfolding at set_at
  at-set_at_self i m s h = get_or-set_self Map.empty s.shards i m (rw s.sized h)

  pub at-set_at_ne :
      (i j : ℕ) (m : Map K V) (s : Shards K V) → ¬ (i ≡ j) → at j (set_at i m s) ≡ at j s
  unfolding at set_at
  at-set_at_ne i j m s h = get_or-set_ne Map.empty s.shards i j m h

  pub at-map_shards :
      (f : Map K V → Map K V) (i : ℕ) (s : Shards K V)
      → i < num_shards
      → at i (map_shards f s) ≡ f (at i s)
  unfolding at map_shards
  at-map_shards f i s h = get_or-map Map.empty Map.empty f s.shards i (rw s.sized h)

  pub sum_shards-set_at :
      (f : Map K V → ℕ) (i : ℕ) (m : Map K V) (s : Shards K V)
      → i < num_shards
      → sum_shards f (set_at i m s) + f (at i s) ≡ sum_shards f s + f m
  unfolding sum_shards set_at at
  sum_shards-set_at f i m s h = sum_of-set Map.empty f s.shards i m (rw s.sized h)

  pub sum_shards-map_shards :
      (g : Map K V → ℕ) (f : Map K V → Map K V) (s : Shards K V)
      → sum_shards g (map_shards f s) ≡ sum_shards (λ m. g (f m)) s
  unfolding sum_shards map_shards
  sum_shards-map_shards g f s = sum_of-map g f s.shards

  pub sum_of-concat_shards :
      {X : Type 0} (g : X → ℕ) (f : Map K V → List X) (s : Shards K V)
      → sum_of g (concat_shards f s) ≡ sum_shards (λ m. sum_of g (f m)) s
  unfolding concat_shards sum_shards
  sum_of-concat_shards g f s = go s.shards
    where
      go : (ms : List (Map K V)) → sum_of g (concat_map f ms) ≡ sum_of (λ m. sum_of g (f m)) ms
      go [] = refl
      go (m ∷ ms) = omega (arith, sum_of-append g (f m) (concat_map f ms), go ms)

  pub sum_shards_add :
      (f g h : Map K V → ℕ) (s : Shards K V)
      → ((m : Map K V) → f m + g m ≡ h m)
      → sum_shards f s + sum_shards g s ≡ sum_shards h s
  unfolding sum_shards
  sum_shards_add f g h s e = sum_of_add f g h s.shards e

-- The entry of a key. `name` is the text of a key that the source hashes.
module _ {K : Type 0} (name : K → Bytes) where
  abbrev pub index : K → ℕ
  index k = shard_idx (name k) num_shards

  pub index-lt : (k : K) → index k < num_shards
  index-lt k = shard_idx-lt (name k) num_shards (omega arith)

module _ {K V : Type 0} ⦃key : Key K⦄ (name : K → Bytes) where
  unfoldable pub find : K → Shards K V → Option V
  find k s = Map.get k (at (index name k) s)

  unfoldable pub put : K → V → Shards K V → Shards K V
  put k v s = set_at (index name k) (Map.insert k v (at (index name k) s)) s

  unfoldable pub delete : K → Shards K V → Shards K V
  delete k s = set_at (index name k) (Map.remove k (at (index name k) s)) s

  pub find-put :
      (k j : K) (v : V) (s : Shards K V)
      → find j (put k v s) ≡ ite (key.dec k j) (some v) (find j s)
  unfolding find put
  find-put k j v s = elim (ℕ_discrete (index name k) (index name j)) [
    | yes e ↦ rw (e, at-set_at_self (index name j) _ s (index-lt name j)) (Map.get-insert k j v _)
    | no e ↦ ground (
      arith,
      at-set_at_ne (index name k) (index name j) (Map.insert k v (at (index name k) s)) s e,
    )
  ]

  pub find-delete :
      (k j : K) (s : Shards K V) → find j (delete k s) ≡ ite (key.dec k j) none (find j s)
  unfolding find delete
  find-delete k j s = elim (ℕ_discrete (index name k) (index name j)) [
    | yes e ↦ rw (e, at-set_at_self (index name j) _ s (index-lt name j)) (Map.get-remove k j _)
    | no e ↦
        ground (
          arith,
          at-set_at_ne (index name k) (index name j) (Map.remove k (at (index name k) s)) s e,
        )
  ]

  pub total-put :
      (f : K → V → ℕ) (k : K) (v : V) (s : Shards K V)
      → total f (put k v s) + weight f k (find k s) ≡ total f s + f k v
  unfolding total find put
  total-put f k v s = omega (
    arith,
    sum_shards-set_at (Map.weigh f) (index name k) (Map.insert k v (at (index name k) s)) s
        (index-lt name k),
    Map.weigh-insert f k v (at (index name k) s),
  )

  pub total-delete :
      (f : K → V → ℕ) (k : K) (s : Shards K V)
      → total f (delete k s) + weight f k (find k s) ≡ total f s
  unfolding total find delete
  total-delete f k s = omega (
    arith,
    sum_shards-set_at (Map.weigh f) (index name k) (Map.remove k (at (index name k) s)) s
        (index-lt name k),
    Map.weigh-remove f k (at (index name k) s),
  )

  pub find-map_shards :
      (f : Map K V → Map K V) (k : K) (s : Shards K V)
      → find k (map_shards f s) ≡ Map.get k (f (at (index name k) s))
  unfolding find
  find-map_shards f k s = rw (at-map_shards f (index name k) s (index-lt name k))
