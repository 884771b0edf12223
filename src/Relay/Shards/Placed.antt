-- ===== src/Relay/Shards/Placed.antt =====
-- The sharded tables of crates/qvole-relay/src/relay.rs: where an entry stands, and passes over all
-- shards.
use qvole_rs.Base.Map
use qvole_rs.Base.Map.{Map}
use qvole_rs.Base.{
  ℕ, zero, suc, ◌<◌, ◌≡◌, refl, none, some, List, [], ◌∷◌, arith, Key, Bytes, length, get_or, All,
  All-append, ℕ_discrete, dec_lt,
}
use qvole_rs.Relay.Shards.{
  Shards, num_shards, at, set_at, map_shards, concat_shards, concat_map, index, index-lt, put,
  at-set_at_self, at-set_at_ne, at-map_shards,
}

module _ {K V : Type 0} ⦃key : Key K⦄ (name : K → Bytes) where
  -- A key stands in its own shard only.
  abbrev pub IsPlaced : Shards K V → Type 0
  IsPlaced s = (i : ℕ) (k : K) (v : V) → Map.get k (at i s) ≡ some v → index name k ≡ i

  pub put-IsPlaced : (k : K) (v : V) (s : Shards K V) → IsPlaced s → IsPlaced (put name k v s)
  unfolding put
  put-IsPlaced k v s p i j w g = elim (ℕ_discrete (index name k) i) [
    | yes e ↦ ground (
      arith,
      at-set_at_self (index name k) (Map.insert k v (at (index name k) s)) s (index-lt name k),
      Map.get-insert k j v (at (index name k) s),
      p i j w,
    )
    | no n ↦
        ground
          (arith, at-set_at_ne (index name k) i (Map.insert k v (at (index name k) s)) s n, p i j w)
  ]

  -- A shard exchanged for one whose keys it had.
  pub set_at-IsPlaced :
      (i : ℕ) (m : Map K V) (s : Shards K V)
      → i < num_shards
      → ((k : K) (v : V) → Map.get k m ≡ some v → (w : V) × (Map.get k (at i s) ≡ some w))
      → IsPlaced s
      → IsPlaced (set_at i m s)
  set_at-IsPlaced i m s h sub p j k v g = elim (ℕ_discrete i j) [
    | yes e ↦
        let g' : Map.get k m ≡ some v = ground (arith, at-set_at_self i m s h) in
        let (w, q) = sub k v g' in ground (arith, p i k w q)
    | no n ↦ ground (arith, at-set_at_ne i j m s n, p j k v)
  ]

module _ {K V : Type 0} ⦃key : Key K⦄ where
  at_outside : (xs : List (Map K V)) (i : ℕ) → ¬ (i < length xs) → get_or xs i Map.empty ≡ Map.empty
  at_outside [] i h = refl
  at_outside (x ∷ xs) zero h = absurd (h (omega arith))
  at_outside (x ∷ xs) (suc i) h = at_outside xs i (λ l. h (omega arith))

  pub get-at_outside :
      (i : ℕ) (k : K) (s : Shards K V) → ¬ (i < num_shards) → Map.get k (at i s) ≡ none
  unfolding at
  get-at_outside i k s h = rw (at_outside s.shards i (λ l. h (rw s.sized at l))) (Map.get-empty k)

  concat-All :
      {X : Type 0} (P : X → Type 0) (f : Map K V → List X) (ms : List (Map K V))
      → ((i : ℕ) → i < length ms → All P (f (get_or ms i Map.empty)))
      → All P (concat_map f ms)
  concat-All P f [] h = tt
  concat-All P f (m ∷ ms) h =
      All-append P (f m) (concat_map f ms) (h 0 (omega arith))
        (concat-All P f ms (λ i l. h (suc i) (omega arith)))

  pub concat_shards-All :
      {X : Type 0} (P : X → Type 0) (f : Map K V → List X) (s : Shards K V)
      → ((i : ℕ) → i < num_shards → All P (f (at i s)))
      → All P (concat_shards f s)
  unfolding concat_shards at
  concat_shards-All P f s h = concat-All P f s.shards (λ i l. h i (rw s.sized at l))

module _ {K V : Type 0} ⦃key : Key K⦄ (name : K → Bytes) where
  pub map_shards-IsPlaced :
      (f : Map K V → Map K V) (s : Shards K V)
      → ((m : Map K V) (k : K) (v : V)
          → Map.get k (f m) ≡ some v
          → (w : V) × (Map.get k m ≡ some w))
      → IsPlaced name s
      → IsPlaced name (map_shards f s)
  map_shards-IsPlaced f s sub p i k v g = elim (dec_lt i num_shards) [
    | yes h ↦
        let g' : Map.get k (f (at i s)) ≡ some v = ground (arith, at-map_shards f i s h) in
        let (w, q) = sub (at i s) k v g' in p i k w q
    | no n ↦ ground (arith, get-at_outside i k (map_shards f s) n)
  ]
