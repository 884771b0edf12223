-- ===== src/Relay/Shards/New.antt =====
-- The empty sharded table of crates/qvole-relay/src/relay.rs.
use qvole_rs.Base.Map
use qvole_rs.Base.Map.{Map}
use qvole_rs.Base.{ℕ, zero, suc, ◌≡◌, refl, none, arith, Key, Bytes, get_or, replicate, sum_of}
use qvole_rs.Relay.Shards
use qvole_rs.Relay.Shards.{Shards, index, num_shards}
use qvole_rs.Relay.Shards.Placed.{IsPlaced}

get_or-replicate {ℓ} : {A : Type ℓ} (x : A) (n i : ℕ) → get_or (replicate n x) i x ≡ x
get_or-replicate x zero i = refl
get_or-replicate x (suc n) zero = refl
get_or-replicate x (suc n) (suc i) = get_or-replicate x n i

sum_of-replicate {ℓ} :
    {A : Type ℓ} (f : A → ℕ) (x : A) (n : ℕ) → f x ≡ 0 → sum_of f (replicate n x) ≡ 0
sum_of-replicate f x zero h = refl
sum_of-replicate f x (suc n) h = omega (arith, sum_of-replicate f x n h, h)

module _ {K V : Type 0} ⦃key : Key K⦄ where
  pub at-new : (i : ℕ) → Shards.at i (Shards.new {K = K} {V = V}) ≡ Map.empty
  unfolding Shards.at Shards.new
  at-new i = get_or-replicate Map.empty num_shards i

  pub total-new : (f : K → V → ℕ) → Shards.total f (Shards.new {K = K} {V = V}) ≡ 0
  unfolding Shards.total Shards.sum_shards Shards.new
  total-new f = sum_of-replicate (Map.weigh f) Map.empty num_shards (Map.weigh-empty f)

  pub find-new : (name : K → Bytes) (k : K) → Shards.find name k (Shards.new {K = K} {V = V}) ≡ none
  unfolding Shards.find
  find-new name k = rw (at-new (index name k)) (Map.get-empty k)

  pub new-IsPlaced : (name : K → Bytes) → IsPlaced name (Shards.new {K = K} {V = V})
  new-IsPlaced name i k v g = absurd (ground (arith, g, at-new i, Map.get-empty {K = K} {V = V} k))
