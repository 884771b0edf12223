-- ===== src/Relay/Pending/Sweep.antt =====
-- The sweep of the pending store of crates/qvole-relay/src/relay.rs, `remove_stale_pending_regs`,
-- and its counters.
use qvole_rs.Base.Map
use qvole_rs.Base.Map.{Map}
use qvole_rs.Base.{
  ℕ, ◌+◌, ◌-◌, ◌≤◌, ◌<◌, ◌^◌, ◌≡◌, refl, not, List, [], ◌∷◌, arith, Bytes, bytes_key, if◌then◌else◌,
  eqb, map, sum_of, sum_of-append, sum_of-map, length-sum_of, length-map, ◌==◌,
}
use qvole_rs.Relay.Addr.{IpAddr, AddrText, key_ip, ip_key_instance}
use qvole_rs.Relay.Room.{PendingReg, is_expired}
use qvole_rs.Relay.Shards
use qvole_rs.Relay.Shards.{Shards, concat_map}
use qvole_rs.Relay.Pending.{
  PendingStore, remove_pending_ip, pending_count_for_ip, sweep_shard, expired_in, lower_all,
  remove_stale_pending_regs,
}
use qvole_rs.Relay.Pending.Invariant.{IsValid, len_of, count_of, tally_at, tally_at-remove}

-- A measure of single registrations, and its sum over a room.
abbrev of_room : (Bytes → ℕ) → Bytes → Map Bytes PendingReg → ℕ
of_room g room rm = Map.weigh (λ src p. g src) rm

kept_weight :
    (g : Bytes → ℕ) (now : ℕ) (rm : Map Bytes PendingReg)
    → Map.weigh (λ src p. g src) (Map.retain (λ src p. not (is_expired now src p)) rm)
        + sum_of g (Map.keys_where (is_expired now) rm)
      ≡ Map.weigh (λ src p. g src) rm
kept_weight g now rm = omega (
  arith,
  Map.weigh-retain (λ src p. g src) (λ src p. not (is_expired now src p)) rm,
  Map.sum_of-keys_where g (is_expired now) rm,
  Map.weigh_ext (λ src p. if not (is_expired now src p) then 0 else g src)
      (λ src p. if is_expired now src p then g src else 0) rm (λ src p. ground arith),
)

empty_weight :
    (g : Bytes → ℕ) (rm : Map Bytes PendingReg)
    → ((src : Bytes) → g src ≤ 1)
    → Map.len rm ≡ 0
    → Map.weigh (λ src p. g src) rm ≡ 0
unfolding Map.len
empty_weight g rm b h =
    omega (arith, Map.weigh_mono (λ src p. g src) (λ src p. 1) rm (λ src p. b src))

expired_in-sum :
    (g : Bytes → ℕ) (now : ℕ) (ms : List (Bytes × Map Bytes PendingReg))
    → sum_of g (expired_in now ms)
      ≡ sum_of
          (λ (e : Bytes × Map Bytes PendingReg). sum_of g (Map.keys_where (is_expired now) e.1))
          ms
expired_in-sum g now [] = refl
expired_in-sum g now ((room, rm) ∷ ms) = omega (
  arith,
  sum_of-append g (Map.keys_where (is_expired now) rm) (expired_in now ms),
  expired_in-sum g now ms,
)

module _ (g : Bytes → ℕ) (now : ℕ) (b : (src : Bytes) → g src ≤ 1) where
  shard_sum :
      (m : Map Bytes (Map Bytes PendingReg))
      → Map.weigh (of_room g) (sweep_shard now m) + sum_of g (expired_in now (Map.to_list m))
        ≡ Map.weigh (of_room g) m
  unfolding sweep_shard
  shard_sum m =
      let left =
        λ (rm : Map Bytes PendingReg). Map.retain (λ src p. not (is_expired now src p)) rm in
      let gone = λ (room : Bytes) (rm : Map Bytes PendingReg).
        sum_of g (Map.keys_where (is_expired now) rm) in
      omega (
        arith,
        Map.weigh-retain (of_room g) (λ _ rm. not (Map.len rm == 0))
            (Map.map_values (λ _ rm. left rm) m),
        Map.weigh_zero (λ room rm. if not (Map.len rm == 0) then 0 else of_room g room rm)
            (Map.map_values (λ _ rm. left rm) m) (λ room rm. ground (arith, empty_weight g rm b)),
        Map.weigh-map_values (of_room g) (λ _ rm. left rm) m,
        expired_in-sum g now (Map.to_list m),
        Map.weigh-sum_of gone m,
        Map.weigh_add (λ room rm. of_room g room (left rm)) gone m,
        Map.weigh_ext (λ room rm. of_room g room (left rm) + gone room rm) (of_room g) m
            (λ room rm. kept_weight g now rm),
      )

  store_sum :
      (s : Shards Bytes (Map Bytes PendingReg))
      → Shards.total (of_room g) (Shards.map_shards (sweep_shard now) s)
          + sum_of g (Shards.concat_shards (λ m. expired_in now (Map.to_list m)) s)
        ≡ Shards.total (of_room g) s
  unfolding Shards.total
  store_sum s = omega (
    arith,
    Shards.sum_shards-map_shards (Map.weigh (of_room g)) (sweep_shard now) s,
    Shards.sum_of-concat_shards g (λ m. expired_in now (Map.to_list m)) s,
    Shards.sum_shards_add (λ m. Map.weigh (of_room g) (sweep_shard now m))
        (λ m. sum_of g (expired_in now (Map.to_list m))) (Map.weigh (of_room g)) s shard_sum,
  )

abbrev occurs : IpAddr → IpAddr → ℕ
occurs ip i = if eqb i ip then 1 else 0

tally_at-lower_all :
    (text : AddrText) (ip : IpAddr) (ips : List IpAddr) (s : Shards IpAddr ℕ)
    → tally_at text ip (lower_all text ips s) ≡ tally_at text ip s - sum_of (occurs ip) ips
unfolding lower_all
tally_at-lower_all text ip [] s = omega arith
tally_at-lower_all text ip (i ∷ ips) s = ground (
  arith,
  tally_at-lower_all text ip ips (remove_pending_ip text i s),
  tally_at-remove text i ip s,
)

module _ (text : AddrText) (s : PendingStore) (max now : ℕ) (m : max < 2 ^ 64) where
  abbrev evicted : List Bytes
  evicted = Shards.concat_shards (λ m. expired_in now (Map.to_list m)) s.pending_shards

  sweep-exact :
      IsValid text max s
      → (remove_stale_pending_regs text s now).pending_total
        ≡ Shards.total len_of (remove_stale_pending_regs text s now).pending_shards
  unfolding remove_stale_pending_regs Map.len
  sweep-exact v = omega (
    arith,
    v.exact,
    v.capped,
    store_sum (λ _. 1) now (λ _. omega arith) s.pending_shards,
    length-map (key_ip text) evicted,
    length-sum_of evicted,
  )

  sweep-capped : IsValid text max s → (remove_stale_pending_regs text s now).pending_total ≤ max
  unfolding remove_stale_pending_regs Map.len
  sweep-capped v = omega (
    arith,
    v.exact,
    v.capped,
    store_sum (λ _. 1) now (λ _. omega arith) s.pending_shards,
    length-map (key_ip text) evicted,
    length-sum_of evicted,
  )

  sweep-counted :
      IsValid text max s
      → (ip : IpAddr)
      → pending_count_for_ip text (remove_stale_pending_regs text s now) ip
        ≡ Shards.total (count_of text ip) (remove_stale_pending_regs text s now).pending_shards
  unfolding remove_stale_pending_regs Map.count pending_count_for_ip
  sweep-counted v ip = omega (
    arith,
    v.counted ip,
    store_sum (λ src. if eqb (key_ip text src) ip then 1 else 0) now (λ src. ground arith)
        s.pending_shards,
    tally_at-lower_all text ip (map (key_ip text) evicted) s.pending_ip_shards,
    sum_of-map (occurs ip) (key_ip text) evicted,
  )

  -- The sweep of expired registrations keeps a pending store with a cap below 2^64 valid: the
  -- total and every address's counter are exact for what is left, and the total is within the cap.
  pub remove_stale_pending_regs-IsValid :
      IsValid text max s → IsValid text max (remove_stale_pending_regs text s now)
  remove_stale_pending_regs-IsValid v = record {
    exact = sweep-exact v;
    capped = sweep-capped v;
    counted = sweep-counted v;
  }
