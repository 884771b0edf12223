-- ===== src/Relay/Invariant/Evict.antt =====
-- The eviction of stale rooms, of crates/qvole-relay/src/room.rs and crates/qvole-
-- relay/src/relay.rs: lemmas on the invariant of the room table.

use qvole_rs.Base.Map
use qvole_rs.Base.Map.{Map, indicator}
use qvole_rs.Base.{
  ℕ, ◌+◌, ◌<◌, ◌^◌, ◌≡◌, ◌≢◌, refl, sym, subst, ◌∙◌, inl, inr, ◌⊎◌, ℕ_discrete, not, some, List, [],
  ◌∷◌, arith, Bytes, bytes_key, All, All-map, All-append, if◌then◌else◌, ◌==◌, Option-cases,
}
use qvole_rs.Relay.Addr.{IpAddr, AddrText, key_ip, ip_key_instance}
use qvole_rs.Relay.Room.{RoomEntry, remove_stale_clients}
use qvole_rs.Relay.Room.Invariant as RoomInvariant
use qvole_rs.Relay.Room.Invariant.{remove_stale_clients-IsValid}
use qvole_rs.Relay.Room.Links.{IsGone, remove_stale_clients-IsGone, get-remove_stale_clients}
use qvole_rs.Relay.Shards
use qvole_rs.Relay.Shards.{Shards, index, num_shards, index-lt}
use qvole_rs.Relay.Shards.Placed.{IsPlaced, map_shards-IsPlaced, set_at-IsPlaced, concat_shards-All}
use qvole_rs.Relay.Pending.{room_name, fetch_sub}
use qvole_rs.Relay.IpRooms.{IpRooms, remove_ip_rooms}
use qvole_rs.Relay.State.{Limits}
use qvole_rs.Relay.Evict.{RoomMap, evict_stale_rooms, is_dead, sweep_rooms, all_unlinks}
use qvole_rs.Relay.Invariant.{caps, one_each, AreLinked, IsTable}
use qvole_rs.Relay.Invariant.Table.{linked-remove_ip_rooms}

module _ (text : AddrText) (now : ℕ) (l : Limits) where
  abbrev after_sweep : Bytes → RoomEntry → RoomEntry
  after_sweep room e = (remove_stale_clients text e room now l.reg_ttl).0

  abbrev evict : RoomMap → RoomMap × ℕ × List (IpAddr × Bytes)
  evict g = evict_stale_rooms text g now l.reg_ttl

  -- A room that stays was there, and has been swept.
  get-evict :
      (g : RoomMap) (room : Bytes) (e' : RoomEntry)
      → Map.get room (evict g).0 ≡ some e'
      → (e : RoomEntry) × (Map.get room g ≡ some e) × (e' ≡ after_sweep room e)
  unfolding evict_stale_rooms sweep_rooms
  get-evict g room e' h = elim (Option-cases (Map.get room g)) [
    | inl q ↦ absurd (
        ground (
          arith,
          Map.get-retain (λ r e. not (is_dead now l.reg_ttl r e)) room
              (sweep_rooms text now l.reg_ttl g),
          Map.get-map_values after_sweep room g,
        ))
    | inr (e, q) ↦ (
      e,
      q,
      ground (
        arith,
        Map.get-retain (λ r x. not (is_dead now l.reg_ttl r x)) room
            (sweep_rooms text now l.reg_ttl g),
        Map.get-map_values after_sweep room g,
      ),
    )
  ]

  -- The rooms that went are counted.
  evict-count : (g : RoomMap) → Map.weigh one_each (evict g).0 + (evict g).1 ≡ Map.weigh one_each g
  unfolding evict_stale_rooms sweep_rooms Map.count
  evict-count g =
      let dead = is_dead now l.reg_ttl in
      let m = sweep_rooms text now l.reg_ttl g in
      omega (
        arith,
        Map.weigh-retain one_each (λ r e. not (dead r e)) m,
        Map.weigh_ext (λ r e. if not (dead r e) then 0 else one_each r e) (indicator dead) m
            (λ r e. ground arith),
        Map.weigh-map_values one_each after_sweep g,
      )

  all_unlinks-All :
      (P : IpAddr × Bytes → Type 0) (ms : List (Bytes × RoomEntry))
      → All (λ m. All P (remove_stale_clients text m.1 m.0 now l.reg_ttl).1) ms
      → All P (all_unlinks text now l.reg_ttl ms)
  all_unlinks-All P [] a = tt
  all_unlinks-All P ((room, e) ∷ ms) a =
      All-append P (remove_stale_clients text e room now l.reg_ttl).1
        (all_unlinks text now l.reg_ttl ms) a.0 (all_unlinks-All P ms a.1)

  -- The link is one that the sweep of a room of the table reports.
  abbrev IsReported : Shards Bytes RoomEntry → IpAddr × Bytes → Type 0
  IsReported rooms g =
      (room : Bytes) × (e : RoomEntry) × (Shards.find room_name room rooms ≡ some e)
      × IsGone text (after_sweep room e) room g

  -- The same, of a room that stands in the shard at an index.
  abbrev IsReportedAt : ℕ → Shards Bytes RoomEntry → IpAddr × Bytes → Type 0
  IsReportedAt i rooms g =
      (room : Bytes) × (e : RoomEntry) × (index room_name room ≡ i)
      × (Shards.find room_name room rooms ≡ some e)
      × IsGone text (after_sweep room e) room g

  reported_at :
      (rooms : Shards Bytes RoomEntry) (i : ℕ)
      → IsPlaced room_name rooms
      → All (IsReportedAt i rooms) (evict (Shards.at i rooms)).2
  unfolding evict_stale_rooms Shards.find
  reported_at rooms i p = all_unlinks-All (IsReportedAt i rooms) (Map.to_list (Shards.at i rooms)) (
      Map.to_list-All
        (λ m. All (IsReportedAt i rooms) (remove_stale_clients text m.1 m.0 now l.reg_ttl).1)
        (Shards.at i rooms)
        λ room e g.
          All-map (IsGone text (after_sweep room e) room) (IsReportedAt i rooms)
            (remove_stale_clients text e room now l.reg_ttl).1
            (λ x h. (room, e, p i room e g, rw (p i room e g) g, h))
            (remove_stale_clients-IsGone text e room now l.reg_ttl))

  IsReported-shard :
      (rooms : Shards Bytes RoomEntry) (i : ℕ)
      → IsPlaced room_name rooms
      → All (IsReported rooms) (evict (Shards.at i rooms)).2
  IsReported-shard rooms i p =
      All-map (IsReportedAt i rooms) (IsReported rooms) (evict (Shards.at i rooms)).2
        (λ x (room, e, w, f, p). (room, e, f, p)) (reported_at rooms i p)

  found :
      (rooms : Shards Bytes RoomEntry) (room : Bytes) (e' : RoomEntry)
      → Shards.find room_name room (Shards.map_shards (λ g. (evict g).0) rooms) ≡ some e'
      → (e : RoomEntry) × (Shards.find room_name room rooms ≡ some e) × (e' ≡ after_sweep room e)
  unfolding Shards.find
  found rooms room e' f =
      get-evict (Shards.at (index room_name room) rooms) room e'
        (sym (Shards.find-map_shards room_name (λ g. (evict g).0) room rooms) ∙ f)

  -- A room that stays keeps its links, since none that goes is needed.
  kept_links :
      (rooms : Shards Bytes RoomEntry) (links : IpRooms) (gone : List (IpAddr × Bytes))
      (room : Bytes) (e : RoomEntry)
      → Shards.find room_name room rooms ≡ some e
      → All (IsReported rooms) gone
      → AreLinked text room e links
      → AreLinked text room (after_sweep room e) (remove_ip_rooms text gone links)
  kept_links rooms links gone room e f a h addr info g =
      linked-remove_ip_rooms text (key_ip text addr) room gone links
        (All-map (IsReported rooms) (λ x. x.0 ≡ key_ip text addr → x.1 ≢ room) gone
          (λ x (r, e0, f0, wp) same q.
            let (w, p) = wp in
            let eq : r ≡ room = sym w ∙ q in
            let found : some e0 ≡ some e =
              sym f0
              ∙ (subst (λ y. Shards.find room_name r rooms ≡ Shards.find room_name y rooms) eq refl
                  ∙ f) in
            p addr info
              (ground (
                arith,
                eq,
                found,
                get-remove_stale_clients text e room now l.reg_ttl addr,
                get-remove_stale_clients text e0 r now l.reg_ttl addr,
              ))
              (sym same))
          a)
        (h addr info (ground (arith, get-remove_stale_clients text e room now l.reg_ttl addr)))

  -- The eviction of every shard, as `evict_stale_rooms_all` runs it.
  pub evict_all-IsTable :
      (rooms : Shards Bytes RoomEntry) (links : IpRooms) (n : ℕ)
      → l.max_rooms < 2 ^ 64
      → IsTable text l rooms links n
      → let gone = Shards.sum_shards (λ g. (evict g).1) rooms in
        IsTable text l
          (Shards.map_shards (λ g. (evict g).0) rooms)
          (remove_ip_rooms text (Shards.concat_shards (λ g. (evict g).2) rooms) links)
          (if gone == 0 then n else fetch_sub n gone)
  unfolding Shards.total
  evict_all-IsTable rooms links n w t =
      let gone = Shards.sum_shards (λ g. (evict g).1) rooms in
      let links' = Shards.concat_shards (λ g. (evict g).2) rooms in
      let left : Shards.total one_each (Shards.map_shards (λ g. (evict g).0) rooms) + gone ≡ n =
        rw (Shards.sum_shards-map_shards (Map.weigh one_each) (λ g. (evict g).0) rooms) (
          Shards.sum_shards_add (λ g. Map.weigh one_each (evict g).0) (λ g. (evict g).1)
            (Map.weigh one_each) rooms evict-count
          ∙ sym t.exact) in
      record {
        exact = ground (arith, left, t.capped);
        capped = ground (arith, left, t.capped);
        placed =
            map_shards-IsPlaced room_name (λ g. (evict g).0) rooms
              (λ m k v g. let (e, q, _) = get-evict m k v g in (e, q)) t.placed;
        each = λ room e' f.
            let (e, q, x) = found rooms room e' f in
            subst (RoomInvariant.IsValid text (caps l)) (sym x)
              (remove_stale_clients-IsValid text (caps l) e room now l.reg_ttl (t.each room e q));
        all_linked = λ room e' f.
            let (e, q, x) = found rooms room e' f in
            subst (λ y. AreLinked text room y (remove_ip_rooms text links' links)) (sym x)
              (kept_links rooms links links' room e q
                (concat_shards-All (IsReported rooms) (λ g. (evict g).2) rooms
                  (λ i _. IsReported-shard rooms i t.placed))
                (t.all_linked room e q));
      }

  -- A room of another shard keeps its links too.
  other_links :
      (rooms : Shards Bytes RoomEntry) (links : IpRooms) (gone : List (IpAddr × Bytes)) (i : ℕ)
      (room : Bytes) (e : RoomEntry)
      → index room_name room ≢ i
      → All (IsReportedAt i rooms) gone
      → AreLinked text room e links
      → AreLinked text room e (remove_ip_rooms text gone links)
  other_links rooms links gone i room e n a h addr info g =
      linked-remove_ip_rooms text (key_ip text addr) room gone links
        (All-map (IsReportedAt i rooms) (λ x. x.0 ≡ key_ip text addr → x.1 ≢ room) gone
          (λ x (r, e0, w, f, p) same q. n (subst (λ y. index room_name y ≡ i) (sym p.0 ∙ q) w)) a)
        (h addr info g)

  module _ (rooms : Shards Bytes RoomEntry) (i : ℕ) where
    abbrev shard_rest : Shards Bytes RoomEntry
    shard_rest = Shards.set_at i (evict (Shards.at i rooms)).0 rooms

    -- A room after the eviction of one shard was there: swept, or in another shard.
    pub found_in_rest :
        (room : Bytes) (e' : RoomEntry)
        → i < num_shards
        → Shards.find room_name room shard_rest ≡ some e'
        → ((e : RoomEntry) × (Shards.find room_name room rooms ≡ some e)
            × (e' ≡ after_sweep room e))
          ⊎ ((index room_name room ≢ i) × (Shards.find room_name room rooms ≡ some e'))
    unfolding Shards.find
    found_in_rest room e' h f = elim (ℕ_discrete i (index room_name room)) [
      | yes q ↦
          let f' : Map.get room (evict (Shards.at i rooms)).0 ≡ some e' =
            ground (arith, q, Shards.at-set_at_self i (evict (Shards.at i rooms)).0 rooms h) in
          let (e, g, x) = get-evict (Shards.at i rooms) room e' f' in
          inl (e, subst (λ y. Map.get room (Shards.at y rooms) ≡ some e) q g, x)
      | no n ↦ inr (
        λ q. n (sym q),
        ground (
          arith,
          Shards.at-set_at_ne i (index room_name room) (evict (Shards.at i rooms)).0 rooms n,
        ),
      )
    ]

    -- The eviction of one shard, as `reg_cookie_create_or_admit` runs it.
    pub evict_shard-IsTable :
        (links : IpRooms) (n : ℕ)
        → i < num_shards
        → l.max_rooms < 2 ^ 64
        → IsTable text l rooms links n
        → let gone = (evict (Shards.at i rooms)).1 in
          IsTable text l shard_rest
            (remove_ip_rooms text (evict (Shards.at i rooms)).2 links)
            (if gone == 0 then n else fetch_sub n gone)
    unfolding Shards.total
    evict_shard-IsTable links n h w t =
        let gone = (evict (Shards.at i rooms)).1 in
        let left : Shards.total one_each shard_rest + gone ≡ n = omega (
          arith,
          Shards.sum_shards-set_at (Map.weigh one_each) i (evict (Shards.at i rooms)).0 rooms h,
          evict-count (Shards.at i rooms),
          t.exact,
        ) in
        record {
          exact = ground (arith, left, t.capped);
          capped = ground (arith, left, t.capped);
          placed =
              set_at-IsPlaced room_name i (evict (Shards.at i rooms)).0 rooms h
                (λ k v g. let (e, q, _) = get-evict (Shards.at i rooms) k v g in (e, q)) t.placed;
          each = λ room e' f. elim (found_in_rest room e' h f) [
            | inl (e, q, x) ↦
                subst (RoomInvariant.IsValid text (caps l)) (sym x) (
                  remove_stale_clients-IsValid text (caps l) e room now l.reg_ttl (t.each room e q))
            | inr (_, q) ↦ t.each room e' q
          ];
          all_linked = λ room e' f. elim (found_in_rest room e' h f) [
            | inl (e, q, x) ↦
                subst
                  (λ y.
                    AreLinked text room y
                      (remove_ip_rooms text (evict (Shards.at i rooms)).2 links))
                  (sym x)
                  (kept_links rooms links (evict (Shards.at i rooms)).2 room e q
                    (IsReported-shard rooms i t.placed) (t.all_linked room e q))
            | inr (k, q) ↦
                other_links rooms links (evict (Shards.at i rooms)).2 i room e' k
                  (reported_at rooms i t.placed) (t.all_linked room e' q)
          ];
        }
