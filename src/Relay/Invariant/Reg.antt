-- ===== src/Relay/Invariant/Reg.antt =====
-- The evictions of crates/qvole-relay/src/relay.rs and the branches of its `handle_reg` that carry
-- a cookie, and the invariant of the relay.
use qvole_rs.Base.Map
use qvole_rs.Base.{
  ◌≡◌, inl, inr, not, none, some, List, arith, Bytes, bytes_key, eqb, Option-cases, leb, if_elim,
}
use qvole_rs.Relay.Addr.{SocketAddr, ip_key, ip_key_instance}
use qvole_rs.Relay.Action.{RegAction}
use qvole_rs.Relay.Room.{RoomEntry, PendingReg, remove_pending}
use qvole_rs.Relay.Room.Invariant.{remove_pending-IsValid}
use qvole_rs.Relay.Shards
use qvole_rs.Relay.Shards.{index, index-lt}
use qvole_rs.Relay.Pending.{
  PendingStore, room_name, get_pending_reg, store_pending_reg, delete_pending_reg,
  pending_count_for_ip,
}
use qvole_rs.Relay.Pending.Invariant as PendingInvariant
use qvole_rs.Relay.Pending.Invariant.{store_pending_reg-IsValid, delete_pending_reg-IsValid}
use qvole_rs.Relay.State.{Relay, Env, Datagram}
use qvole_rs.Relay.Evict.{evict_stale_rooms, evict_stale_rooms_all}
use qvole_rs.Relay.Reg.{
  src_str, at_ip_cap, is_late, fresh, drop_only, evict_shard, make_space, create_or_admit,
  reg_cookie_create_or_admit, challenge_new, perform,
}
use qvole_rs.Relay.Reg.Handler.{reg_room_cookie, reg_pending_cookie, reg_cookie}
use qvole_rs.Relay.Invariant.{IsValid, Keeps, AreLinked, caps}
use qvole_rs.Relay.Invariant.Evict.{evict_all-IsTable, evict_shard-IsTable, found_in_rest}
use qvole_rs.Relay.Invariant.Frame.{
  drop_packet-IsValid, perform-IsValid, send_reg_challenge-IsValid,
}
use qvole_rs.Relay.Invariant.Admit.{set_room-IsValid, udp_clients-remove_pending}
use qvole_rs.Relay.Invariant.Join.{
  rejected, create_room-IsValid, admit_completed-IsValid, admit_matched-IsValid,
}

module _ (env : Env) where
  -- A relay that satisfies its invariant satisfies it again after evict_stale_rooms_all: its
  -- counter still equals the rooms in the table, and every client that is left is still linked to
  -- its room.
  pub evict_stale_rooms_all-IsValid :
      (s : Relay) → IsValid env.text s → IsValid env.text (evict_stale_rooms_all env s)
  unfolding evict_stale_rooms_all
  evict_stale_rooms_all-IsValid s w = record {
    sane = w.sane;
    table =
        evict_all-IsTable env.text env.now s.limits s.shards s.ip_counts s.total_room_count
          w.sane.rooms_fit w.table;
    store = w.store;
  }

  evict_shard-IsValid :
      (room : Bytes) (s : Relay) → IsValid env.text s → IsValid env.text (evict_shard env room s)
  unfolding evict_shard
  evict_shard-IsValid room s w =
      if_elim (IsValid env.text) (leb s.max_rooms s.total_room_count) _ _
        (λ _. record {
          sane = w.sane;
          table =
              evict_shard-IsTable env.text env.now s.limits s.shards (index room_name room)
                s.ip_counts s.total_room_count (index-lt room_name room) w.sane.rooms_fit w.table;
          store = w.store;
        })
        (λ _. w)

  -- The eviction of a shard creates no room.
  find-evict_shard :
      (room : Bytes) (s : Relay)
      → Shards.find room_name room s.shards ≡ none
      → Shards.find room_name room (evict_shard env room s).shards ≡ none
  unfolding evict_shard
  find-evict_shard room s f =
      if_elim (λ (x : Relay). Shards.find room_name room x.shards ≡ none)
        (leb s.max_rooms s.total_room_count) _ _
        (λ _.
          elim (Option-cases (
            Shards.find room_name room (
              Shards.set_at (index room_name room)
                (evict_stale_rooms env.text (Shards.at (index room_name room) s.shards) env.now
                  s.reg_ttl).0
                s.shards))) [
                  | inl q ↦ q
                  | inr (e', q) ↦
                      elim (found_in_rest env.text env.now s.limits s.shards (index room_name room)
                        room e' (index-lt room_name room) q) [
                          | inl (e, g, _) ↦ absurd (ground (arith, f, g))
                          | inr (_, g) ↦ absurd (ground (arith, f, g))
                        ]
                ])
        (λ _. f)

  make_space-IsValid : (s : Relay) → IsValid env.text s → IsValid env.text (make_space env s)
  unfolding make_space
  make_space-IsValid s w =
      if_elim (IsValid env.text) (leb s.max_rooms s.total_room_count) _ _
        (λ _. evict_stale_rooms_all-IsValid s w) (λ _. w)

  module _ (room : Bytes) (src : SocketAddr) where
    abbrev pub Acts : Relay × RegAction → Type 0
    Acts r = Keeps env.text r

    abbrev pub Sends : Relay × List Datagram → Type 0
    Sends r = Keeps env.text r

    pub dropped : (s : Relay) → IsValid env.text s → Sends (drop_only env src s)
    dropped s w = record { ok = drop_packet-IsValid env src s w }

    create_or_admit-IsValid :
        (resolved : SocketAddr) (s : Relay)
        → IsValid env.text s
        → Acts (create_or_admit env room resolved src s)
    unfolding create_or_admit
    create_or_admit-IsValid resolved s w =
        elim (Option-cases (Shards.find room_name room s.shards)) [
          | inl q ↦
              rw (q, create_or_admit)
                (create_room-IsValid env room src resolved (evict_shard env room s)
                  (find-evict_shard room s q) (evict_shard-IsValid room s w))
          | inr (e, q) ↦
              rw (q, create_or_admit) (admit_completed-IsValid env room src resolved e s q w)
        ]

    -- A relay that satisfies its invariant satisfies it again after reg_cookie_create_or_admit,
    -- which sweeps at the room cap and then creates or joins the room.
    pub reg_cookie_create_or_admit-IsValid :
        (resolved : SocketAddr) (s : Relay)
        → IsValid env.text s
        → Acts (reg_cookie_create_or_admit env room resolved src s)
    unfolding reg_cookie_create_or_admit
    reg_cookie_create_or_admit-IsValid resolved s w =
        create_or_admit-IsValid resolved (make_space env s) (make_space-IsValid s w)

    with_store :
        (s : Relay) (store : PendingStore)
        → PendingInvariant.IsValid env.text s.max_pending_global store
        → IsValid env.text s
        → IsValid env.text (record s { store = store })
    with_store s store v w = record { sane = w.sane; table = w.table; store = v }

    -- The text of the address stands for the address.
    stored-IsValid :
        (s : Relay)
        → IsValid env.text s
        → PendingInvariant.IsValid env.text s.max_pending_global
            (store_pending_reg env.text s.store s.max_pending_global room
              (src_str env src)
              (fresh env src)).0
    stored-IsValid s w =
        store_pending_reg-IsValid env.text s.store s.max_pending_global room (src_str env src)
          (fresh env src) w.sane.pending_fits w.store

    pub challenge_new-IsValid :
        (s : Relay) → IsValid env.text s → Sends (challenge_new env room src s)
    unfolding challenge_new
    challenge_new-IsValid s w =
        let r =
          store_pending_reg env.text s.store s.max_pending_global room (src_str env src)
            (fresh env src) in
        let s' = record s { store = r.0 } in
        let w' : IsValid env.text s' = with_store s r.0 (stored-IsValid s w) w in
        if_elim Sends
          (leb s.max_pending_per_ip (pending_count_for_ip env.text s.store (ip_key src))) _ _
          (λ _. dropped s w)
          (λ _.
            if_elim Sends r.1 _ _
              (λ _. record { ok = send_reg_challenge-IsValid env room env.cookie src s' w' })
              (λ _. dropped s' w'))

    pub acted : (r : Relay × RegAction) → Acts r → Sends (perform env room src r)
    acted r a = record { ok = perform-IsValid env room src r a.ok }

    removed_linked :
        (s : Relay) (e : RoomEntry)
        → Shards.find room_name room s.shards ≡ some e
        → IsValid env.text s
        → AreLinked env.text room (remove_pending env.text e (src_str env src)).0 s.ip_counts
    removed_linked s e f w addr info g =
        w.table.all_linked room e f addr info
          (rw⁻¹ (udp_clients-remove_pending env.text e (src_str env src)) g)

    reg_room_cookie-IsValid :
        (cookie : Bytes) (e : RoomEntry) (s : Relay)
        → Shards.find room_name room s.shards ≡ some e
        → IsValid env.text s
        → Acts (reg_room_cookie env room cookie src e s)
    unfolding reg_room_cookie
    reg_room_cookie-IsValid cookie e s f w =
        elim (Option-cases (Map.get (src_str env src) e.pending)) [
          | inl q ↦ rw (q, reg_room_cookie) (rejected env room src s w)
          | inr (pend, q) ↦
              rw (q, reg_room_cookie)
                (if_elim Acts (not (eqb pend.cookie cookie)) _ _ (λ _. rejected env room src s w)
                  λ _.
                    if_elim Acts (is_late env pend) _ _
                      (λ _. rejected env room src _ (
                        set_room-IsValid env room s e
                          (remove_pending env.text e (src_str env src)).0 f
                          (remove_pending-IsValid env.text (caps s.limits) e (src_str env src)
                            (w.table.each room e f))
                          (removed_linked s e f w) w))
                      (λ _. admit_matched-IsValid env room src pend e s f w))
        ]

    reg_pending_cookie-IsValid :
        (cookie : Bytes) (pend : PendingReg) (s : Relay)
        → IsValid env.text s
        → Sends (reg_pending_cookie env room cookie src pend s)
    unfolding reg_pending_cookie
    reg_pending_cookie-IsValid cookie pend s w =
        let store = delete_pending_reg env.text s.store room (src_str env src) in
        let s' = record s { store = store } in
        let w' : IsValid env.text s' =
          with_store s store
            (delete_pending_reg-IsValid env.text s.store s.max_pending_global room (src_str env src)
              w.sane.pending_fits w.store)
            w in
        if_elim Sends (not (eqb pend.cookie cookie)) _ _ (λ _. dropped s w)
          λ _.
            if_elim Sends (is_late env pend) _ _ (λ _. dropped s' w')
              λ _. acted _ (reg_cookie_create_or_admit-IsValid pend.resolved_addr s' w')

    pub reg_cookie-IsValid :
        (cookie : Bytes) (s : Relay) → IsValid env.text s → Sends (reg_cookie env room cookie src s)
    unfolding reg_cookie
    reg_cookie-IsValid cookie s w =
        elim (Option-cases (get_pending_reg s.store room (src_str env src))) [
          | inr (pend, q) ↦ rw (q, reg_cookie) (reg_pending_cookie-IsValid cookie pend s w)
          | inl q ↦ elim (Option-cases (Shards.find room_name room s.shards)) [
            | inr (e, g) ↦ rw (q, g, reg_cookie) (acted _ (reg_room_cookie-IsValid cookie e s g w))
            | inl g ↦
                rw (q, g, reg_cookie)
                  (if_elim Sends (at_ip_cap env src s) _ _ (λ _. dropped s w)
                    (λ _. challenge_new-IsValid s w))
          ]
        ]
