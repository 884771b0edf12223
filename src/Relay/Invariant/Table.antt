-- ===== src/Relay/Invariant/Table.antt =====
-- The steps by which the room table of crates/qvole-relay/src/relay.rs changes: lemmas on its
-- invariant.
use qvole_rs.Base.Map
use qvole_rs.Base.{
  ℕ, ◌≤◌, ◌<◌, ◌^◌, ◌≡◌, ◌≢◌, true, none, some, List, [], ◌∷◌, arith, Bytes, bytes_key,
  Bytes-discrete, All, All-map, sym, subst, ◌∙◌,
}
use qvole_rs.Relay.Addr.{IpAddr, AddrText, key_ip, ip_key_instance}
use qvole_rs.Relay.Room.{RoomEntry, UdpClient, remove_stale_clients}
use qvole_rs.Relay.Room.Invariant as RoomInvariant
use qvole_rs.Relay.Room.Invariant.{remove_stale_clients-IsValid}
use qvole_rs.Relay.Room.Links.{IsGone, remove_stale_clients-IsGone, get-remove_stale_clients}
use qvole_rs.Relay.Shards
use qvole_rs.Relay.Shards.{Shards}
use qvole_rs.Relay.Shards.Placed.{put-IsPlaced}
use qvole_rs.Relay.Pending.{room_name, fetch_add}
use qvole_rs.Relay.IpRooms.{
  IpRooms, linked, linked-remove, linked-add, add_ip_room, remove_ip_room, remove_ip_rooms,
}
use qvole_rs.Relay.State.{Limits}
use qvole_rs.Relay.Invariant.{caps, one_each, AreLinked, IsTable}

module _ (text : AddrText) where
  -- A link that no entry of the list names is kept.
  pub linked-remove_ip_rooms :
      (j : IpAddr) (r : Bytes) (gone : List (IpAddr × Bytes)) (links : IpRooms)
      → All (λ g. g.0 ≡ j → g.1 ≢ r) gone
      → linked text j r links ≡ true
      → linked text j r (remove_ip_rooms text gone links) ≡ true
  unfolding remove_ip_rooms
  linked-remove_ip_rooms j r [] links a h = h
  linked-remove_ip_rooms j r ((i, room) ∷ gone) links a h =
      linked-remove_ip_rooms j r gone (remove_ip_room text i room links) a.1
        (ground (arith, linked-remove text i j room r links, a.0))

  -- Every link of another room survives.
  abbrev pub KeepsOthers : Bytes → IpRooms → IpRooms → Type 0
  KeepsOthers room links links' =
      (j : IpAddr) (r : Bytes)
      → r ≢ room
      → linked text j r links ≡ true
      → linked text j r links' ≡ true

  find-put_elim :
      (P : Bytes → RoomEntry → Type 0) (room : Bytes) (e : RoomEntry)
      (rooms : Shards Bytes RoomEntry)
      → P room e
      → ((r : Bytes) (e' : RoomEntry) → r ≢ room → Shards.find room_name r rooms ≡ some e' → P r e')
      → (r : Bytes) (e' : RoomEntry)
      → Shards.find room_name r (Shards.put room_name room e rooms) ≡ some e'
      → P r e'
  find-put_elim P room e rooms new old r e' g = elim (Bytes-discrete room r) [
    | yes q ↦
        let eq : e ≡ e' = ground (arith, Shards.find-put room_name room r e rooms) in
        subst (λ x. P r x) eq (subst (λ x. P x e) q new)
    | no q ↦ old r e' (λ h. q (sym h)) (ground (arith, Shards.find-put room_name room r e rooms))
  ]

  module _ (l : Limits) (rooms : Shards Bytes RoomEntry) (links links' : IpRooms) (n n' : ℕ) where
    -- A room is written, and the links follow.
    put_room :
        (room : Bytes) (e : RoomEntry)
        → n' ≡ Shards.total one_each (Shards.put room_name room e rooms)
        → n' ≤ l.max_rooms
        → RoomInvariant.IsValid text (caps l) e
        → AreLinked text room e links'
        → KeepsOthers room links links'
        → IsTable text l rooms links n
        → IsTable text l (Shards.put room_name room e rooms) links' n'
    put_room room e x c v a k t = record {
      exact = x;
      capped = c;
      placed = put-IsPlaced room_name room e rooms t.placed;
      each =
          find-put_elim (λ _ e'. RoomInvariant.IsValid text (caps l) e') room e rooms v
            (λ r e' _ f. t.each r e' f);
      all_linked =
          find-put_elim (λ r e'. AreLinked text r e' links') room e rooms a
            (λ r e' q f addr info g. k (key_ip text addr) r q (t.all_linked r e' f addr info g));
    }

  module _ (l : Limits) (rooms : Shards Bytes RoomEntry) (links links' : IpRooms) (n : ℕ) where
    -- A room that exists is written.
    pub put_existing :
        (room : Bytes) (e0 e : RoomEntry)
        → Shards.find room_name room rooms ≡ some e0
        → RoomInvariant.IsValid text (caps l) e
        → AreLinked text room e links'
        → KeepsOthers room links links'
        → IsTable text l rooms links n
        → IsTable text l (Shards.put room_name room e rooms) links' n
    put_existing room e0 e f v a k t =
        put_room l rooms links links' n n room e
          (ground (arith, t.exact, Shards.total-put room_name one_each room e rooms)) t.capped v a k
          t

    -- A room is created below the cap.
    pub put_new :
        (room : Bytes) (e : RoomEntry)
        → Shards.find room_name room rooms ≡ none
        → n < l.max_rooms
        → l.max_rooms < 2 ^ 64
        → RoomInvariant.IsValid text (caps l) e
        → AreLinked text room e links'
        → KeepsOthers room links links'
        → IsTable text l rooms links n
        → IsTable text l (Shards.put room_name room e rooms) links' (fetch_add n 1)
    put_new room e f c w v a k t =
        put_room l rooms links links' n (fetch_add n 1) room e
          (ground (arith, t.exact, Shards.total-put room_name one_each room e rooms)) (omega arith)
          v a k t

  KeepsOthers-remove_ip_rooms :
      (e : RoomEntry) (room : Bytes) (gone : List (IpAddr × Bytes)) (links : IpRooms)
      → All (IsGone text e room) gone
      → KeepsOthers room links (remove_ip_rooms text gone links)
  KeepsOthers-remove_ip_rooms e room gone links a j r q = linked-remove_ip_rooms j r gone links (
      All-map (IsGone text e room) (λ g. g.0 ≡ j → g.1 ≢ r) gone (λ g h _ same. q (sym same ∙ h.0))
        a)

  AreLinked-remove_ip_rooms :
      (e0 e : RoomEntry) (room : Bytes) (gone : List (IpAddr × Bytes)) (links : IpRooms)
      → All (IsGone text e room) gone
      → ((addr : Bytes) (info : UdpClient)
          → Map.get addr e.udp_clients ≡ some info
          → Map.get addr e0.udp_clients ≡ some info)
      → AreLinked text room e0 links
      → AreLinked text room e (remove_ip_rooms text gone links)
  AreLinked-remove_ip_rooms e0 e room gone links a sub h addr info g =
      linked-remove_ip_rooms (key_ip text addr) room gone links
        (All-map (IsGone text e room) (λ x. x.0 ≡ key_ip text addr → x.1 ≢ room) gone
          (λ x p same _. p.1 addr info g (sym same)) a)
        (h addr info (sub addr info g))

  -- A room is swept, and the links that the sweep reports go.
  pub swept :
      (l : Limits) (rooms : Shards Bytes RoomEntry) (links : IpRooms) (n : ℕ) (room : Bytes)
      (e0 : RoomEntry) (now : ℕ)
      → Shards.find room_name room rooms ≡ some e0
      → IsTable text l rooms links n
      → let r = remove_stale_clients text e0 room now l.reg_ttl in
        IsTable text l (Shards.put room_name room r.0 rooms) (remove_ip_rooms text r.1 links) n
  swept l rooms links n room e0 now f t =
      let r = remove_stale_clients text e0 room now l.reg_ttl in
      put_existing l rooms links (remove_ip_rooms text r.1 links) n room e0 r.0 f
        (remove_stale_clients-IsValid text (caps l) e0 room now l.reg_ttl (t.each room e0 f))
        (AreLinked-remove_ip_rooms e0 r.0 room r.1 links
          (remove_stale_clients-IsGone text e0 room now l.reg_ttl)
          (λ addr info g. ground (arith, get-remove_stale_clients text e0 room now l.reg_ttl addr))
          (t.all_linked room e0 f))
        (KeepsOthers-remove_ip_rooms r.0 room r.1 links
          (remove_stale_clients-IsGone text e0 room now l.reg_ttl))
        t

  pub KeepsOthers-add :
      (ip : IpAddr) (room : Bytes) (links : IpRooms)
      → KeepsOthers room links (add_ip_room text ip room links)
  KeepsOthers-add ip room links j r q h = ground (arith, linked-add text ip j room r links)
