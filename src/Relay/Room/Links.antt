-- ===== src/Relay/Room/Links.antt =====
-- The room links that `remove_stale_clients` of crates/qvole-relay/src/room.rs reports as dropped.
use qvole_rs.Base.Map
use qvole_rs.Base.Assoc.{kept}
use qvole_rs.Base.Map.{Map}
use qvole_rs.Base.{
  ℕ, ◌≡◌, ◌≢◌, refl, inl, inr, true, false, not, List, [], ◌∷◌, some, none, arith, Bytes, bytes_key,
  Bool-cases, All,
}
use qvole_rs.Relay.Addr.{IpAddr, AddrText, key_ip, ip_key_instance}
use qvole_rs.Relay.Room.Invariant.{has_ip}
use qvole_rs.Relay.Room.{
  RoomEntry, UdpClient, remove_pending, remove_all_pending, remove_stale_clients, is_stale, unlinks,
  still_in_room, is_sharer,
}

module _ (text : AddrText) where
  pub udp_clients-remove_all_pending :
      (e : RoomEntry) (srcs : List Bytes)
      → (remove_all_pending text e srcs).udp_clients ≡ e.udp_clients
  unfolding remove_all_pending remove_pending
  udp_clients-remove_all_pending e [] = refl
  udp_clients-remove_all_pending e (src ∷ srcs) =
      ground (arith, udp_clients-remove_all_pending (remove_pending text e src).0 srcs)

  -- A link may go: it is this room's, and no client that stays has the address.
  abbrev pub IsGone : RoomEntry → Bytes → IpAddr × Bytes → Type 0
  IsGone e room (ip, r) =
      (r ≡ room)
      × ((addr : Bytes) (info : UdpClient)
          → Map.get addr e.udp_clients ≡ some info
          → key_ip text addr ≢ ip)

  gone :
      (e e' : RoomEntry) (addr other : Bytes) (info : UdpClient)
      → still_in_room text e addr ≡ false
      → Map.get addr e'.udp_clients ≡ none
      → Map.get other e.udp_clients ≡ some info
      → Map.get other e'.udp_clients ≡ some info
      → key_ip text other ≢ key_ip text addr
  unfolding still_in_room
  gone e e' addr other info n a g g' same =
      ground (arith, Map.any-false _ other info e.udp_clients n g)

  unlinks-All :
      (e e' : RoomEntry) (room : Bytes) (stale : List Bytes)
      → All (λ addr. Map.get addr e'.udp_clients ≡ none) stale
      → ((addr : Bytes) (info : UdpClient)
          → Map.get addr e'.udp_clients ≡ some info
          → Map.get addr e.udp_clients ≡ some info)
      → All (IsGone e' room) (unlinks text e room stale)
  unfolding unlinks
  unlinks-All e e' room [] a k = tt
  unlinks-All e e' room (addr ∷ stale) a k = elim (Bool-cases (still_in_room text e addr)) [
    | inl y ↦ rw y (unlinks-All e e' room stale a.1 k)
    | inr n ↦ rw n (
      (refl, λ other info g. gone e e' addr other info n a.0 (k other info g) g),
      unlinks-All e e' room stale a.1 k,
    )
  ]

  -- The clients that stay are those seen within the time to live.
  pub get-remove_stale_clients :
      (e : RoomEntry) (room : Bytes) (now reg_ttl : ℕ) (addr : Bytes)
      → Map.get addr (remove_stale_clients text e room now reg_ttl).0.udp_clients
        ≡ kept (λ k info. not (is_stale now reg_ttl k info)) addr (Map.get addr e.udp_clients)
  unfolding remove_stale_clients
  get-remove_stale_clients e room now reg_ttl addr =
      rw udp_clients-remove_all_pending (Map.get-retain _ addr e.udp_clients)

  -- Every link that the sweep of a room reports for removal is a link to this room, by an
  -- accounting key that no client who stays in the room has.
  pub remove_stale_clients-IsGone :
      (e : RoomEntry) (room : Bytes) (now reg_ttl : ℕ)
      → All
          (IsGone (remove_stale_clients text e room now reg_ttl).0 room)
          (remove_stale_clients text e room now reg_ttl).1
  unfolding remove_stale_clients
  remove_stale_clients-IsGone e room now reg_ttl =
      unlinks-All e (remove_stale_clients text e room now reg_ttl).0 room
        (Map.keys_where (is_stale now reg_ttl) e.udp_clients)
        (Map.keys_where-All _ (is_stale now reg_ttl) e.udp_clients
          λ addr info g t. ground (arith, get-remove_stale_clients e room now reg_ttl addr))
        (λ addr info g. ground (arith, get-remove_stale_clients e room now reg_ttl addr))

  others_in_room :
      (e : RoomEntry) (a b addr : Bytes) (ia ib : UdpClient)
      → a ≢ b
      → Map.get a e.udp_clients ≡ some ia
      → Map.get b e.udp_clients ≡ some ib
      → key_ip text a ≡ key_ip text b
      → key_ip text addr ≡ key_ip text a
      → still_in_room text e addr ≡ true
  unfolding still_in_room
  others_in_room e a b addr ia ib ne ga gb same k = ground (
    arith,
    Map.any-false (is_sharer text addr) a ia e.udp_clients,
    Map.any-false (is_sharer text addr) b ib e.udp_clients,
  )

  shared_not_unlinked :
      (e : RoomEntry) (room a b : Bytes) (ia ib : UdpClient) (stale : List Bytes)
      → a ≢ b
      → Map.get a e.udp_clients ≡ some ia
      → Map.get b e.udp_clients ≡ some ib
      → key_ip text a ≡ key_ip text b
      → All (λ l. l.0 ≢ key_ip text a) (unlinks text e room stale)
  unfolding unlinks
  shared_not_unlinked e room a b ia ib [] ne ga gb same = tt
  shared_not_unlinked e room a b ia ib (addr ∷ stale) ne ga gb same =
      let rest = shared_not_unlinked e room a b ia ib stale ne ga gb same in
      elim (Bool-cases (still_in_room text e addr)) [
        | inl y ↦ rw y rest
        | inr n ↦ rw n (λ k. ground (arith, others_in_room e a b addr ia ib ne ga gb same k), rest)
      ]

  -- In a room with two clients of one accounting key, all of whose clients with that key are
  -- stale: the sweep reports no link of that key for removal, although no client with the key
  -- stays in the room.
  pub stale_pair_leaks :
      (e : RoomEntry) (room : Bytes) (now reg_ttl : ℕ) (a b : Bytes) (ia ib : UdpClient)
      → a ≢ b
      → Map.get a e.udp_clients ≡ some ia
      → Map.get b e.udp_clients ≡ some ib
      → key_ip text a ≡ key_ip text b
      → ((addr : Bytes) (info : UdpClient)
          → Map.get addr e.udp_clients ≡ some info
          → key_ip text addr ≡ key_ip text a
          → is_stale now reg_ttl addr info ≡ true)
      → All (λ l. l.0 ≢ key_ip text a) (remove_stale_clients text e room now reg_ttl).1
        × (Map.any
              (has_ip text (key_ip text a))
              (remove_stale_clients text e room now reg_ttl).0.udp_clients
            ≡ false)
  unfolding remove_stale_clients
  stale_pair_leaks e room now reg_ttl a b ia ib ne ga gb same stale = (
    shared_not_unlinked e room a b ia ib (Map.keys_where (is_stale now reg_ttl) e.udp_clients) ne ga
        gb same,
    elim (Bool-cases (
        Map.any (has_ip text (key_ip text a))
          (remove_stale_clients text e room now reg_ttl).0.udp_clients)) [
            | inr n ↦ n
            | inl y ↦
                let (addr, info, g, k) =
                  Map.any-true (has_ip text (key_ip text a))
                    (remove_stale_clients text e room now reg_ttl).0.udp_clients y in
                absurd (
                  ground (
                    arith,
                    g,
                    k,
                    get-remove_stale_clients e room now reg_ttl addr,
                    stale addr info,
                  ))
          ],
  )
