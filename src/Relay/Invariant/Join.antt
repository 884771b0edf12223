-- ===== src/Relay/Invariant/Join.antt =====
-- The admission of a client, in `handle_reg` and `reg_cookie_create_or_admit` of crates/qvole-
-- relay/src/relay.rs: lemmas on the invariant of the relay.
use qvole_rs.Base.Map
use qvole_rs.Base.{
  ℕ, ◌≡◌, refl, inl, inr, true, false, not, ◌&&◌, none, some, arith, Bool, Bytes, bytes_key,
  Option-cases, leb, if_elim,
}
use qvole_rs.Relay.Addr.{SocketAddr, key_ip, ip_key, ip_key_instance, key_ip-to_string}
use qvole_rs.Relay.Action.{RegAction}
use qvole_rs.Relay.Room
use qvole_rs.Relay.Room.{RoomEntry, UdpClient, PendingReg, remove_pending, new_client}
use qvole_rs.Relay.Room.Invariant as RoomInvariant
use qvole_rs.Relay.Room.Invariant.{remove_pending-IsValid}
use qvole_rs.Relay.Room.Admit.{with_client, replaced-IsValid, admitted-IsValid, new-IsValid}
use qvole_rs.Relay.Shards
use qvole_rs.Relay.Pending.{room_name}
use qvole_rs.Relay.IpRooms.{IpRooms, linked}
use qvole_rs.Relay.State.{Relay, Env}
use qvole_rs.Relay.Reg.{
  src_str, has_ip, count_prefix_clients, set_room, sweep_room, reject, is_full, at_prefix_cap,
  at_ip_cap, create_room, admit_completed,
}
use qvole_rs.Relay.Reg.Handler.{admit_matched, other_has_ip}
use qvole_rs.Relay.Invariant.{IsValid, IsSane, Keeps, AreLinked, caps}
use qvole_rs.Relay.Invariant.Table.{put_new}
use qvole_rs.Relay.Invariant.Frame.{drop_packet-IsValid}
use qvole_rs.Relay.Invariant.Admit.{
  grown, linked-grown, grown-keeps, udp_clients-remove_pending, AreLinked-insert,
  write_room-IsValid, sweep_room-IsValid, find-set_room,
}

module _ (env : Env) (room : Bytes) (src : SocketAddr) where
  abbrev Ok : Relay × RegAction → Type 0
  Ok r = Keeps env.text r

  pub rejected : (s : Relay) → IsValid env.text s → Ok (reject env src s)
  rejected s w = record { ok = drop_packet-IsValid env src s w }

  -- The client that joins is linked under its own key.
  own_link :
      (known : Bool) (links : IpRooms)
      → (known ≡ true → linked env.text (ip_key src) room links ≡ true)
      → linked env.text
          (key_ip env.text (src_str env src))
          room
          (grown env.text (ip_key src) room known links)
        ≡ true
  own_link known links h =
      rw (key_ip-to_string env.text src) (linked-grown env.text (ip_key src) room known links h)

  -- The caps were checked, for a client that is new.
  joined_room-IsValid :
      (s : Relay) (e e1 : RoomEntry) (info : UdpClient)
      → e1.udp_clients ≡ e.udp_clients
      → RoomInvariant.IsValid env.text (caps s.limits) e1
      → is_full env src e s ≡ false
      → at_prefix_cap env src e s ≡ false
      → RoomInvariant.IsValid env.text
          (caps s.limits)
          (with_client env.text (caps s.limits) e1 (src_str env src) info env.now)
  unfolding Map.contains count_prefix_clients has_ip
  joined_room-IsValid s e e1 info x v h p =
      elim (Option-cases (Map.get (src_str env src) e.udp_clients)) [
        | inl q ↦
            admitted-IsValid env.text (caps s.limits) e1 (src_str env src) info env.now (rw x q)
              (rw x (ground (arith, h, q)))
              (rw (x, key_ip-to_string env.text src) (ground (arith, p, q))) v
        | inr (old, q) ↦
            replaced-IsValid env.text (caps s.limits) e1 (src_str env src) info old env.now (rw x q)
              v
      ]

  joins-IsValid :
      (s : Relay) (e e1 : RoomEntry) (info : UdpClient) (known : Bool) (regs : ℕ)
      → Shards.find room_name room s.shards ≡ some e
      → e1.udp_clients ≡ e.udp_clients
      → RoomInvariant.IsValid env.text (caps s.limits) e1
      → is_full env src e s ≡ false
      → at_prefix_cap env src e s ≡ false
      → (known ≡ true → linked env.text (ip_key src) room s.ip_counts ≡ true)
      → IsValid env.text s
      → IsValid env.text
          (record (set_room room
            (with_client env.text (caps s.limits) e1 (src_str env src) info env.now)
            s) { ip_counts = grown env.text (ip_key src) room known s.ip_counts; stat_regs = regs })
  joins-IsValid s e e1 info known regs f x v h p k w =
      write_room-IsValid env room s e
        (with_client env.text (caps s.limits) e1 (src_str env src) info env.now)
        (grown env.text (ip_key src) room known s.ip_counts) regs f
        (joined_room-IsValid s e e1 info x v h p)
        (AreLinked-insert env.text room e
          (with_client env.text (caps s.limits) e1 (src_str env src) info env.now) (src_str env src)
          info s.ip_counts (grown env.text (ip_key src) room known s.ip_counts) (rw x refl)
          (own_link known s.ip_counts k) (grown-keeps env.text (ip_key src) room known s.ip_counts)
          (w.table.all_linked room e f))
        (grown-keeps env.text (ip_key src) room known s.ip_counts) w

  -- A client with the key of the source is in the room, so that the link is there.
  already_linked :
      (e : RoomEntry) (links : IpRooms)
      → AreLinked env.text room e links
      → Map.any (has_ip env.text (ip_key src)) e.udp_clients ≡ true
      → linked env.text (ip_key src) room links ≡ true
  unfolding has_ip
  already_linked e links a h =
      let (k, v, g, p) = Map.any-true (has_ip env.text (ip_key src)) e.udp_clients h in
      ground (arith, p, a k v g)

  other_linked :
      (e : RoomEntry) (info : UdpClient) (links : IpRooms)
      → AreLinked env.text room e links
      → Map.any (other_has_ip env src) (Map.insert (src_str env src) info e.udp_clients) ≡ true
      → linked env.text (ip_key src) room links ≡ true
  other_linked e info links a h =
      let m = Map.insert (src_str env src) info e.udp_clients in
      let (k, v, g, p) = Map.any-true (other_has_ip env src) m h in
      ground (arith, p, g, Map.get-insert (src_str env src) k info e.udp_clients, a k v)

  pub admit_completed-IsValid :
      (resolved : SocketAddr) (e0 : RoomEntry) (s0 : Relay)
      → Shards.find room_name room s0.shards ≡ some e0
      → IsValid env.text s0
      → Ok (admit_completed env room resolved src e0 s0)
  unfolding admit_completed
  admit_completed-IsValid resolved e0 s0 f w0 =
      let e = (sweep_room env room e0 s0).0 in
      let s = set_room room e (sweep_room env room e0 s0).1 in
      let w : IsValid env.text s = sweep_room-IsValid env room s0 e0 f w0 in
      let g : Shards.find room_name room s.shards ≡ some e =
        find-set_room env room e (sweep_room env room e0 s0).1 in
      if_elim Ok (is_full env src e s) _ _ (λ _. rejected s w)
        λ h.
          if_elim Ok
            (not (Map.any (has_ip env.text (ip_key src)) e.udp_clients) && at_ip_cap env src s) _ _
            (λ _. rejected s w)
            λ _.
              if_elim Ok (at_prefix_cap env src e s) _ _ (λ _. rejected s w)
                λ p. record {
                  ok =
                      joins-IsValid s e e (new_client env.now (some resolved)) _ _ g refl
                        (w.table.each room e g) h p
                        (already_linked e s.ip_counts (w.table.all_linked room e g)) w;
                }

  pub admit_matched-IsValid :
      (pend : PendingReg) (e0 : RoomEntry) (s0 : Relay)
      → Shards.find room_name room s0.shards ≡ some e0
      → IsValid env.text s0
      → Ok (admit_matched env room src pend e0 s0)
  unfolding admit_matched
  admit_matched-IsValid pend e0 s0 f w0 =
      let e = (sweep_room env room e0 s0).0 in
      let s = set_room room e (sweep_room env room e0 s0).1 in
      let w : IsValid env.text s = sweep_room-IsValid env room s0 e0 f w0 in
      let g : Shards.find room_name room s.shards ≡ some e =
        find-set_room env room e (sweep_room env room e0 s0).1 in
      let addr = src_str env src in
      let e1 = (remove_pending env.text e addr).0 in
      let info = new_client env.now (some pend.resolved_addr) in
      if_elim Ok (is_full env src e s) _ _ (λ _. rejected s w)
        λ h.
          if_elim Ok
            (not (Map.contains addr e.udp_clients)
              && (not (Map.any (has_ip env.text (ip_key src)) e.udp_clients)
                  && at_ip_cap env src s))
            _ _ (λ _. rejected s w)
            λ _.
              if_elim Ok (at_prefix_cap env src e s) _ _ (λ _. rejected s w)
                λ p. record {
                  ok =
                      joins-IsValid s e e1 info _ _ g (udp_clients-remove_pending env.text e addr)
                        (remove_pending-IsValid env.text (caps s.limits) e addr
                          (w.table.each room e g))
                        h p
                        (λ o.
                          other_linked e info s.ip_counts (w.table.all_linked room e g)
                            (rw⁻¹ (udp_clients-remove_pending env.text e addr) o))
                        w;
                }

  new_room-IsValid :
      (s : Relay) (resolved : SocketAddr)
      → IsSane s.limits
      → RoomInvariant.IsValid env.text (caps s.limits) (
          with_client env.text
            (caps s.limits)
            (Room.new env.now)
            (src_str env src)
            (new_client env.now (some resolved))
            env.now)
  new_room-IsValid s resolved sane =
      let l = caps s.limits in
      let addr = src_str env src in
      unfold Room.new in
      admitted-IsValid env.text l (Room.new env.now) addr (new_client env.now (some resolved))
        env.now (Map.get-empty addr)
        (ground (arith, sane.a_client, Map.len-empty Bytes UdpClient ⦃key = bytes_key⦄))
        (ground (
          arith,
          sane.a_prefix,
          Map.count-empty {V = UdpClient} (RoomInvariant.has_ip env.text (key_ip env.text addr)),
        ))
        (new-IsValid env.text l env.now)

  new_room_linked :
      (s : Relay) (resolved : SocketAddr)
      → AreLinked env.text room
          (with_client env.text
            (caps s.limits)
            (Room.new env.now)
            (src_str env src)
            (new_client env.now (some resolved))
            env.now)
          (grown env.text (ip_key src) room false s.ip_counts)
  unfolding Room.new
  new_room_linked s resolved =
      let addr = src_str env src in
      let info = new_client env.now (some resolved) in
      let links = grown env.text (ip_key src) room false s.ip_counts in
      AreLinked-insert env.text room (Room.new env.now)
        (with_client env.text (caps s.limits) (Room.new env.now) addr info env.now) addr info
        s.ip_counts links refl (own_link false s.ip_counts (λ h. absurd (ground (arith, h))))
        (grown-keeps env.text (ip_key src) room false s.ip_counts)
        (λ a i g. absurd (ground (arith, g, Map.get-empty {K = Bytes} {V = UdpClient} a)))

  -- A room that is created below the caps.
  pub create_room-IsValid :
      (resolved : SocketAddr) (s : Relay)
      → Shards.find room_name room s.shards ≡ none
      → IsValid env.text s
      → Ok (create_room env room resolved src s)
  unfolding create_room
  create_room-IsValid resolved s f w =
      let addr = src_str env src in
      let l = caps s.limits in
      let e =
        with_client env.text l (Room.new env.now) addr (new_client env.now (some resolved))
          env.now in
      let links = grown env.text (ip_key src) room false s.ip_counts in
      if_elim Ok (leb s.max_rooms s.total_room_count) _ _ (λ _. rejected s w)
        λ c.
          if_elim Ok (at_ip_cap env src s) _ _ (λ _. rejected s w)
            λ _. record {
              ok = record {
                sane = w.sane;
                table =
                    put_new env.text s.limits s.shards s.ip_counts links s.total_room_count room e f
                      (ground (arith, c)) w.sane.rooms_fit (new_room-IsValid s resolved w.sane)
                      (new_room_linked s resolved)
                      (λ j r _. grown-keeps env.text (ip_key src) room false s.ip_counts j r)
                      w.table;
                store = w.store;
              };
            }
