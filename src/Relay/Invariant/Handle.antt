-- ===== src/Relay/Invariant/Handle.antt =====
-- `handle_reg` of crates/qvole-relay/src/relay.rs, from the packet on, and the invariant of the
-- relay.
use qvole_rs.Base.Map
use qvole_rs.Base.{
  ℕ, ◌≡◌, refl, inl, inr, not, ◌||◌, some, arith, Bytes, bytes_key, length, ◌==◌, ◌*◌, ◌+◌,
  Option-cases, leb, if_elim,
}
use qvole_rs.Relay.Addr.{SocketAddr, ip_key, ip_key_instance}
use qvole_rs.Relay.Text.{is_valid_hex}
use qvole_rs.Relay.Cookie.{hex_decode}
use qvole_rs.Relay.Room
use qvole_rs.Relay.Room.{RoomEntry, UdpClient, PendingReg, add_pending, pending_cookie_bytes}
use qvole_rs.Relay.Room.Invariant.{add_pending-IsValid}
use qvole_rs.Relay.Room.Admit.{replaced-IsValid, renewed-IsValid}
use qvole_rs.Relay.Shards
use qvole_rs.Relay.Pending.{room_name, pending_count_for_ip}
use qvole_rs.Relay.State.{Relay, Env, is_reg_rate_limited}
use qvole_rs.Relay.Reg.{src_str, set_room, sweep_room, is_full, at_ip_cap, fresh}
use qvole_rs.Relay.Reg.Handler.{reg_room, reg_initial, reg_cookie_text, handle_reg}
use qvole_rs.Relay.Invariant.{IsValid, caps}
use qvole_rs.Relay.Invariant.Frame.{is_reg_rate_limited-IsValid}
use qvole_rs.Relay.Invariant.Admit.{
  set_room-IsValid, sweep_room-IsValid, find-set_room, write_room-IsValid, AreLinked-insert,
}
use qvole_rs.Relay.Invariant.Join.{rejected}
use qvole_rs.Relay.Invariant.Reg.{
  Acts, Sends, dropped, acted, challenge_new-IsValid, reg_cookie-IsValid,
}

udp_clients-add_pending :
    (env : Env) (e : RoomEntry) (src : Bytes) (p : PendingReg) (max : ℕ)
    → (add_pending env.text e src p max).0.udp_clients ≡ e.udp_clients
unfolding add_pending
udp_clients-add_pending env e src p max = ground arith

module _ (env : Env) (room : Bytes) (src : SocketAddr) where
  -- A client that is in the room is seen again.
  refreshed-IsValid :
      (s : Relay) (e : RoomEntry) (info info' : UdpClient) (regs : ℕ)
      → Shards.find room_name room s.shards ≡ some e
      → Map.get (src_str env src) e.udp_clients ≡ some info
      → IsValid env.text s
      → IsValid env.text
          (record (set_room room
            (record e { udp_clients = Map.insert (src_str env src) info' e.udp_clients })
            s) { stat_regs = regs })
  refreshed-IsValid s e info info' regs f g w =
      let e' = record e { udp_clients = Map.insert (src_str env src) info' e.udp_clients } in
      write_room-IsValid env room s e e' s.ip_counts regs f
        (replaced-IsValid env.text (caps s.limits) e (src_str env src) info' info e.t g
          (w.table.each room e f))
        (AreLinked-insert env.text room e e' (src_str env src) info' s.ip_counts s.ip_counts refl
          (w.table.all_linked room e f (src_str env src) info g) (λ j r x. x)
          (w.table.all_linked room e f))
        (λ j r x. x) w

  -- The room files a registration, new or renewed.
  filed-IsValid :
      (s : Relay) (e : RoomEntry)
      → Shards.find room_name room s.shards ≡ some e
      → IsValid env.text s
      → IsValid env.text (
          set_room room
            (add_pending env.text e (src_str env src) (fresh env src) s.max_pending_per_room).0
            s)
  filed-IsValid s e f w =
      let p = fresh env src in
      let addr = src_str env src in
      set_room-IsValid env room s e (add_pending env.text e addr p s.max_pending_per_room).0 f
        (add_pending-IsValid env.text (caps s.limits) e addr p (w.table.each room e f))
        (λ a i g.
          w.table.all_linked room e f a i
            (rw⁻¹ (udp_clients-add_pending env e addr p s.max_pending_per_room) g))
        w

  reg_room-IsValid :
      (e0 : RoomEntry) (s0 : Relay)
      → Shards.find room_name room s0.shards ≡ some e0
      → IsValid env.text s0
      → Acts env room src (reg_room env room src e0 s0)
  unfolding reg_room
  reg_room-IsValid e0 s0 f w0 =
      let e = (sweep_room env room e0 s0).0 in
      let s = set_room room e (sweep_room env room e0 s0).1 in
      let w : IsValid env.text s = sweep_room-IsValid env room s0 e0 f w0 in
      let g : Shards.find room_name room s.shards ≡ some e =
        find-set_room env room e (sweep_room env room e0 s0).1 in
      let addr = src_str env src in
      if_elim (Acts env room src) (is_full env src e s) _ _ (λ _. rejected env room src s w)
        λ _. elim (Option-cases (Map.get addr e.udp_clients)) [
          | inr (info, q) ↦ rw q (record { ok = refreshed-IsValid s e info _ _ g q w })
          | inl q ↦ elim (Option-cases (Map.get addr e.pending)) [
            | inr (pend, h) ↦
                rw (q, h)
                  record {
                    ok =
                        set_room-IsValid env room s e _ g
                          (renewed-IsValid env.text (caps s.limits) e addr _ pend h
                            (w.table.each room e g))
                          (w.table.all_linked room e g) w;
                  }
            | inl h ↦
                rw (q, h)
                  (if_elim (Acts env room src)
                    (leb s.max_pending_per_ip (
                      pending_count_for_ip env.text s.store (ip_key src)
                      + Room.pending_count_for_ip e (ip_key src)))
                    _ _ (λ _. rejected env room src s w)
                    (λ _.
                      if_elim (Acts env room src)
                        (add_pending env.text e addr (fresh env src) s.max_pending_per_room).1 _ _
                        (λ _. record { ok = filed-IsValid s e g w })
                        (λ _. rejected env room src s w)))
          ]
        ]

  reg_initial-IsValid :
      (s : Relay) → IsValid env.text s → Sends env room src (reg_initial env room src s)
  unfolding reg_initial
  reg_initial-IsValid s w =
      if_elim (Sends env room src) (at_ip_cap env src s) _ _ (λ _. dropped env room src s w)
        λ _. elim (Option-cases (Shards.find room_name room s.shards)) [
          | inl q ↦ rw q (challenge_new-IsValid env room src s w)
          | inr (e, q) ↦ rw q (acted env room src _ (reg_room-IsValid e s q w))
        ]

  reg_cookie_text-IsValid :
      (cookie : Bytes) (s : Relay)
      → IsValid env.text s
      → Sends env room src (reg_cookie_text env room cookie src s)
  unfolding reg_cookie_text
  reg_cookie_text-IsValid cookie s w =
      if_elim (Sends env room src)
        (not (is_valid_hex cookie) || not (length cookie == pending_cookie_bytes * 2)) _ _
        (λ _. dropped env room src s w)
        λ _. elim (Option-cases (hex_decode cookie)) [
          | inl q ↦ rw q (dropped env room src s w)
          | inr (c, q) ↦ rw q (reg_cookie-IsValid env room src c s w)
        ]

  -- A relay that satisfies its invariant satisfies it again after handle_reg, on every branch,
  -- whatever room and cookie text it is given.
  pub handle_reg-IsValid :
      (cookie : Bytes) (s0 : Relay)
      → IsValid env.text s0
      → Sends env room src (handle_reg env room cookie src s0)
  unfolding handle_reg
  handle_reg-IsValid cookie s0 w0 =
      let r = is_reg_rate_limited env (env.text.ip_to_string (ip_key src)) s0 in
      let w : IsValid env.text r.0 =
        is_reg_rate_limited-IsValid env (env.text.ip_to_string (ip_key src)) s0 w0 in
      if_elim (Sends env room src) r.1 _ _ (λ _. dropped env room src r.0 w)
        λ _.
          if_elim (Sends env room src) (not (length cookie == 0)) _ _
            (λ _. reg_cookie_text-IsValid cookie r.0 w) (λ _. reg_initial-IsValid r.0 w)
