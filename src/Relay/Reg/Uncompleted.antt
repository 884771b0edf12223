-- ===== src/Relay/Reg/Uncompleted.antt =====
-- A REG without a cookie, in `handle_reg` of crates/qvole-relay/src/relay.rs, and the clients of the
-- rooms.
use qvole_rs.Base.Map
use qvole_rs.Base.{
  ℕ, ◌≡◌, refl, sym, ◌∙◌, subst, inl, inr, Bool, true, false, some, List, [], ◌+◌, arith, Bytes,
  bytes_key, Bytes-discrete, Option-cases, if_elim, leb,
}
use qvole_rs.Relay.Addr.{SocketAddr, ip_key, ip_key_instance}
use qvole_rs.Relay.Action.{RegAction}
use qvole_rs.Relay.Room
use qvole_rs.Relay.Room.{RoomEntry, UdpClient, PendingReg, add_pending}
use qvole_rs.Relay.Room.Links.{get-remove_stale_clients}
use qvole_rs.Relay.Shards
use qvole_rs.Relay.Shards.{Shards}
use qvole_rs.Relay.Pending.{room_name, pending_count_for_ip, store_pending_reg}
use qvole_rs.Relay.State.{
  Relay, Env, Datagram, Written, drop_packet, log_write_error, is_reg_rate_limited, write_relay,
  write_result, after_write, send_regd, send_reg_challenge,
}
use qvole_rs.Relay.Reg.{
  src_str, set_room, sweep_room, is_full, at_ip_cap, fresh, perform, drop_only, reject,
  challenge_new,
}
use qvole_rs.Relay.Reg.Handler.{reg_room, reg_initial, handle_reg}

-- A client of the room, in a table.
abbrev pub IsClient : Bytes → Bytes → Shards Bytes RoomEntry → Type 0
IsClient room addr rooms =
    (e : RoomEntry) × (info : UdpClient) × (Shards.find room_name room rooms ≡ some e)
    × (Map.get addr e.udp_clients ≡ some info)

-- Every client was a client of the same room before.
record NoNew {A : Type 0} (s0 : Relay) (r : Relay × A) : Type 0 where
  sub : (room addr : Bytes) → IsClient room addr r.0.shards → IsClient room addr s0.shards

put-sub :
    (s0 : Relay) (rooms : Shards Bytes RoomEntry) (room : Bytes) (e : RoomEntry)
    → ((addr : Bytes) (info : UdpClient)
        → Map.get addr e.udp_clients ≡ some info
        → IsClient room addr s0.shards)
    → ((r addr : Bytes) → IsClient r addr rooms → IsClient r addr s0.shards)
    → (r addr : Bytes) → IsClient r addr (Shards.put room_name room e rooms)
    → IsClient r addr s0.shards
put-sub s0 rooms room e new old r addr (e', info, f, g) = elim (Bytes-discrete room r) [
  | yes q ↦
      let same : e ≡ e' = ground (arith, f, Shards.find-put room_name room r e rooms) in
      subst (λ x. IsClient x addr s0.shards) q
        (new addr info (subst (λ x. Map.get addr x.udp_clients ≡ some info) (sym same) g))
  | no n ↦ old r addr (e', info, ground (arith, f, Shards.find-put room_name room r e rooms), g)
]

module _ (env : Env) (src : SocketAddr) (s0 : Relay) where
  same_shards : {A : Type 0} (r : Relay × A) → r.0.shards ≡ s0.shards → NoNew s0 r
  same_shards r h = record { sub = λ room addr c. subst (IsClient room addr) h c }

  shards-write_result :
      (w : Written) (msg : Bytes) (a : SocketAddr) (s : Relay)
      → (write_result w msg a s).0.shards ≡ s.shards
  shards-write_result Written.sent msg a s = refl
  shards-write_result Written.full msg a s = refl
  shards-write_result Written.failed msg a s = refl

  shards-after_write :
      (r : Relay × Bool × List Datagram) → (after_write env src r).0.shards ≡ r.0.shards
  unfolding log_write_error
  shards-after_write (s, true, out) = refl
  shards-after_write (s, false, out) = refl

  shards-challenge :
      (room cookie : Bytes) (s : Relay)
      → (send_reg_challenge env room cookie src s).0.shards ≡ s.shards
  unfolding send_reg_challenge write_relay
  shards-challenge room cookie s =
      shards-after_write _ ∙ shards-write_result (env.write src) _ src s

  shards-perform :
      (room : Bytes) (r : Relay × RegAction) → (perform env room src r).0.shards ≡ r.0.shards
  unfolding perform send_regd write_relay
  shards-perform room (s, RegAction.regd) =
      shards-after_write _ ∙ shards-write_result (env.write src) _ src s
  shards-perform room (s, RegAction.challenge c) = shards-challenge room c s
  shards-perform room (s, RegAction.none) = refl

  shards-drop : (s : Relay) → (drop_packet env src s).shards ≡ s.shards
  unfolding drop_packet log_write_error
  shards-drop s = refl

  dropped-NoNew : (s : Relay) → s.shards ≡ s0.shards → NoNew s0 (drop_only env src s)
  dropped-NoNew s h = same_shards (drop_only env src s) (shards-drop s ∙ h)

  challenge_new-NoNew :
      (room : Bytes) (s : Relay) → s.shards ≡ s0.shards → NoNew s0 (challenge_new env room src s)
  unfolding challenge_new
  challenge_new-NoNew room s h =
      let r =
        store_pending_reg env.text s.store s.max_pending_global room (src_str env src)
          (fresh env src) in
      let s' = record s { store = r.0 } in
      if_elim (NoNew s0)
        (leb s.max_pending_per_ip (pending_count_for_ip env.text s.store (ip_key src))) _ _
        (λ _. dropped-NoNew s h)
        λ _.
          if_elim (NoNew s0) r.1 _ _
            (λ _.
              same_shards (send_reg_challenge env room env.cookie src s')
                (shards-challenge room env.cookie s' ∙ h))
            (λ _. dropped-NoNew s' h)

  performed-NoNew :
      (room : Bytes) (r : Relay × RegAction) → NoNew s0 r → NoNew s0 (perform env room src r)
  performed-NoNew room r n = record {
    sub = λ ro addr c. n.sub ro addr (subst (IsClient ro addr) (shards-perform room r) c);
  }

  module _ (room : Bytes) (s : Relay) (e0 : RoomEntry) where
    abbrev swept : RoomEntry
    swept = (sweep_room env room e0 s).0

    abbrev after : Relay
    after = set_room room swept (sweep_room env room e0 s).1

    -- A client that the sweep leaves was there.
    swept-IsClient :
        (addr : Bytes) (info : UdpClient)
        → s.shards ≡ s0.shards
        → Shards.find room_name room s.shards ≡ some e0
        → Map.get addr swept.udp_clients ≡ some info
        → IsClient room addr s0.shards
    unfolding sweep_room
    swept-IsClient addr info h f g = (
      e0,
      info,
      subst (λ x. Shards.find room_name room x ≡ some e0) h f,
      ground (arith, g, get-remove_stale_clients env.text e0 room env.now s.reg_ttl addr),
    )

    after-sub :
        (r addr : Bytes)
        → s.shards ≡ s0.shards
        → Shards.find room_name room s.shards ≡ some e0
        → IsClient r addr after.shards
        → IsClient r addr s0.shards
    unfolding sweep_room
    after-sub r addr h f c =
        put-sub s0 s.shards room swept (λ a i g. swept-IsClient a i h f g)
          (λ ro a d. subst (IsClient ro a) h d) r addr c

    rejected-NoNew :
        s.shards ≡ s0.shards
        → Shards.find room_name room s.shards ≡ some e0
        → NoNew s0 (reject env src after)
    rejected-NoNew h f = record {
      sub = λ r addr c. after-sub r addr h f (subst (IsClient r addr) (shards-drop after) c);
    }

    -- The room is written once more, with clients that it had.
    written-NoNew :
        {A : Type 0} (x : Relay × A) (e : RoomEntry)
        → s.shards ≡ s0.shards
        → Shards.find room_name room s.shards ≡ some e0
        → x.0.shards ≡ Shards.put room_name room e after.shards
        → ((addr : Bytes) (info : UdpClient)
            → Map.get addr e.udp_clients ≡ some info
            → (i : UdpClient) × (Map.get addr swept.udp_clients ≡ some i))
        → NoNew s0 x
    written-NoNew x e h f same sub = record {
      sub = λ r addr c.
          put-sub s0 after.shards room e
            (λ a i g. let (j, q) = sub a i g in swept-IsClient a j h f q)
            (λ ro a d. after-sub ro a h f d) r addr (subst (IsClient r addr) same c);
    }

    clients-add_pending :
        (e : RoomEntry) (p : PendingReg) (max : ℕ)
        → (add_pending env.text e (src_str env src) p max).0.udp_clients ≡ e.udp_clients
    unfolding add_pending
    clients-add_pending e p max = ground arith

    again :
        (a : Bytes) (i info info' : UdpClient)
        → Map.get (src_str env src) swept.udp_clients ≡ some info
        → Map.get a (Map.insert (src_str env src) info' swept.udp_clients) ≡ some i
        → (j : UdpClient) × (Map.get a swept.udp_clients ≡ some j)
    again a i info info' q g = elim (Bytes-discrete (src_str env src) a) [
      | yes e ↦ (info, subst (λ x. Map.get x swept.udp_clients ≡ some info) e q)
      | no n ↦ (i, ground (arith, g, Map.get-insert (src_str env src) a info' swept.udp_clients))
    ]

    reg_room-NoNew :
        s.shards ≡ s0.shards
        → Shards.find room_name room s.shards ≡ some e0
        → NoNew s0 (reg_room env room src e0 s)
    unfolding reg_room
    reg_room-NoNew h f =
        let addr = src_str env src in
        if_elim (NoNew s0) (is_full env src swept after) _ _ (λ _. rejected-NoNew h f)
          λ _. elim (Option-cases (Map.get addr swept.udp_clients)) [
            | inr (info, q) ↦ rw q (written-NoNew _ _ h f refl (λ a i g. again a i info _ q g))
            | inl q ↦ elim (Option-cases (Map.get addr swept.pending)) [
              | inr (pend, k) ↦ rw (q, k) (written-NoNew _ _ h f refl (λ a i g. (i, g)))
              | inl k ↦
                  rw (q, k)
                    (if_elim (NoNew s0)
                      (leb after.max_pending_per_ip (
                        pending_count_for_ip env.text after.store (ip_key src)
                        + Room.pending_count_for_ip swept (ip_key src)))
                      _ _ (λ _. rejected-NoNew h f)
                      (λ _.
                        if_elim (NoNew s0)
                          (add_pending env.text swept addr (fresh env src)
                            after.max_pending_per_room).1
                          _ _
                          (λ _. written-NoNew _ _ h f refl (λ a i g. (
                            i,
                            subst (λ m. Map.get a m ≡ some i)
                                (clients-add_pending swept (fresh env src)
                                  after.max_pending_per_room)
                                g,
                          )))
                          (λ _. rejected-NoNew h f)))
            ]
          ]

  reg_initial-NoNew :
      (room : Bytes) (s : Relay) → s.shards ≡ s0.shards → NoNew s0 (reg_initial env room src s)
  unfolding reg_initial
  reg_initial-NoNew room s h =
      if_elim (NoNew s0) (at_ip_cap env src s) _ _ (λ _. dropped-NoNew s h)
        λ _. elim (Option-cases (Shards.find room_name room s.shards)) [
          | inl q ↦ rw q (challenge_new-NoNew room s h)
          | inr (e, q) ↦ rw q (performed-NoNew room _ (reg_room-NoNew room s e h q))
        ]

  handle_reg-NoNew : (room : Bytes) → NoNew s0 (handle_reg env room [] src s0)
  unfolding handle_reg is_reg_rate_limited
  handle_reg-NoNew room =
      let r = is_reg_rate_limited env (env.text.ip_to_string (ip_key src)) s0 in
      if_elim (NoNew s0) r.1 _ _ (λ _. dropped-NoNew r.0 refl) λ _. reg_initial-NoNew room r.0 refl

-- A REG without a cookie admits nobody: an address that was not a client of a room before
-- handle_reg, given an empty cookie, is not a client of it after.
pub handle_reg-uncompleted :
    (env : Env) (room : Bytes) (src : SocketAddr) (s : Relay) (r addr : Bytes)
    → ¬ IsClient r addr s.shards
    → ¬ IsClient r addr (handle_reg env room [] src s).0.shards
handle_reg-uncompleted env room src s r addr absent c =
    absent ((handle_reg-NoNew env src s room).sub r addr c)
