-- ===== src/Relay/Invariant/Run.antt =====
-- The events of the server loop of crates/qvole-relay/src/relay.rs, and the invariant of the relay.
use qvole_rs.Base.Map
use qvole_rs.Base.Split.{splitn}
use qvole_rs.Base.{
  ◌≡◌, refl, sym, subst, inl, inr, not, ◌||◌, some, List, [], ◌∷◌, Bytes, bytes, bytes_key, length,
  ltb, ◌==◌, drop, Option-cases, if_elim, All,
}
use qvole_rs.Relay.Addr.{SocketAddr, AddrText, ip_key_instance}
use qvole_rs.Relay.Text.{valid_room_name, is_valid_hex, trim_ascii_space, max_datagram_len}
use qvole_rs.Relay.RateLimiter
use qvole_rs.Relay.Room.{RoomEntry, UdpClient}
use qvole_rs.Relay.Room.Admit.{replaced-IsValid}
use qvole_rs.Relay.Shards
use qvole_rs.Relay.Pending.{room_name}
use qvole_rs.Relay.Pending.Sweep.{remove_stale_pending_regs-IsValid}
use qvole_rs.Relay.State.{Relay, Env, write_relay, msg_rate}
use qvole_rs.Relay.Evict.{evict_stale_rooms_all}
use qvole_rs.Relay.Reg.{src_str, set_room}
use qvole_rs.Relay.Msg.{
  handle_msg, msg_parts, msg_from, relay_msg, write_all, is_phase, max_msg_body_len, targets,
  msgd_message, dispatch,
}
use qvole_rs.Relay.Packet.{handle_packet, reg_packet, reg_parts, is_command, cmd_prefix_len}
use qvole_rs.Relay.Server.{Event, step, run, rate_tick, room_tick, queue_full}
use qvole_rs.Relay.Invariant.{IsValid, Keeps, caps}
use qvole_rs.Relay.Invariant.Frame.{write_relay-IsValid}
use qvole_rs.Relay.Invariant.Admit.{set_room-IsValid, AreLinked-insert}
use qvole_rs.Relay.Invariant.Reg.{Sends, dropped, evict_stale_rooms_all-IsValid}
use qvole_rs.Relay.Invariant.Handle.{handle_reg-IsValid}

module _ (env : Env) where
  write_all-IsValid :
      (msg : Bytes) (ts : List SocketAddr) (s : Relay)
      → IsValid env.text s
      → IsValid env.text (write_all env msg ts s).0
  unfolding write_all
  write_all-IsValid msg [] s w = w
  write_all-IsValid msg (t ∷ ts) s w =
      write_all-IsValid msg ts (write_relay env msg t s).0 (write_relay-IsValid env msg t s w)

  relay_msg-IsValid :
      (phase body : Bytes) (ts : List SocketAddr) (s : Relay)
      → IsValid env.text s
      → IsValid env.text (relay_msg env phase body ts s).0
  unfolding relay_msg
  relay_msg-IsValid phase body [] s w = write_all-IsValid (msgd_message phase body) [] s w
  relay_msg-IsValid phase body (t ∷ ts) s w =
      let v = write_all-IsValid (msgd_message phase body) (t ∷ ts) s w in
      record { sane = v.sane; table = v.table; store = v.store }

  module _ (src : SocketAddr) where
    -- The budget of a client of the room is charged.
    charged-IsValid :
        (room : Bytes) (s : Relay) (e : RoomEntry) (info info' : UdpClient)
        → Shards.find room_name room s.shards ≡ some e
        → Map.get (src_str env src) e.udp_clients ≡ some info
        → IsValid env.text s
        → IsValid env.text (
            set_room room
              (record e { udp_clients = Map.insert (src_str env src) info' e.udp_clients })
              s)
    charged-IsValid room s e info info' f g w =
        let e' = record e { udp_clients = Map.insert (src_str env src) info' e.udp_clients } in
        set_room-IsValid env room s e e' f
          (replaced-IsValid env.text (caps s.limits) e (src_str env src) info' info e.t g
            (w.table.each room e f))
          (AreLinked-insert env.text room e e' (src_str env src) info' s.ip_counts s.ip_counts refl
            (w.table.all_linked room e f (src_str env src) info g) (λ j r x. x)
            (w.table.all_linked room e f))
          w

    msg_from-IsValid :
        (room phase body : Bytes) (e : RoomEntry) (info : UdpClient) (s0 : Relay)
        → Shards.find room_name room s0.shards ≡ some e
        → Map.get (src_str env src) e.udp_clients ≡ some info
        → IsValid env.text s0
        → Sends env room src (msg_from env room phase body src e info s0)
    unfolding msg_from
    msg_from-IsValid room phase body e info s0 f g w0 =
        let r = RateLimiter.is_limited info.rate_limiter env.now s0.rate_window (msg_rate s0) in
        let e' = record e {
          udp_clients =
              Map.insert (src_str env src) (record info { rate_limiter = r.0 }) e.udp_clients;
        } in
        let s = set_room room e' s0 in
        let w : IsValid env.text s =
          charged-IsValid room s0 e info (record info { rate_limiter = r.0 }) f g w0 in
        if_elim (Sends env room src) r.1 _ _ (λ _. dropped env room src s w)
          λ _. record {
            ok =
                relay_msg-IsValid phase body
                  (targets (src_str env src) (Map.to_list e'.udp_clients)) s w;
          }

    msg_parts-IsValid :
        (room phase body : Bytes) (s : Relay)
        → IsValid env.text s
        → Sends env room src (msg_parts env room phase body src s)
    unfolding msg_parts
    msg_parts-IsValid room phase body s w =
        if_elim (Sends env room src) (not (is_phase phase)) _ _ (λ _. dropped env room src s w)
          λ _.
            if_elim (Sends env room src) (not (valid_room_name room)) _ _
              (λ _. dropped env room src s w)
              λ _.
                if_elim (Sends env room src)
                  (not (is_valid_hex body) || ltb max_msg_body_len (length body)) _ _
                  (λ _. dropped env room src s w)
                  λ _. elim (Option-cases (Shards.find room_name room s.shards)) [
                    | inl q ↦ rw q (dropped env room src s w)
                    | inr (e, q) ↦ elim (Option-cases (Map.get (src_str env src) e.udp_clients)) [
                      | inl g ↦ rw (q, g) (dropped env room src s w)
                      | inr (info, g) ↦ rw (q, g) (msg_from-IsValid room phase body e info s q g w)
                    ]
                  ]

    split_msg-IsValid :
        (parts : List Bytes) (s : Relay)
        → IsValid env.text s
        → Keeps env.text (dispatch env parts src s)
    split_msg-IsValid [] s w = dropped env [] src s w
    split_msg-IsValid (a ∷ []) s w = dropped env [] src s w
    split_msg-IsValid (a ∷ b ∷ []) s w = dropped env [] src s w
    split_msg-IsValid (a ∷ b ∷ c ∷ []) s w = msg_parts-IsValid a b c s w
    split_msg-IsValid (a ∷ b ∷ c ∷ d ∷ rest) s w = dropped env [] src s w

    handle_msg-IsValid :
        (payload : Bytes) (s : Relay)
        → IsValid env.text s
        → Keeps env.text (handle_msg env payload src s)
    unfolding handle_msg
    handle_msg-IsValid payload s w = split_msg-IsValid (splitn 3 b' ' payload) s w

    reg_packet-IsValid :
        (rest : Bytes) (s : Relay) → IsValid env.text s → Keeps env.text (reg_packet env rest src s)
    unfolding reg_packet
    reg_packet-IsValid rest s w =
        let room = (reg_parts rest).0 in
        if_elim (Sends env room src) (length room == 0) _ _ (λ _. dropped env room src s w)
          λ _.
            if_elim (Sends env room src) (not (valid_room_name room)) _ _
              (λ _. dropped env room src s w)
              λ _. handle_reg-IsValid env room src (reg_parts rest).1 s w

    -- A relay that satisfies its invariant satisfies it again after handle_packet, whatever the
    -- datagram holds and wherever it comes from.
    pub handle_packet-IsValid :
        (datagram : Bytes) (s : Relay)
        → IsValid env.text s
        → Keeps env.text (handle_packet env datagram src s)
    unfolding handle_packet
    handle_packet-IsValid datagram s w =
        let trimmed = trim_ascii_space datagram in
        if_elim (Sends env [] src) (length datagram == 0 || ltb max_datagram_len (length datagram))
          _ _ (λ _. dropped env [] src s w)
          λ _.
            if_elim (Sends env [] src) (is_command (bytes "REG ") trimmed) _ _
              (λ _. reg_packet-IsValid (trim_ascii_space (drop cmd_prefix_len trimmed)) s w)
              λ _.
                if_elim (Sends env [] src) (is_command (bytes "MSG ") trimmed) _ _
                  (λ _. handle_msg-IsValid (drop cmd_prefix_len trimmed) s w)
                  λ _. dropped env [] src s w

  -- So it does after a tick of the cleanup task, and after a packet that found the queue full.
  pub step-IsValid :
      (event : Event) (s : Relay) → IsValid env.text s → IsValid env.text (step env event s).0
  unfolding step rate_tick room_tick queue_full evict_stale_rooms_all
  step-IsValid (Event.packet datagram src) s w = (handle_packet-IsValid src datagram s w).ok
  step-IsValid Event.lost s w = record { sane = w.sane; table = w.table; store = w.store }
  step-IsValid Event.rate s w = record { sane = w.sane; table = w.table; store = w.store }
  step-IsValid Event.room s w =
      let v = evict_stale_rooms_all-IsValid env s w in
      record {
        sane = v.sane;
        table = v.table;
        store =
            remove_stale_pending_regs-IsValid env.text (evict_stale_rooms_all env s).store
              s.max_pending_global env.now w.sane.pending_fits v.store;
      }

-- In any history, of any packets at any instants, every state of the relay satisfies the invariant.
pub run-IsValid :
    (text : AddrText) (events : List (Env × Event)) (s : Relay)
    → All (λ x. x.0.text ≡ text) events
    → IsValid text s
    → IsValid text (run events s).0
unfolding run
run-IsValid text [] s a w = w
run-IsValid text ((env, event) ∷ events) s a w = run-IsValid text events (step env event s).0 a.1 (
    subst (λ t. IsValid t (step env event s).0) a.0
      (step-IsValid env event s (subst (λ t. IsValid t s) (sym a.0) w)))
