-- ===== src/Relay/Msg/Targets.antt =====
-- Whom `handle_msg` of crates/qvole-relay/src/relay.rs writes to.
use qvole_rs.Base.Map
use qvole_rs.Base.Split.{splitn}
use qvole_rs.Base.{
  ◌≡◌, ◌≢◌, inl, inr, true, false, not, ◌||◌, some, List, [], ◌∷◌, arith, Bytes, bytes_key, length,
  ltb, Option-cases, if_elim, All, All-append, Bytes-discrete, eqb,
}
use qvole_rs.Relay.Addr.{SocketAddr}
use qvole_rs.Relay.Text.{valid_room_name, is_valid_hex}
use qvole_rs.Relay.RateLimiter
use qvole_rs.Relay.Room.{RoomEntry, UdpClient}
use qvole_rs.Relay.Shards
use qvole_rs.Relay.Pending.{room_name}
use qvole_rs.Relay.State.{Relay, Env, Datagram, Written, write_relay, write_result, msg_rate}
use qvole_rs.Relay.Reg.{src_str, set_room, drop_only}
use qvole_rs.Relay.Msg.{
  handle_msg, dispatch, msg_parts, msg_from, relay_msg, write_all, is_phase, max_msg_body_len,
  targets, msgd_message,
}

-- What left satisfies a predicate.
record Only (P : Datagram → Type 0) (r : Relay × List Datagram) : Type 0 where
  pub sent : All P r.1

-- A datagram to the address of another client of a room in which the sender is a client.
abbrev pub IsForPeer : Env → SocketAddr → Relay → Datagram → Type 0
IsForPeer env src s (to, _) =
    (room : Bytes) × (e : RoomEntry) × (me : UdpClient) × (peer : Bytes) × (info : UdpClient)
    × (Shards.find room_name room s.shards ≡ some e)
    × (Map.get (src_str env src) e.udp_clients ≡ some me)
    × (Map.get peer e.udp_clients ≡ some info)
    × (peer ≢ src_str env src)
    × (info.resolved_addr ≡ some to)

write_result-All :
    (P : Datagram → Type 0) (w : Written) (msg : Bytes) (t : SocketAddr) (s : Relay)
    → P (t, msg)
    → All P (write_result w msg t s).2
write_result-All P Written.sent msg t s p = (p, tt)
write_result-All P Written.full msg t s p = tt
write_result-All P Written.failed msg t s p = tt

write_all-All :
    (P : Datagram → Type 0) (env : Env) (msg : Bytes) (ts : List SocketAddr) (s : Relay)
    → All (λ t. P (t, msg)) ts
    → All P (write_all env msg ts s).1
unfolding write_all write_relay
write_all-All P env msg [] s a = tt
write_all-All P env msg (t ∷ ts) s a =
    All-append P (write_relay env msg t s).2 (write_all env msg ts (write_relay env msg t s).0).1
      (write_result-All P (env.write t) msg t s a.0)
      (write_all-All P env msg ts (write_relay env msg t s).0 a.1)

targets-All :
    (P : SocketAddr → Type 0) (sender : Bytes) (clients : List (Bytes × UdpClient))
    → All (λ c. (a : SocketAddr) → c.0 ≢ sender → c.1.resolved_addr ≡ some a → P a) clients
    → All P (targets sender clients)
unfolding targets
targets-All P sender [] h = tt
targets-All P sender ((addr, info) ∷ clients) h = elim (Bytes-discrete addr sender) [
  | yes q ↦
      let same : eqb addr sender ≡ true = ground arith in rw same (targets-All P sender clients h.1)
  | no n ↦
      let other : eqb addr sender ≡ false = ground arith in
      elim (Option-cases info.resolved_addr) [
        | inl q ↦ rw (other, q) (targets-All P sender clients h.1)
        | inr (a, q) ↦ rw (other, q) (h.0 a n q, targets-All P sender clients h.1)
      ]
]

module _ (env : Env) (src : SocketAddr) (s0 : Relay) where
  abbrev Fair : Relay × List Datagram → Type 0
  Fair r = Only (IsForPeer env src s0) r

  nothing : (s : Relay) → Fair (drop_only env src s)
  nothing s = record { sent = tt }

  relay_msg-All :
      (phase body : Bytes) (ts : List SocketAddr) (s : Relay)
      → All (λ t. IsForPeer env src s0 (t, msgd_message phase body)) ts
      → Fair (relay_msg env phase body ts s)
  unfolding relay_msg
  relay_msg-All phase body ts s a = record {
    sent = write_all-All (IsForPeer env src s0) env (msgd_message phase body) ts s a;
  }

  msg_from-All :
      (room phase body : Bytes) (e : RoomEntry) (me : UdpClient)
      → Shards.find room_name room s0.shards ≡ some e
      → Map.get (src_str env src) e.udp_clients ≡ some me
      → Fair (msg_from env room phase body src e me s0)
  unfolding msg_from
  msg_from-All room phase body e me f g =
      let r = RateLimiter.is_limited me.rate_limiter env.now s0.rate_window (msg_rate s0) in
      let me' = record me { rate_limiter = r.0 } in
      let clients = Map.insert (src_str env src) me' e.udp_clients in
      let s = set_room room (record e { udp_clients = clients }) s0 in
      if_elim Fair r.1 _ _ (λ _. nothing s)
        λ _. relay_msg-All phase body (targets (src_str env src) (Map.to_list clients)) s (
          targets-All (λ t. IsForPeer env src s0 (t, msgd_message phase body)) (src_str env src)
            (Map.to_list clients)
            (Map.to_list-All
              (λ c.
                (a : SocketAddr)
                → c.0 ≢ src_str env src
                → c.1.resolved_addr ≡ some a
                → IsForPeer env src s0 (a, msgd_message phase body))
              clients
              λ peer info h a n q. (
                room,
                e,
                me,
                peer,
                info,
                f,
                g,
                ground (arith, h, n, Map.get-insert (src_str env src) peer me' e.udp_clients),
                n,
                q,
              )))

  msg_parts-All : (room phase body : Bytes) → Fair (msg_parts env room phase body src s0)
  unfolding msg_parts
  msg_parts-All room phase body =
      if_elim Fair (not (is_phase phase)) _ _ (λ _. nothing s0)
        λ _.
          if_elim Fair (not (valid_room_name room)) _ _ (λ _. nothing s0)
            λ _.
              if_elim Fair (not (is_valid_hex body) || ltb max_msg_body_len (length body)) _ _
                (λ _. nothing s0)
                λ _. elim (Option-cases (Shards.find room_name room s0.shards)) [
                  | inl q ↦ rw q (nothing s0)
                  | inr (e, q) ↦ elim (Option-cases (Map.get (src_str env src) e.udp_clients)) [
                    | inl g ↦ rw (q, g) (nothing s0)
                    | inr (me, g) ↦ rw (q, g) (msg_from-All room phase body e me q g)
                  ]
                ]

  dispatch-All : (parts : List Bytes) → Fair (dispatch env parts src s0)
  dispatch-All [] = nothing s0
  dispatch-All (a ∷ []) = nothing s0
  dispatch-All (a ∷ b ∷ []) = nothing s0
  dispatch-All (room ∷ phase ∷ body ∷ []) = msg_parts-All room phase body
  dispatch-All (a ∷ b ∷ c ∷ d ∷ rest) = nothing s0

-- Every datagram that handle_msg writes goes to the resolved address of a client, other than the
-- sender, of a room in which the sender is a client.
pub handle_msg-IsForPeer :
    (env : Env) (payload : Bytes) (src : SocketAddr) (s : Relay)
    → All (IsForPeer env src s) (handle_msg env payload src s).1
unfolding handle_msg
handle_msg-IsForPeer env payload src s = (dispatch-All env src s (splitn 3 b' ' payload)).sent
