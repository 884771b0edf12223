-- ===== src/Relay/Room/Invariant.antt =====
-- The invariant of a room of crates/qvole-relay/src/room.rs between two operations: its per-address
-- counts and its caps.
use qvole_rs.Base.Map
use qvole_rs.Base.{ℕ, ◌≤◌, ◌≡◌, Bool, not, List, [], ◌∷◌, arith, Bytes, bytes_key, eqb}
use qvole_rs.Relay.Addr.{IpAddr, AddrText, key_ip, ip_key_instance}
use qvole_rs.Relay.Tally.{tally, tally-bump, tally-lower}
use qvole_rs.Relay.Room.{
  RoomEntry, PendingReg, add_pending, remove_pending, remove_all_pending, remove_stale_clients,
  is_stale, is_expired,
}

-- The test of `count_prefix_clients`.
abbrev pub has_ip {ℓ} : {V : Type ℓ} → AddrText → IpAddr → Bytes → V → Bool
has_ip text ip src v = eqb (key_ip text src) ip

abbrev pub IsCounted : AddrText → RoomEntry → Type 0
IsCounted text e = (ip : IpAddr) → tally ip e.pending_by_ip ≡ Map.count (has_ip text ip) e.pending

add_pending-IsCounted :
    (text : AddrText) (e : RoomEntry) (src : Bytes) (p : PendingReg) (max : ℕ)
    → IsCounted text e
    → IsCounted text (add_pending text e src p max).0
unfolding add_pending Map.contains
add_pending-IsCounted text e src p max h ip = ground (
  arith,
  h ip,
  Map.count-insert (has_ip text ip) src p e.pending,
  tally-bump (key_ip text src) ip e.pending_by_ip,
)

remove_pending-IsCounted :
    (text : AddrText) (e : RoomEntry) (src : Bytes)
    → IsCounted text e
    → IsCounted text (remove_pending text e src).0
unfolding remove_pending
remove_pending-IsCounted text e src h ip = ground (
  arith,
  h ip,
  Map.count-remove (has_ip text ip) src e.pending,
  tally-lower (key_ip text src) ip e.pending_by_ip,
)

remove_all_pending-IsCounted :
    (text : AddrText) (e : RoomEntry) (srcs : List Bytes)
    → IsCounted text e
    → IsCounted text (remove_all_pending text e srcs)
unfolding remove_all_pending
remove_all_pending-IsCounted text e [] h = h
remove_all_pending-IsCounted text e (src ∷ srcs) h =
    remove_all_pending-IsCounted text (remove_pending text e src).0 srcs
      (remove_pending-IsCounted text e src h)

-- The caps that a room is held to.
pub record Caps : Type 0 where
  pub clients : ℕ
  pub prefix : ℕ
  pub pending : ℕ

pub record IsValid (text : AddrText) (caps : Caps) (e : RoomEntry) : Type 0 where
  pub counted : IsCounted text e
  pub clients_capped : Map.len e.udp_clients ≤ caps.clients
  pub prefix_capped : (ip : IpAddr) → Map.count (has_ip text ip) e.udp_clients ≤ caps.prefix
  pub pending_capped : Map.len e.pending ≤ caps.pending

module _ (text : AddrText) (caps : Caps) where
  -- Filing a registration in a valid room, with the room's own pending cap, leaves the room valid,
  -- whether the registration is new, renewed or refused.
  pub add_pending-IsValid :
      (e : RoomEntry) (src : Bytes) (p : PendingReg)
      → IsValid text caps e
      → IsValid text caps (add_pending text e src p caps.pending).0
  add_pending-IsValid e src p v = record {
    counted = add_pending-IsCounted text e src p caps.pending v.counted;
    clients_capped = unfold add_pending in ground (arith, v.clients_capped);
    prefix_capped = λ ip. unfold add_pending in ground (arith, v.prefix_capped ip);
    pending_capped =
        unfold add_pending in ground (arith, v.pending_capped, Map.len-insert src p e.pending);
  }

  -- Removing a registration, present or not, from a valid room leaves the room valid.
  pub remove_pending-IsValid :
      (e : RoomEntry) (src : Bytes)
      → IsValid text caps e
      → IsValid text caps (remove_pending text e src).0
  remove_pending-IsValid e src v = record {
    counted = remove_pending-IsCounted text e src v.counted;
    clients_capped = unfold remove_pending in ground (arith, v.clients_capped);
    prefix_capped = λ ip. unfold remove_pending in ground (arith, v.prefix_capped ip);
    pending_capped =
        unfold remove_pending in ground (arith, v.pending_capped, Map.len-remove-le src e.pending);
  }

  remove_all_pending-IsValid :
      (e : RoomEntry) (srcs : List Bytes)
      → IsValid text caps e
      → IsValid text caps (remove_all_pending text e srcs)
  unfolding remove_all_pending
  remove_all_pending-IsValid e [] v = v
  remove_all_pending-IsValid e (src ∷ srcs) v =
      remove_all_pending-IsValid (remove_pending text e src).0 srcs (remove_pending-IsValid e src v)

  -- The sweep of a valid room leaves it valid: its per-address counts of pending registrations are
  -- exact and its caps hold.
  pub remove_stale_clients-IsValid :
      (e : RoomEntry) (room : Bytes) (now reg_ttl : ℕ)
      → IsValid text caps e
      → IsValid text caps (remove_stale_clients text e room now reg_ttl).0
  unfolding remove_stale_clients
  remove_stale_clients-IsValid e room now reg_ttl v =
      remove_all_pending-IsValid _ (Map.keys_where (is_expired now) e.pending) record {
        counted = v.counted;
        clients_capped = omega (
          arith,
          v.clients_capped,
          Map.len-retain-le (λ addr info. not (is_stale now reg_ttl addr info)) e.udp_clients,
        );
        prefix_capped = λ ip. omega (
          arith,
          v.prefix_capped ip,
          Map.count-retain-le (has_ip text ip) (λ addr info. not (is_stale now reg_ttl addr info))
              e.udp_clients,
        );
        pending_capped = v.pending_capped;
      }
