-- ===== src/Relay/Pending.antt =====
-- crates/qvole-relay/src/relay.rs: the store of registrations for rooms that do not exist yet, the
-- fields `pending_shards`, `pending_ip_shards` and `pending_total` of `Relay` and their methods.
pub mod Invariant
pub mod Sweep
pub mod Refines
use qvole_rs.Base.Map
use qvole_rs.Base.Map.{Map}
use qvole_rs.Base.{
  ℕ, ◌+◌, ◌-◌, ◌%◌, ◌^◌, Bool, true, false, not, Option, none, some, List, [], ◌∷◌, ◌++◌, leb, ◌==◌,
  if◌then◌else◌, Bytes, bytes_key, map, length,
}
use qvole_rs.Relay.Addr.{IpAddr, AddrText, key_ip, ip_key_instance}
use qvole_rs.Relay.Room.{PendingReg, pending_reg_ttl_ms, is_expired}
use qvole_rs.Relay.Tally.{tally, bump, lower}
use qvole_rs.Relay.Shards
use qvole_rs.Relay.Shards.{Shards, index}

-- `fetch_add` and `fetch_sub` of an `AtomicUsize` wrap.
abbrev pub fetch_add : ℕ → ℕ → ℕ
fetch_add a b = (a + b) % 2 ^ 64

abbrev pub fetch_sub : ℕ → ℕ → ℕ
fetch_sub a b = (a + 2 ^ 64 - b) % 2 ^ 64

-- Rooms are hashed by their own bytes.
abbrev pub room_name : Bytes → Bytes
room_name room = room

pub record PendingStore : Type 0 where
  pub pending_shards : Shards Bytes (Map Bytes PendingReg)
  pub pending_ip_shards : Shards IpAddr ℕ
  pub pending_total : ℕ  -- AtomicUsize

unfoldable pub new : PendingStore
new = record { pending_shards = Shards.new; pending_ip_shards = Shards.new; pending_total = 0 }

unfoldable pub get_pending_reg : PendingStore → Bytes → Bytes → Option PendingReg
get_pending_reg s room src = elim (Shards.find room_name room s.pending_shards) [
  | none ↦ none
  | some rm ↦ Map.get src rm
]

-- One more, or one less, registration of an address.
unfoldable pub add_pending_ip : AddrText → IpAddr → Shards IpAddr ℕ → Shards IpAddr ℕ
add_pending_ip text ip s =
    let i = index text.ip_to_string ip in Shards.set_at i (bump ip (Shards.at i s)) s

unfoldable pub remove_pending_ip : AddrText → IpAddr → Shards IpAddr ℕ → Shards IpAddr ℕ
remove_pending_ip text ip s =
    let i = index text.ip_to_string ip in Shards.set_at i (lower ip (Shards.at i s)) s

unfoldable pub pending_count_for_ip : AddrText → PendingStore → IpAddr → ℕ
pending_count_for_ip text s ip =
    tally ip (Shards.at (index text.ip_to_string ip) s.pending_ip_shards)

abbrev pub or_empty : Option (Map Bytes PendingReg) → Map Bytes PendingReg
or_empty none = Map.empty
or_empty (some rm) = rm

-- `g.get_mut(room)` has `src`, and so the registration is replaced.
abbrev pub replaces : Option (Map Bytes PendingReg) → Bytes → Bool
replaces none src = false
replaces (some rm) src = Map.contains src rm

unfoldable pub store_pending_reg :
    AddrText → PendingStore → ℕ → Bytes → Bytes → PendingReg → PendingStore × Bool
store_pending_reg text s max_pending_global room src p =
    let found = Shards.find room_name room s.pending_shards in
    let stored = Shards.put room_name room (Map.insert src p (or_empty found)) s.pending_shards in
    if replaces found src
    then (record s { pending_shards = stored }, true)
    else if leb max_pending_global s.pending_total
    then (s, false)
    else (
      record s {
        pending_shards = stored;
        pending_ip_shards = add_pending_ip text (key_ip text src) s.pending_ip_shards;
        pending_total = fetch_add s.pending_total 1;
      },
      true,
    )

abbrev pub put_or_drop :
    Bytes
    → Map Bytes PendingReg
    → Shards Bytes (Map Bytes PendingReg)
    → Shards Bytes (Map Bytes PendingReg)
put_or_drop room rm s =
    if Map.len rm == 0 then Shards.delete room_name room s else Shards.put room_name room rm s

abbrev pub delete_from :
    AddrText → PendingStore → Bytes → Bytes → Map Bytes PendingReg → PendingStore
delete_from text s room src rm =
    let left = put_or_drop room (Map.remove src rm) s.pending_shards in
    if Map.contains src rm
    then record s {
      pending_shards = left;
      pending_ip_shards = remove_pending_ip text (key_ip text src) s.pending_ip_shards;
      pending_total = fetch_sub s.pending_total 1;
    }
    else record s { pending_shards = left }

unfoldable pub delete_pending_reg : AddrText → PendingStore → Bytes → Bytes → PendingStore
delete_pending_reg text s room src = elim (Shards.find room_name room s.pending_shards) [
  | none ↦ s
  | some rm ↦ delete_from text s room src rm
]

-- The sweep of one shard: expired registrations go, then the rooms that have none left.
unfoldable pub sweep_shard : ℕ → Map Bytes (Map Bytes PendingReg) → Map Bytes (Map Bytes PendingReg)
sweep_shard now g =
    Map.retain (λ _ rm. not (Map.len rm == 0))
      (Map.map_values (λ _ rm. Map.retain (λ src p. not (is_expired now src p)) rm) g)

abbrev expired_in : ℕ → List (Bytes × Map Bytes PendingReg) → List Bytes
expired_in now [] = []
expired_in now ((room, rm) ∷ g) = Map.keys_where (is_expired now) rm ++ expired_in now g

unfoldable pub lower_all : AddrText → List IpAddr → Shards IpAddr ℕ → Shards IpAddr ℕ
lower_all text [] s = s
lower_all text (ip ∷ ips) s = lower_all text ips (remove_pending_ip text ip s)

unfoldable pub remove_stale_pending_regs : AddrText → PendingStore → ℕ → PendingStore
unfolding sweep_shard
remove_stale_pending_regs text s now =
    let evicted =
      map (key_ip text)
        (Shards.concat_shards (λ g. expired_in now (Map.to_list g)) s.pending_shards) in
    record {
      pending_shards = Shards.map_shards (sweep_shard now) s.pending_shards;
      pending_total = fetch_sub s.pending_total (length evicted);
      pending_ip_shards = lower_all text evicted s.pending_ip_shards;
    }
