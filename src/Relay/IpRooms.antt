-- ===== src/Relay/IpRooms.antt =====
-- crates/qvole-relay/src/relay.rs: `ip_counts` of `Relay`, the rooms that an address is linked to.
use qvole_rs.Base.Map
use qvole_rs.Base.Map.{Map}
use qvole_rs.Base.{
  ℕ, ◌≡◌, Bool, true, false, Option, none, some, List, [], ◌∷◌, ite, arith, ◌==◌, if◌then◌else◌,
  Bytes, bytes_key, Bytes-discrete, Option-cases, inl, inr,
}
use qvole_rs.Relay.Addr.{IpAddr, AddrText, ip_key_instance, IpAddr-discrete}
use qvole_rs.Relay.Shards
use qvole_rs.Relay.Shards.{Shards}

-- `HashSet<String>`
abbrev pub Rooms : Type 0
Rooms = Map Bytes (Unit {0})

abbrev pub IpRooms : Type 0
IpRooms = Shards IpAddr Rooms

abbrev or_default : Option Rooms → Rooms
or_default none = Map.empty
or_default (some set) = set

unfoldable pub rooms_of : AddrText → IpAddr → IpRooms → Rooms
rooms_of text ip s = or_default (Shards.find text.ip_to_string ip s)

unfoldable pub add_ip_room : AddrText → IpAddr → Bytes → IpRooms → IpRooms
unfolding rooms_of
add_ip_room text ip room s =
    Shards.put text.ip_to_string ip (Map.insert room tt (rooms_of text ip s)) s

unfoldable pub remove_ip_room : AddrText → IpAddr → Bytes → IpRooms → IpRooms
remove_ip_room text ip room s = elim (Shards.find text.ip_to_string ip s) [
  | none ↦ s
  | some set ↦
      let set' = Map.remove room set in
      if Map.len set' == 0
      then Shards.delete text.ip_to_string ip s
      else Shards.put text.ip_to_string ip set' s
]

unfoldable pub count_ip_rooms : AddrText → IpAddr → IpRooms → ℕ
unfolding rooms_of
count_ip_rooms text ip s = Map.len (rooms_of text ip s)

-- The caller of an eviction applies the links that it reports.
unfoldable pub remove_ip_rooms : AddrText → List (IpAddr × Bytes) → IpRooms → IpRooms
remove_ip_rooms text [] s = s
remove_ip_rooms text ((ip, room) ∷ rest) s =
    remove_ip_rooms text rest (remove_ip_room text ip room s)

-- The address is linked to the room.
unfoldable pub linked : AddrText → IpAddr → Bytes → IpRooms → Bool
unfolding rooms_of
linked text ip room s = Map.contains room (rooms_of text ip s)

absent : (r : Bytes) (set : Rooms) → Map.len set ≡ 0 → Map.get r set ≡ none
unfolding Map.len
absent r set h = ground (arith, Map.weight-le-weigh (λ k v. 1) r set)

module _ (text : AddrText) where
  -- After add_ip_room the address is linked to the room, and every other link, of this address or
  -- another, is as before.
  pub linked-add :
      (i j : IpAddr) (room r : Bytes) (s : IpRooms)
      → linked text j r (add_ip_room text i room s)
        ≡ ite
            (IpAddr-discrete i j)
            (ite (Bytes-discrete room r) true (linked text j r s))
            (linked text j r s)
  unfolding linked add_ip_room Map.contains
  linked-add i j room r s = ground (
    arith,
    Shards.find-put text.ip_to_string i j
        (Map.insert room tt (or_default (Shards.find text.ip_to_string i s))) s,
    Map.get-insert room r tt (or_default (Shards.find text.ip_to_string i s)),
  )

  -- After remove_ip_room the address is not linked to the room, and every other link is as before,
  -- also when the address's set was dropped because it became empty.
  pub linked-remove :
      (i j : IpAddr) (room r : Bytes) (s : IpRooms)
      → linked text j r (remove_ip_room text i room s)
        ≡ ite
            (IpAddr-discrete i j)
            (ite (Bytes-discrete room r) false (linked text j r s))
            (linked text j r s)
  unfolding linked remove_ip_room Map.contains
  linked-remove i j room r s = elim (Option-cases (Shards.find text.ip_to_string i s)) [
    | inl e ↦ ground (arith, Map.get-empty {V = Unit {0}} r)
    | inr (set, e) ↦ ground (
      arith,
      Shards.find-put text.ip_to_string i j (Map.remove room set) s,
      Shards.find-delete text.ip_to_string i j s,
      Map.get-remove room r set,
      Map.get-empty {V = Unit {0}} r,
      absent r (Map.remove room set),
    )
  ]
