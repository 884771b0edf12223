-- ===== src/Examples/Parts.antt =====
-- The theorems on the relay's tables, texts and limiters at concrete inputs.
use qvole_rs.Base.{
  ◌≡◌, ◌↔◌, true, false, none, some, List, [], ◌∷◌, arith, ite, min, length, all, Bytes, bytes,
  bytes_key, Bytes-discrete, if◌then◌else◌, ◌==◌,
}
use qvole_rs.Base.Strip.{strip, is_space}
use qvole_rs.Relay.Addr.{IpAddr, SocketAddr, ip_key, key_ip, ip_key_instance, IpAddr-discrete}
use qvole_rs.Relay.Addr
use qvole_rs.Relay.Addr.Network
use qvole_rs.Relay.Pending
use qvole_rs.Relay.Pending.{PendingStore}
use qvole_rs.Relay.Pending.Invariant
use qvole_rs.Relay.Pending.Sweep
use qvole_rs.Relay.Pending.Refines
use qvole_rs.Relay.Pending.Refines.{Op, run_ops, specified_run}
use qvole_rs.Relay.Invariant.Start
use qvole_rs.Relay.IpRooms
use qvole_rs.Relay.IpRooms.{IpRooms, linked}
use qvole_rs.Relay.Shards
use qvole_rs.Relay.Text.{trim_ascii_space}
use qvole_rs.Relay.Text.Trimmed
use qvole_rs.Protocol.Trim
use qvole_rs.Relay.Cookie
use qvole_rs.Relay.Cookie.RoundTrip
use qvole_rs.Relay.RateLimiter.{RateLimiter}
use qvole_rs.Relay.RateLimiter.Budget
use qvole_rs.Examples.{text, here, waiting, lobby, first}

new_store-IsValid : Invariant.IsValid text 4 Pending.new
new_store-IsValid = Start.new_store-IsValid text 4

abbrev one_stored : PendingStore
one_stored = (Pending.store_pending_reg text Pending.new 4 lobby first waiting).0

one_stored-IsValid : Invariant.IsValid text 4 one_stored
one_stored-IsValid =
    Invariant.store_pending_reg-IsValid text Pending.new 4 lobby first waiting (omega arith)
      new_store-IsValid

store_pending_reg-IsValid_example : Invariant.IsValid text 4 one_stored
store_pending_reg-IsValid_example =
    Invariant.store_pending_reg-IsValid text Pending.new 4 lobby first waiting (omega arith)
      new_store-IsValid

delete_pending_reg-IsValid_example :
    Invariant.IsValid text 4 (Pending.delete_pending_reg text one_stored lobby first)
delete_pending_reg-IsValid_example =
    Invariant.delete_pending_reg-IsValid text one_stored 4 lobby first (omega arith)
      one_stored-IsValid

abbrev ops : List Op
ops = Op.store lobby first waiting ∷ Op.delete lobby first ∷ Op.store lobby first waiting ∷ []

run_ops-specified_example :
    Pending.get_pending_reg (run_ops text 4 ops Pending.new).0
    ≡ specified_run ops (run_ops text 4 ops Pending.new).1 (Pending.get_pending_reg Pending.new)
run_ops-specified_example = Refines.run_ops-specified text 4 ops Pending.new

remove_stale_pending_regs-IsValid_example :
    Invariant.IsValid text 4 (Pending.remove_stale_pending_regs text one_stored 9000)
remove_stale_pending_regs-IsValid_example =
    Sweep.remove_stale_pending_regs-IsValid text one_stored 4 9000 (omega arith) one_stored-IsValid

abbrev seven : IpAddr
seven = IpAddr.v4 7

linked-add_example :
    linked text seven lobby (IpRooms.add_ip_room text seven lobby Shards.new)
    ≡ ite
        (IpAddr-discrete seven seven)
        (ite (Bytes-discrete lobby lobby) true (linked text seven lobby Shards.new))
        (linked text seven lobby Shards.new)
linked-add_example = IpRooms.linked-add text seven seven lobby lobby Shards.new

linked-remove_example :
    linked text seven lobby (IpRooms.remove_ip_room text seven lobby Shards.new)
    ≡ ite
        (IpAddr-discrete seven seven)
        (ite (Bytes-discrete lobby lobby) false (linked text seven lobby Shards.new))
        (linked text seven lobby Shards.new)
linked-remove_example = IpRooms.linked-remove text seven seven lobby lobby Shards.new

trim_ascii_space-eq-strip_example : trim_ascii_space (bytes " REG a ") ≡ strip (bytes " REG a ")
trim_ascii_space-eq-strip_example = Trimmed.trim_ascii_space-eq-strip (bytes " REG a ")

abbrev blank : Bytes
blank = 32 ∷ 10 ∷ []

trim_ascii_lem_example : Trim.trim_ascii blank ≡ (
    if all is_space blank
    then (if length blank == 0 then some [] else none)
    else some (strip blank))
trim_ascii_lem_example = Trim.trim_ascii_lem blank

key_ip-to_string_example : key_ip text (text.to_string here) ≡ ip_key here
key_ip-to_string_example = Addr.key_ip-to_string text here

-- Two addresses of one /64.
ip_key-SameHost_example :
    (ip_key (SocketAddr.v6 5 6 1 0 0) ≡ ip_key (SocketAddr.v6 5 9 2 0 0))
    ↔ Network.SameHost (SocketAddr.v6 5 6 1 0 0) (SocketAddr.v6 5 9 2 0 0)
ip_key-SameHost_example =
    Network.ip_key-SameHost (SocketAddr.v6 5 6 1 0 0) (SocketAddr.v6 5 9 2 0 0)
      (omega arith, omega arith) (omega arith, omega arith)

hex_decode-to_hex_lower_example :
    Cookie.hex_decode (Cookie.to_hex_lower (0 ∷ 171 ∷ [])) ≡ some (0 ∷ 171 ∷ [])
hex_decode-to_hex_lower_example =
    RoundTrip.hex_decode-to_hex_lower (0 ∷ 171 ∷ []) (omega arith, (omega arith, tt))

abbrev spent : RateLimiter
spent = record { msg_count = 8; window_start = 100 }

admitted-min_example : Budget.admitted spent (150 ∷ 160 ∷ 170 ∷ []) 1000 10 ≡ min 3 2
admitted-min_example =
    Budget.admitted-min spent (150 ∷ 160 ∷ 170 ∷ []) 1000 10
      (omega arith, (omega arith, (omega arith, tt)))
