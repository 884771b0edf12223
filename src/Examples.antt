-- ===== src/Examples.antt =====
-- The theorems at concrete inputs: a relay with its default limits, a room with two clients behind
-- one address, and a writing of addresses that can be read back.
pub mod Parts
pub mod Texts
pub mod Curve
pub mod Exchange
pub mod Answer
pub mod Tunnel
use qvole_rs.Base.Map
use qvole_rs.Base.Map.{Map}
use qvole_rs.Base.{
  ℕ, Bytes-discrete, ℕ_discrete, ◌+◌, ◌*◌, ◌^◌, ◌≡◌, ◌≢◌, refl, true, false, none, some, Option,
  List, [], ◌∷◌, arith, Bytes, bytes, bytes_key, All, if◌then◌else◌, ◌==◌,
}
use qvole_rs.Base.Split.{splitn}
use qvole_rs.Relay.Text
use qvole_rs.Relay.Addr.{
  IpAddr, SocketAddr, AddrText, without_flow, key_ip, ip_key, ip_key_instance,
}
use qvole_rs.Relay.Room
use qvole_rs.Relay.Room.{RoomEntry, UdpClient, PendingReg, new_client}
use qvole_rs.Relay.Room.Links
use qvole_rs.Relay.State.{Relay, Env, Limits, Written, defaults, with_config}
use qvole_rs.Relay.Server.{Event, run}
use qvole_rs.Relay.Packet.{handle_packet}
use qvole_rs.Relay.Room.Invariant.{Caps}
use qvole_rs.Relay.Room.Invariant as RoomInvariant
use qvole_rs.Relay.Room.Admit
use qvole_rs.Relay.Pending
use qvole_rs.Relay.Pending.{PendingStore, room_name}
use qvole_rs.Relay.Pending.Invariant as PendingInvariant
use qvole_rs.Relay.Pending.Sweep
use qvole_rs.Relay.IpRooms
use qvole_rs.Relay.Shards
use qvole_rs.Relay.Text.Trimmed
use qvole_rs.Relay.Addr
use qvole_rs.Protocol.Trim
use qvole_rs.Relay.Cookie
use qvole_rs.Relay.Cookie.RoundTrip
use qvole_rs.Relay.RateLimiter
use qvole_rs.Relay.RateLimiter.Budget
use qvole_rs.Relay.Msg
use qvole_rs.Relay.Msg.Targets
use qvole_rs.Relay.Evict
use qvole_rs.Relay.Reg
use qvole_rs.Relay.Reg.Handler
use qvole_rs.Relay.Reg.Uncompleted
use qvole_rs.Relay.Shards.New
use qvole_rs.Relay.Invariant.Reg as RegInvariant
use qvole_rs.Relay.Invariant.Handle
use qvole_rs.Base.Strip.{strip, is_space}
use qvole_rs.Relay.Invariant.{IsSane, IsValid, Keeps}
use qvole_rs.Relay.Invariant.Start
use qvole_rs.Relay.Invariant.Run

abbrev write_addr : SocketAddr → Bytes
write_addr (SocketAddr.v4 ip port) = 4 ∷ ip ∷ port ∷ []
write_addr (SocketAddr.v6 hi lo port flow scope) = 6 ∷ hi ∷ lo ∷ port ∷ scope ∷ []

abbrev read_addr : Bytes → Option SocketAddr
read_addr (t ∷ ip ∷ port ∷ []) = some (SocketAddr.v4 ip port)
read_addr (t ∷ hi ∷ lo ∷ port ∷ scope ∷ []) = some (SocketAddr.v6 hi lo port 0 scope)
read_addr _ = none

abbrev write_ip : IpAddr → Bytes
write_ip (IpAddr.v4 ip) = 4 ∷ ip ∷ []
write_ip (IpAddr.v6 hi lo) = 6 ∷ hi ∷ lo ∷ []

abbrev read_written : (a : SocketAddr) → read_addr (write_addr a) ≡ some (without_flow a)
read_written (SocketAddr.v4 ip port) = refl
read_written (SocketAddr.v6 hi lo port flow scope) = refl

abbrev pub text : AddrText
text = record {
  to_string = write_addr;
  parse = read_addr;
  ip_to_string = write_ip;
  parse-to_string = read_written;
}

abbrev pub env : Env
env = record { text = text; now = 100; cookie = 1 ∷ 2 ∷ []; write = λ _. Written.sent }

abbrev pub here : SocketAddr
here = SocketAddr.v4 7 4000

defaults-IsSane : IsSane defaults
defaults-IsSane = record {
  rooms_fit = omega arith;
  pending_fits = omega arith;
  a_client = omega arith;
  a_prefix = omega arith;
}

abbrev history : List (Env × Event)
history = (env, Event.packet (bytes "REG lobby") here) ∷ (env, Event.room) ∷ (env, Event.rate) ∷ []

reached-IsValid_example : IsValid text (run history (with_config defaults 0)).0
reached-IsValid_example =
    Start.reached-IsValid text defaults 0 history defaults-IsSane (refl, (refl, (refl, tt)))

handle_packet-IsValid_example :
    Keeps text (handle_packet env (bytes "REG lobby") here (with_config defaults 0))
handle_packet-IsValid_example =
    Run.handle_packet-IsValid env here (bytes "REG lobby") (with_config defaults 0)
      (Start.with_config-IsValid text defaults 0 defaults-IsSane)

abbrev pub lobby : Bytes
lobby = bytes "lobby"

reg_cookie_create_or_admit-IsValid_example :
    Keeps text (Reg.reg_cookie_create_or_admit env lobby here here (with_config defaults 0))
reg_cookie_create_or_admit-IsValid_example =
    RegInvariant.reg_cookie_create_or_admit-IsValid env lobby here here (with_config defaults 0)
      (Start.with_config-IsValid text defaults 0 defaults-IsSane)

handle_reg-IsValid_example :
    Keeps text (Handler.handle_reg env lobby [] here (with_config defaults 0))
handle_reg-IsValid_example =
    Handle.handle_reg-IsValid env lobby here [] (with_config defaults 0)
      (Start.with_config-IsValid text defaults 0 defaults-IsSane)

evict_stale_rooms_all-IsValid_example :
    IsValid text (Evict.evict_stale_rooms_all env (with_config defaults 0))
evict_stale_rooms_all-IsValid_example =
    RegInvariant.evict_stale_rooms_all-IsValid env (with_config defaults 0)
      (Start.with_config-IsValid text defaults 0 defaults-IsSane)

abbrev there : SocketAddr
there = SocketAddr.v4 9 5000

-- The two clients of a room that talk to each other.
abbrev chat : RoomEntry
chat = record {
  udp_clients =
      Map.insert (write_addr here) (new_client 50 (some here))
        (Map.insert (write_addr there) (new_client 50 (some there)) Map.empty);
  pending = Map.empty;
  pending_by_ip = Map.empty;
  t = 50;
}

abbrev talking : Relay
talking = record (with_config defaults 0) { shards = Shards.put room_name lobby chat Shards.new }

talking_sends :
    (Msg.handle_msg env (bytes "lobby spake2 00ff") here talking).1
    ≡ (there, bytes "MSGD spake2 00ff\n") ∷ []
unfolding Msg.handle_msg Msg.msg_parts Msg.msg_from Msg.targets Msg.write_all Msg.relay_msg
    with_config Shards.put Shards.find new_client splitn Msg.is_phase Bytes-discrete ℕ_discrete
    Text.valid_room_name Text.is_valid_hex Map.get Shards.at Shards.set_at Shards.new Text.shard_idx
    Map.insert Map.empty RateLimiter.is_limited RateLimiter.new Map.to_list Msg.msgd_message
talking_sends = refl

handle_msg-IsForPeer_example :
    All
      (Targets.IsForPeer env here talking)
      (Msg.handle_msg env (bytes "lobby spake2 00ff") here talking).1
handle_msg-IsForPeer_example =
    Targets.handle_msg-IsForPeer env (bytes "lobby spake2 00ff") here talking

abbrev small : Caps
small = record { clients = 2; prefix = 2; pending = 2 }

abbrev pub waiting : PendingReg
waiting = record { cookie = 1 ∷ 2 ∷ []; created_at = 10; resolved_addr = here }

empty_room-IsValid : RoomInvariant.IsValid text small (Room.new 0)
empty_room-IsValid = Admit.new-IsValid text small 0

abbrev one_waiting : RoomEntry
one_waiting = (Room.add_pending text (Room.new 0) (write_addr here) waiting 2).0

add_pending-IsValid_example : RoomInvariant.IsValid text small one_waiting
add_pending-IsValid_example =
    RoomInvariant.add_pending-IsValid text small (Room.new 0) (write_addr here) waiting
      empty_room-IsValid

one_waiting-IsValid : RoomInvariant.IsValid text small one_waiting
one_waiting-IsValid =
    RoomInvariant.add_pending-IsValid text small (Room.new 0) (write_addr here) waiting
      empty_room-IsValid

remove_pending-IsValid_example :
    RoomInvariant.IsValid text small (Room.remove_pending text one_waiting (write_addr here)).0
remove_pending-IsValid_example =
    RoomInvariant.remove_pending-IsValid text small one_waiting (write_addr here)
      one_waiting-IsValid

remove_stale_clients-IsValid_example :
    RoomInvariant.IsValid text small (Room.remove_stale_clients text one_waiting lobby 9000 60000).0
remove_stale_clients-IsValid_example =
    RoomInvariant.remove_stale_clients-IsValid text small one_waiting lobby 9000 60000
      one_waiting-IsValid

-- Two clients behind one address.
abbrev pub first : Bytes
first = write_addr (SocketAddr.v4 7 4000)

abbrev second : Bytes
second = write_addr (SocketAddr.v4 7 4001)

abbrev pub old_client : UdpClient
old_client = new_client 0 none

abbrev pub pair : RoomEntry
pair = record {
  udp_clients = Map.insert first old_client (Map.insert second old_client Map.empty);
  pending = Map.empty;
  pending_by_ip = Map.empty;
  t = 0;
}

get_pair :
    (addr : Bytes) (info : UdpClient)
    → Map.get addr pair.udp_clients ≡ some info
    → info ≡ old_client
get_pair addr info g = ground (
  arith,
  g,
  Map.get-insert first addr old_client (Map.insert second old_client Map.empty),
  Map.get-insert second addr old_client Map.empty,
  Map.get-empty {K = Bytes} {V = UdpClient} addr,
)

stale_pair_leaks_example :
    All (λ l. l.0 ≢ key_ip text first) (Room.remove_stale_clients text pair lobby 100000 60000).1
    × (Map.any
          (RoomInvariant.has_ip text (key_ip text first))
          (Room.remove_stale_clients text pair lobby 100000 60000).0.udp_clients
        ≡ false)
unfolding key_ip ip_key
stale_pair_leaks_example =
    Links.stale_pair_leaks text pair lobby 100000 60000 first second old_client old_client
      (ground arith)
      (ground
        (arith, Map.get-insert first first old_client (Map.insert second old_client Map.empty)))
      (ground (
        arith,
        Map.get-insert first second old_client (Map.insert second old_client Map.empty),
        Map.get-insert second second old_client Map.empty,
      ))
      refl (λ addr info g _. unfold new_client in ground (arith, get_pair addr info g))

-- A stale client, and one of another address who stays.
abbrev mixed : RoomEntry
mixed = record {
  udp_clients =
      Map.insert first old_client (Map.insert (write_addr there) (new_client 90000 none) Map.empty);
  pending = Map.empty;
  pending_by_ip = Map.empty;
  t = 0;
}

mixed_unlinks :
    (Room.remove_stale_clients text mixed lobby 100000 60000).1 ≡ (IpAddr.v4 7, lobby) ∷ []
unfolding Room.remove_stale_clients Room.unlinks Room.still_in_room new_client Map.keys_where
    Map.insert Map.empty Bytes-discrete ℕ_discrete Map.any Addr.IpAddr-discrete key_ip ip_key
mixed_unlinks = refl

remove_stale_clients-IsGone_example :
    All
      (Links.IsGone text (Room.remove_stale_clients text mixed lobby 100000 60000).0 lobby)
      (Room.remove_stale_clients text mixed lobby 100000 60000).1
remove_stale_clients-IsGone_example =
    Links.remove_stale_clients-IsGone text mixed lobby 100000 60000

nobody : ¬ Uncompleted.IsClient lobby first (with_config defaults 0).shards
unfolding with_config
nobody (e, info, f, g) =
    absurd (ground (arith, f, New.find-new {K = Bytes} {V = RoomEntry} room_name lobby))

handle_reg-uncompleted_example :
    ¬ Uncompleted.IsClient lobby first
      (Handler.handle_reg env lobby [] here (with_config defaults 0)).0.shards
handle_reg-uncompleted_example =
    Uncompleted.handle_reg-uncompleted env lobby here (with_config defaults 0) lobby first nobody
