-- ===== src/Relay/Invariant/Start.antt =====
-- The relay that `with_config` of crates/qvole-relay/src/relay.rs builds, and the invariant of the
-- relay.
use qvole_rs.Base.{ℕ, ◌≡◌, List, arith, Bytes, bytes_key, All, sym}
use qvole_rs.Relay.Addr.{IpAddr, AddrText, ip_key_instance}
use qvole_rs.Relay.Room.{RoomEntry}
use qvole_rs.Relay.Shards.{index}
use qvole_rs.Relay.Shards.New.{at-new, total-new, find-new, new-IsPlaced}
use qvole_rs.Relay.Tally.{tally-empty}
use qvole_rs.Relay.Pending
use qvole_rs.Relay.Pending.{room_name}
use qvole_rs.Relay.Pending.Invariant as PendingInvariant
use qvole_rs.Relay.Pending.Invariant.{len_of, count_of}
use qvole_rs.Relay.State.{Limits, Env, with_config}
use qvole_rs.Relay.Server.{Event, run}
use qvole_rs.Relay.Invariant.{IsValid, IsSane, one_each}
use qvole_rs.Relay.Invariant.Run.{run-IsValid}

pub new_store-IsValid : (text : AddrText) (max : ℕ) → PendingInvariant.IsValid text max Pending.new
unfolding Pending.new
new_store-IsValid text max = record {
  exact = sym (total-new len_of);
  capped = ground arith;
  counted = λ ip.
      unfold Pending.pending_count_for_ip in
      rw (at-new {K = IpAddr} {V = ℕ} (index text.ip_to_string ip), tally-empty ip)
        (sym (total-new (count_of text ip)));
}

pub with_config-IsValid :
    (text : AddrText) (l : Limits) (now : ℕ) → IsSane l → IsValid text (with_config l now)
unfolding with_config
with_config-IsValid text l now sane = record {
  sane = sane;
  table = record {
    exact = sym (total-new one_each);
    capped = ground arith;
    placed = new-IsPlaced room_name;
    each =
        λ room e f. absurd (ground (arith, f, find-new {K = Bytes} {V = RoomEntry} room_name room));
    all_linked =
        λ room e f. absurd (ground (arith, f, find-new {K = Bytes} {V = RoomEntry} room_name room));
  };
  store = new_store-IsValid text l.max_pending_global;
}

-- A relay built with limits that fit a machine word and admit a client, whatever packets, lost
-- packets and cleanup ticks it meets, at whatever instants, with whatever cookies and write
-- outcomes: after any number of these, the room counter equals the rooms in the table and is at
-- most max_rooms, every room stands in its own shard with exact counts and within its client,
-- prefix and pending caps, every client is linked to its room by its accounting key, and the
-- pending store counts exactly and is within its cap.
pub reached-IsValid :
    (text : AddrText) (l : Limits) (now : ℕ) (events : List (Env × Event))
    → IsSane l
    → All (λ x. x.0.text ≡ text) events
    → IsValid text (run events (with_config l now)).0
reached-IsValid text l now events sane a =
    run-IsValid text events (with_config l now) a (with_config-IsValid text l now sane)
