-- ===== src/Relay/Room/Admit.antt =====
-- Rooms of crates/qvole-relay/src/room.rs that take a client, as the handlers of crates/qvole-
-- relay/src/relay.rs admit it: lemmas on the invariant of a room.
use qvole_rs.Base.Map
use qvole_rs.Base.{ℕ, ◌<◌, ◌≡◌, none, some, arith, Bytes, bytes_key}
use qvole_rs.Relay.Addr.{IpAddr, AddrText, key_ip, ip_key_instance}
use qvole_rs.Relay.Room.{RoomEntry, UdpClient, PendingReg, new}
use qvole_rs.Relay.Tally.{tally}
use qvole_rs.Relay.Room.Invariant.{Caps, IsValid, has_ip}

module _ (text : AddrText) (caps : Caps) where
  abbrev pub with_client : RoomEntry → Bytes → UdpClient → ℕ → RoomEntry
  with_client e addr info t = record e { udp_clients = Map.insert addr info e.udp_clients; t = t }

  -- A client that is in the room already is replaced.
  pub replaced-IsValid :
      (e : RoomEntry) (addr : Bytes) (info old : UdpClient) (t : ℕ)
      → Map.get addr e.udp_clients ≡ some old
      → IsValid text caps e
      → IsValid text caps (with_client e addr info t)
  replaced-IsValid e addr info old t g v = record {
    counted = v.counted;
    clients_capped =
        ground (arith, v.clients_capped, Map.len-insert_old addr info old e.udp_clients g);
    prefix_capped = λ ip.
        ground
          (arith, v.prefix_capped ip, g, Map.count-insert (has_ip text ip) addr info e.udp_clients);
    pending_capped = v.pending_capped;
  }

  -- A new client below the caps.
  pub admitted-IsValid :
      (e : RoomEntry) (addr : Bytes) (info : UdpClient) (t : ℕ)
      → Map.get addr e.udp_clients ≡ none
      → Map.len e.udp_clients < caps.clients
      → Map.count (has_ip text (key_ip text addr)) e.udp_clients < caps.prefix
      → IsValid text caps e
      → IsValid text caps (with_client e addr info t)
  admitted-IsValid e addr info t g c p v = record {
    counted = v.counted;
    clients_capped = ground (arith, c, Map.len-insert addr info e.udp_clients);
    prefix_capped = λ ip. ground (
      arith,
      v.prefix_capped ip,
      g,
      p,
      Map.count-insert (has_ip text ip) addr info e.udp_clients,
    );
    pending_capped = v.pending_capped;
  }

  -- A registration that is filed already is renewed.
  pub renewed-IsValid :
      (e : RoomEntry) (addr : Bytes) (p old : PendingReg)
      → Map.get addr e.pending ≡ some old
      → IsValid text caps e
      → IsValid text caps (record e { pending = Map.insert addr p e.pending })
  renewed-IsValid e addr p old g v = record {
    counted =
        λ ip. ground (arith, v.counted ip, g, Map.count-insert (has_ip text ip) addr p e.pending);
    clients_capped = v.clients_capped;
    prefix_capped = v.prefix_capped;
    pending_capped = ground (arith, v.pending_capped, Map.len-insert_old addr p old e.pending g);
  }

  pub new-IsValid : (now : ℕ) → IsValid text caps (new now)
  unfolding new
  new-IsValid now = record {
    counted = λ ip.
        unfold tally in
        ground (
          arith,
          Map.count-empty {V = PendingReg} (has_ip text ip),
          Map.get-empty {K = IpAddr} {V = ℕ} ip,
        );
    clients_capped = ground (arith, Map.len-empty Bytes UdpClient ⦃key = bytes_key⦄);
    prefix_capped = λ ip. ground (arith, Map.count-empty {V = UdpClient} (has_ip text ip));
    pending_capped = ground (arith, Map.len-empty Bytes PendingReg ⦃key = bytes_key⦄);
  }
