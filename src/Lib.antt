-- ===== src/Lib.antt =====
-- A verification library for qvole: the relay server of crates/qvole-relay, the key agreement of
-- crates/qvole-spake2, the exchange of crates/qvole-protocol that uses it, and the tunnel
-- configurations, allow lists, stream handler and options of crates/qvole-app.
--
-- The relay (crates/qvole-relay/src/relay.rs, crates/qvole-relay/src/room.rs) lets two clients who
-- know a room name find each other. A client registers with REG; a source that is not yet admitted
-- is sent a cookie, and is admitted when it sends the cookie back. An admitted client's MSG goes to
-- the other clients of its room. Limits bound the rooms, the rooms of an address, the clients of a
-- room and of a prefix in it, the pending registrations, and the rates of REG and MSG.
--
-- A client registers in a room of the relay and exchanges keys with its peer through it
-- (register_and_exchange of crates/qvole-protocol/src/exchange.rs). It sends its two blinded points
-- and the fingerprint of its certificate; each payload that comes back makes a candidate with keys
-- of its own (crates/qvole-spake2/src/spake2.rs), and the first confirm message that verifies under
-- the keys of a candidate names the peer and brings its address.
--
-- The peers then punch a hole (crates/qvole-protocol/src/punch.rs) and exchange the tunnels that they
-- ask for over a control stream (crates/qvole-app/src/tunnel.rs).
--
-- The files, and what they model:
--   Base                 tests, lists, finite maps with their laws, stripping, splitting, the
--                        order of byte strings, bit operations on bytes, results
--   Relay.Addr           SocketAddr, IpAddr, ip_key; the text of addresses as an interface;
--                        Network: which sources share a key
--   Relay.Text           fnv1a32, shard_idx, valid_room_name, is_valid_hex, trim_ascii_space
--   Relay.RateLimiter    RateLimiter (messages of a client); Budget: what it lets through
--   Relay.RegShard       RegShard (registrations of a source)
--   Relay.DropLogLimiter DropLogLimiter (log lines about drops)
--   Relay.Tally          the counters by address
--   Relay.Room           RoomEntry and its methods; Invariant, Links, Admit: proofs
--   Relay.Shards         the tables of sixteen locked hash maps; Placed, New: proofs
--   Relay.Pending        the global pending store; Invariant, Sweep, Refines: proofs
--   Relay.IpRooms        ip_counts, the links from addresses to rooms
--   Relay.State          Config, Relay, drop_packet, write_relay, send_regd, send_reg_challenge
--   Relay.Evict          evict_stale_rooms, evict_stale_rooms_all
--   Relay.Reg            handle_reg and reg_cookie_create_or_admit, a function for each branch;
--                        Uncompleted: packets without a cookie
--   Relay.Msg            handle_msg; Targets: whom it writes to
--   Relay.Packet         handle_packet
--   Relay.Server         the events of run: packets, lost packets, the two cleanup ticks
--   Relay.Cookie         to_hex_lower, hex_decode; RoundTrip: proofs
--   Relay.Invariant      the invariant of the relay, and its proofs step by step
--   Protocol.Trim        trim_ascii of crates/qvole-protocol/src/exchange.rs
--   Protocol.Hex         crates/qvole-protocol/src/hex.rs
--   Protocol.Env         env_int_from, env_duration_ms_from of crates/qvole-protocol/src/env.rs
--   Protocol.Exchange    exchange.rs: the errors; below it
--     Config             PeerConfig, detect_outbound_addr
--     Spake              process_spake_msg; Agreement: the two sides
--     Confirm            build_confirm_payload, process_confirm_msg; RoundTrip: proofs
--     State              the variables of register_and_exchange, and what it is given
--     Send, Receive      the parts of a turn of its loop, before and behind the datagram
--     Turn               a turn, and the loop
--     Invariant, Ends, Answer: proofs about the loop
--   Protocol.Pool        crates/qvole-protocol/src/pool.rs and role.rs beside it
--   Protocol.Punch       crates/qvole-protocol/src/punch.rs
--   App.TunnelRequest    the text of tunnel requests, crates/qvole-app/src/tunnel_request.rs;
--                        Read: read_requests_from_stream
--   App.Tunnel           exchange_tunnel_config of crates/qvole-app/src/tunnel.rs; Lines, Agreement:
--                        proofs
--   App.TunnelAllow      the allow list, crates/qvole-app/src/tunnel_allow.rs; Forward: proofs
--   App.Stream           handle_tunnel_stream of crates/qvole-app/src/tunnel.rs; Allowed: what it dials
--   App.Options          crates/qvole-app/src/options.rs, and the options of lib.rs beside it
--   Command              the code and the relay of the command line, crates/qvole-bin/src/main.rs
--   Spake2.Code          connection codes, crates/qvole-spake2/src/code.rs
--   Spake2.Curve         the curve and the symmetric operations as records, with the laws used
--   Spake2.State         spake2.rs up to compute_shared; Agreement: the shared secret of two sides
--   Spake2.Session       session keys, metadata, confirmations; Symmetry: the two sides
--   Spake2.Compare       constant_time_eq
--   Examples             concrete inputs, with a group of five points for the curve
--
-- In the relay, state is passed explicitly: a handler takes the relay and returns it with the datagrams that left.
-- What comes from outside is the record Env: the instant, the random cookie, how each write ends, and
-- the Display and FromStr of addresses (AddrText), whose one law is that FromStr reads what Display
-- wrote, without the IPv6 flow label. Names of fields and functions are the source's.
--
-- The exchange is a record of the variables that its loop changes (Exchange), a record of what it
-- only reads (Peer), and for each turn what the turn meets (Tick): the clock before and behind the
-- datagram, the datagram, a timeout or an error, and random bytes. A turn returns the variables, the
-- datagrams that it sends, and whether the loop goes on, returns a peer, fails or panics. The loop
-- runs for a given number of turns; the deadline bounds the number that is needed.
--
-- The proofs about the loop carry two properties of messages (Traffic): what is known of the
-- bodies of the spake2 messages and of the confirm messages that the turns meet, so that what the
-- exchange returns can be traced to datagrams that came.
--
-- The crates p256, hkdf, hmac, sha2, pbkdf2 and aes_gcm are parameters. IsCurve states that the
-- points are a group with commuting multiples, that points other than the identity have coordinates
-- of 32 bytes each, and that these lead back to the point; IsCrypto that decryption undoes
-- encryption, that a ciphertext is 16 bytes longer than its text, and that a code has 32 bytes. The
-- search loops of hash_to_curve and password_to_scalar run on fuel, since the source's have no bound.
--
-- Bounds. Instants and durations are milliseconds, and a packet reads the clock once; a difference
-- stops at zero, as duration_since does. Atomic counters wrap at 2^64, and so do their
-- subtractions. Counts that the size of a hash map bounds are not wrapped. The rate limits are cut
-- to 32 bits, as the casts do. In the relay recursion is structural, so that no fuel is needed
-- there. Times of the exchange are nanoseconds. The counter of punch attempts wraps at 2^32, as in
-- a release build. The name lookups of the allow list at startup and those of a later call may
-- answer differently; the lookups of one call are answered alike.
--
-- Not modelled: sockets, tasks, channels, timers and log lines; the interleaving of several
-- workers between two locks (one packet is handled at a time); the iteration order of hash maps;
-- poisoned locks; Config::from_env; of the tunnels, the listeners, acceptors and the copying of
-- bytes; the flags and subcommands of the command line; QUIC and certificates; the zeroing of
-- secrets. The panic of an address key that does not parse stands as the unspecified address; the
-- relay files only keys that it wrote itself.
pub mod Base
pub mod Protocol
pub mod Relay
pub mod App
pub mod Spake2
pub mod Command
pub mod Examples
