-- ===== src/Protocol/Exchange/Invariant.antt =====
-- crates/qvole-protocol/src/exchange.rs: the invariant of the loop's variables.
pub mod Evict
pub mod Genuine
pub mod Add
pub mod Run
use qvole_rs.Base.Map
use qvole_rs.Base.Map.{Map}
use qvole_rs.Base.{
  ℕ, ◌≤◌, ◌<◌, ◌≡◌, bytes, All, true, take, drop, Option, none, some, List, [], ◌∷◌, Bytes,
  bytes_key, length,
}
use qvole_rs.Base.Result.{ok}
use qvole_rs.Base.Split.{strip_prefix}
use qvole_rs.Protocol.Trim.{trim_ascii}
use qvole_rs.Protocol.Hex.{hex_decode}
use qvole_rs.Protocol.Exchange.Confirm.{process_confirm_msg}
use qvole_rs.Protocol.Exchange.Turn.{read_buffer_size}
use qvole_rs.Spake2.Session.{verify_confirm}
use qvole_rs.Protocol.Exchange.Spake.{ProcessedSpake, process_spake_msg}
use qvole_rs.Protocol.Exchange.Receive.{candidate}
use qvole_rs.Protocol.Exchange.State.{
  my_point_m, my_point_n, Exchange, Found, Outcome, Peer, PeerCandidate, Received, Tick,
}

-- What is known of the bodies of the messages that the turns meet.
pub record Traffic : Type 1 where
  pub spake : Bytes → Type 0
  pub confirm : Bytes → Type 0

-- A turn meets a datagram whose line is the prefix and the body.
abbrev pub IsBody : Bytes → Bytes → Tick → Type 0
IsBody prefix body tick =
    (b : Bytes) × (line : Bytes) × (tick.received ≡ Received.datagram b)
    × (trim_ascii (take read_buffer_size b) ≡ some line)
    × (strip_prefix prefix line ≡ some body)

-- What is known holds of what a turn meets.
pub record Hears (heard : Traffic) (tick : Tick) : Type 0 where
  pub spake : (body : Bytes) → IsBody (bytes "MSGD spake2 ") body tick → heard.spake body
  pub confirm : (body : Bytes) → IsBody (bytes "MSGD confirm ") body tick → heard.confirm body

-- The bodies that the first turns meet.
abbrev pub heard_in : ℕ → (ℕ → Tick) → Traffic
heard_in fuel ticks = record {
  spake = λ body. (j : ℕ) × (j < fuel) × IsBody (bytes "MSGD spake2 ") body (ticks j);
  confirm = λ body. (j : ℕ) × (j < fuel) × IsBody (bytes "MSGD confirm ") body (ticks j);
}

module _ {P : Type 0} (peer : Peer P) (heard : Traffic) where
  -- A candidate with the keys that a payload leads to, which a turn met.
  pub record IsDerived (cand : PeerCandidate) : Type 0 where
    pub body : Bytes
    pub came : heard.spake body
    pub proc : ProcessedSpake
    pub processed :
        process_spake_msg peer.suite body peer.state
          (my_point_m peer)
          (my_point_n peer)
          peer.my_fingerprint
        ≡ ok proc
    pub same : cand ≡ candidate proc cand.confirm_payload

  pub record IsValid (s : Exchange) : Type 0 where
    pub few : Map.len s.candidates ≤ 50
    pub short : length s.buffered_confirms ≤ 200
    pub buffered : All heard.confirm s.buffered_confirms
    pub sent : (k : Bytes) → Map.get k s.candidates ≡ none → Map.get k s.confirm_last_sent ≡ none
    pub derived :
        (k : Bytes) (cand : PeerCandidate) → Map.get k s.candidates ≡ some cand → IsDerived cand

  -- A peer whose payload, which a turn met, leads to keys under which a confirm that a turn met was
  -- verified and gives the address: what it returns.
  pub record IsAuthentic (f : Found) : Type 0 where
    pub body : Bytes
    pub came : heard.spake body
    pub proc : ProcessedSpake
    pub processed :
        process_spake_msg peer.suite body peer.state
          (my_point_m peer)
          (my_point_n peer)
          peer.my_fingerprint
        ≡ ok proc
    pub fingerprint : f.peer_fingerprint ≡ proc.peer_fingerprint
    pub not_mine : ¬ (f.peer_fingerprint ≡ peer.my_fingerprint)
    pub role : f.is_server ≡ proc.is_server
    pub confirm_body : Bytes
    pub confirm_came : heard.confirm confirm_body
    pub payload : Bytes
    pub decoded : hex_decode confirm_body ≡ some payload
    pub verified :
        verify_confirm peer.suite.crypto peer.suite.n_point proc.confirm_key proc.effective_my_point
          proc.effective_peer_point
          (take 16 payload)
          peer.my_fingerprint
          proc.peer_fingerprint
          (take 32 (drop 16 payload))
        ≡ true
    pub address :
        process_confirm_msg peer.suite confirm_body proc.confirm_key proc.enc_key
          proc.effective_my_point proc.effective_peer_point peer.my_fingerprint
          proc.peer_fingerprint
        ≡ ok f.peer_addr

  abbrev pub IsGenuine : Outcome → Type 0
  IsGenuine Outcome.going = Unit
  IsGenuine Outcome.panicked = Unit
  IsGenuine (Outcome.returned f) = IsAuthentic f
  IsGenuine (Outcome.failed e) = Unit

  -- What `none`, a panic, leaves open.
  abbrev pub OnSome : Option Exchange → Type 0
  OnSome none = Unit
  OnSome (some s) = IsValid s

  -- What a turn leaves.
  abbrev pub Leaves : Exchange × List Bytes × Outcome → Type 0
  Leaves r = IsValid r.0 × IsGenuine r.2
