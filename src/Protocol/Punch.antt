-- ===== src/Protocol/Punch.antt =====
-- crates/qvole-protocol/src/punch.rs: the listener and the sender of a hole punch, as functions of
-- what they meet in turn. Sockets, the channel and the ticker are left out.
use qvole_rs.Base.{
  ℕ, zero, suc, ◌/◌, ◌^◌, min, ap, ◌∙◌, ◌+◌, ◌%◌, ◌<◌, ◌≡◌, subst, ◌⊎◌, inl, inr, refl, Bool, true,
  not, ◌&&◌, ◌||◌, Option, none, some, List, [], ◌∷◌, arith, ltb, ◌==◌, if◌then◌else◌, if_elim, eqb,
  eqb-true,
}
use qvole_rs.Relay.Addr.{IpAddr, SocketAddr, ip_key_instance}

-- What a turn of the listener meets: a cancelled token, an error or the end of the read deadline, or
-- a packet of some bytes.
pub data Heard : Type 0 where
  cancelled silent : Heard
  packet : ℕ → SocketAddr → Heard

-- `listening` is a listener that has met all of the list.
pub data Listened : Type 0 where
  listening stopped : Listened
  observed : SocketAddr → Listened

abbrev pub ip : SocketAddr → IpAddr
ip (SocketAddr.v4 a port) = IpAddr.v4 a
ip (SocketAddr.v6 hi lo port flow scope) = IpAddr.v6 hi lo

abbrev is_from : Option IpAddr → SocketAddr → Bool
is_from none from = true
is_from (some expected) from = eqb (ip from) expected

unfoldable pub listen_for_punch : Option IpAddr → List Heard → Listened
listen_for_punch peer_ip [] = Listened.listening
listen_for_punch peer_ip (Heard.cancelled ∷ rest) = Listened.stopped
listen_for_punch peer_ip (Heard.silent ∷ rest) = listen_for_punch peer_ip rest
listen_for_punch peer_ip (Heard.packet n from ∷ rest) =
    let later = listen_for_punch peer_ip rest in
    if n == 0 || not (is_from peer_ip from) then later else Listened.observed from

-- `PUNCH_PAYLOAD_SIZES.len()` and `PUNCH_INTERVALS.len()`
abbrev pub payload_count : ℕ
payload_count = 4

abbrev pub interval_count : ℕ
interval_count = 3

pub record Puncher : Type 0 where
  pub interval_idx : ℕ
  pub attempt : ℕ

-- What the `select!` of the sender meets; `first` is what the listener has sent, `closed` the end of
-- its channel.
pub data Signal : Type 0 where
  stop closed tick : Signal
  first : SocketAddr → Signal

-- The counter of attempts has 32 bits and wraps, as in a release build; with overflow checks the
-- source panics at the last one.
unfoldable pub on_tick : Puncher → Puncher
on_tick p =
    let attempt = (p.attempt + 1) % 2 ^ 32 in
    if attempt % 5 == 0 && ltb (p.interval_idx + 1) interval_count
    then record { interval_idx = p.interval_idx + 1; attempt = attempt }
    else record { interval_idx = p.interval_idx; attempt = attempt }

-- `Some(None)` and `Some(Some(_))` are what the loop breaks with; and the index of each payload sent.
unfoldable pub punch : List Signal → Puncher → Puncher × List ℕ × Option (Option SocketAddr)
unfolding on_tick
punch [] p = (p, [], none)
punch (Signal.stop ∷ rest) p = (p, [], some none)
punch (Signal.closed ∷ rest) p = (p, [], some none)
punch (Signal.first from ∷ rest) p = (p, [], some (some from))
punch (Signal.tick ∷ rest) p =
    let later = punch rest (on_tick p) in (later.0, p.attempt % payload_count ∷ later.1, later.2)

unfoldable pub start_hole_punching : Puncher
start_hole_punching = record { interval_idx = 0; attempt = 0 }

pub data PunchOutcome : Type 0 where
  observed : SocketAddr → PunchOutcome
  aborted timed_out : PunchOutcome

-- `none` is the end of the punch timeout; `some none` a dropped or empty answer.
unfoldable pub await_punch : Option (Option SocketAddr) → PunchOutcome
await_punch none = PunchOutcome.timed_out
await_punch (some none) = PunchOutcome.aborted
await_punch (some (some addr)) = PunchOutcome.observed addr

-- A packet that is not empty, from an address, is in the list.
abbrev pub Came : SocketAddr → List Heard → Type 0
Came from [] = ⊥
Came from (Heard.cancelled ∷ rest) = Came from rest
Came from (Heard.silent ∷ rest) = Came from rest
Came from (Heard.packet n other ∷ rest) = ((0 < n) × (other ≡ from)) ⊎ Came from rest

abbrev FromPeer : IpAddr → List Heard → Listened → Type 0
FromPeer expected heard Listened.listening = Unit
FromPeer expected heard Listened.stopped = Unit
FromPeer expected heard (Listened.observed from) = (ip from ≡ expected) × Came from heard

Came-cons :
    (from : SocketAddr) (h : Heard) (heard : List Heard) → Came from heard → Came from (h ∷ heard)
Came-cons from Heard.cancelled heard c = c
Came-cons from Heard.silent heard c = c
Came-cons from (Heard.packet n other) heard c = inr c

FromPeer-cons :
    (expected : IpAddr) (h : Heard) (heard : List Heard) (l : Listened)
    → FromPeer expected heard l
    → FromPeer expected (h ∷ heard) l
FromPeer-cons expected h heard Listened.listening f = tt
FromPeer-cons expected h heard Listened.stopped f = tt
FromPeer-cons expected h heard (Listened.observed from) f = (f.0, Came-cons from h heard f.1)

listen_for_punch-FromPeer :
    (expected : IpAddr) (heard : List Heard)
    → FromPeer expected heard (listen_for_punch (some expected) heard)
unfolding listen_for_punch
listen_for_punch-FromPeer expected [] = tt
listen_for_punch-FromPeer expected (Heard.cancelled ∷ rest) = tt
listen_for_punch-FromPeer expected (Heard.silent ∷ rest) =
    FromPeer-cons expected Heard.silent rest _ (listen_for_punch-FromPeer expected rest)
listen_for_punch-FromPeer expected (Heard.packet n from ∷ rest) =
    let later = listen_for_punch-FromPeer expected rest in
    if_elim (FromPeer expected (Heard.packet n from ∷ rest))
      (n == 0 || not (eqb (ip from) expected)) _ _
      (λ t. FromPeer-cons expected (Heard.packet n from) rest _ later)
      (λ f. (eqb-true (ip from) expected (ground arith), inl (ground arith, refl)))

-- When the listener of a hole punch with an expected address ends with an observed source, this
-- source has the expected IP address, and a packet from it that was not empty had come.
pub listen_for_punch-observed :
    (expected : IpAddr) (heard : List Heard) (from : SocketAddr)
    → listen_for_punch (some expected) heard ≡ Listened.observed from
    → (ip from ≡ expected) × Came from heard
listen_for_punch-observed expected heard from h =
    subst (FromPeer expected heard) h (listen_for_punch-FromPeer expected heard)

-- The ticks before the first other signal.
abbrev pub ticks_of : List Signal → ℕ
ticks_of [] = 0
ticks_of (Signal.stop ∷ rest) = 0
ticks_of (Signal.closed ∷ rest) = 0
ticks_of (Signal.first from ∷ rest) = 0
ticks_of (Signal.tick ∷ rest) = suc (ticks_of rest)

-- The payloads in turn, from the `k`-th on.
abbrev pub cycle : ℕ → ℕ → List ℕ
cycle k zero = []
cycle k (suc n) = k % payload_count ∷ cycle (k + 1) n

-- The sender behind `k` ticks.
abbrev behind : ℕ → Puncher
behind k = record { interval_idx = min (k / 5) 2; attempt = k % 2 ^ 32 }

puncher-eq :
    (i i' a a' : ℕ)
    → i ≡ i'
    → a ≡ a'
    → ◌≡◌ {A = Puncher}
        (record { interval_idx = i; attempt = a })
        (record { interval_idx = i'; attempt = a' })
puncher-eq i i' a a' e e' =
    ap (λ x. record { interval_idx = x; attempt = a }) e
    ∙ ap (λ x. record { interval_idx = i'; attempt = x }) e'

on_tick-behind : (k : ℕ) → on_tick (behind k) ≡ behind (k + 1)
unfolding on_tick
on_tick-behind k =
    let attempt = (k % 2 ^ 32 + 1) % 2 ^ 32 in
    if_elim (λ (p : Puncher). p ≡ behind (k + 1))
      (attempt % 5 == 0 && ltb (min (k / 5) 2 + 1) interval_count) _ _
      (λ t. puncher-eq _ _ _ _ (ground (arith, t)) (omega arith))
      (λ f. puncher-eq _ _ _ _ (ground (arith, f)) (omega arith))

punch-behind :
    (signals : List Signal) (k : ℕ)
    → ((punch signals (behind k)).0 ≡ behind (k + ticks_of signals))
      × ((punch signals (behind k)).1 ≡ cycle k (ticks_of signals))
unfolding punch
punch-behind [] k = (ap behind (omega arith), refl)
punch-behind (Signal.stop ∷ rest) k = (ap behind (omega arith), refl)
punch-behind (Signal.closed ∷ rest) k = (ap behind (omega arith), refl)
punch-behind (Signal.first from ∷ rest) k = (ap behind (omega arith), refl)
punch-behind (Signal.tick ∷ rest) k =
    let (a, b) = punch-behind rest (k + 1) in
    (rw (on_tick-behind k) (a ∙ ap behind (omega arith)), rw (on_tick-behind k) (ground (arith, b)))

-- From the start of a hole punch, whatever signals its sender meets: with n ticks before the first
-- other signal, it has sent the four payloads in turn, n in all, and its interval index is n / 5,
-- at most 2, also when the counter of attempts has wrapped.
pub punch-schedule :
    (signals : List Signal)
    → ((punch signals start_hole_punching).0.interval_idx ≡ min (ticks_of signals / 5) 2)
      × ((punch signals start_hole_punching).1 ≡ cycle 0 (ticks_of signals))
unfolding start_hole_punching
punch-schedule signals =
    let (a, b) = punch-behind signals 0 in
    (ap (λ (p : Puncher). p.interval_idx) a ∙ ap (λ n. min (n / 5) 2) (omega arith), b)
