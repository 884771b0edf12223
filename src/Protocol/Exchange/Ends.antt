-- ===== src/Protocol/Exchange/Ends.antt =====
-- crates/qvole-protocol/src/exchange.rs: the end of the loop of `register_and_exchange`.
use qvole_rs.Base.{
  ℕ, ℕ_discrete, zero, suc, ◌+◌, ◌≤◌, ◌<◌, ◌≡◌, refl, Bool, true, false, List, arith, ltb, if_elim,
  Bytes,
}
use qvole_rs.Protocol.Exchange.State.{Exchange, Outcome, Peer, Tick}
use qvole_rs.Protocol.Exchange.Turn.{turn, and_then, exchange}

abbrev pub is_going : Outcome → Bool
is_going Outcome.going = true
is_going Outcome.panicked = false
is_going (Outcome.returned f) = false
is_going (Outcome.failed e) = false

and_then-ended :
    (r rest : Exchange × List Bytes × Outcome)
    → is_going r.2 ≡ false
    → is_going (and_then r rest).2 ≡ false
and_then-ended (s, out, Outcome.going) rest h = absurd (ground arith)
and_then-ended (s, out, Outcome.panicked) rest h = refl
and_then-ended (s, out, Outcome.returned f) rest h = refl
and_then-ended (s, out, Outcome.failed e) rest h = refl

and_then-later :
    (r rest : Exchange × List Bytes × Outcome)
    → is_going rest.2 ≡ false
    → is_going (and_then r rest).2 ≡ false
and_then-later (s, out, Outcome.going) rest h = h
and_then-later (s, out, Outcome.panicked) rest h = refl
and_then-later (s, out, Outcome.returned f) rest h = refl
and_then-later (s, out, Outcome.failed e) rest h = refl

module _ {P : Type 0} (peer : Peer P) where
  turn-late :
      (tick : Tick) (s : Exchange)
      → peer.deadline < tick.now
      → is_going (turn peer tick s).2 ≡ false
  unfolding turn
  turn-late tick s h =
      let Ended : Exchange × List Bytes × Outcome → Type 0 = λ r. is_going r.2 ≡ false in
      if_elim Ended tick.is_cancelled _ _ (λ t. refl)
        (λ f.
          if_elim Ended (ltb peer.deadline tick.now) _ _ (λ t. refl) (λ f'. absurd (ground arith)))

  exchange-late :
      (fuel i k : ℕ) (ticks : ℕ → Tick) (s : Exchange)
      → i ≤ k
      → k < i + fuel
      → peer.deadline < (ticks k).now
      → is_going (exchange peer fuel i ticks s).2 ≡ false
  unfolding exchange
  exchange-late zero i k ticks s l m h = absurd (omega arith)
  exchange-late (suc fuel) i k ticks s l m h = elim (ℕ_discrete i k) [
    | yes e ↦ and_then-ended (turn peer (ticks i) s) _ (turn-late (ticks i) s (rw e h))
    | no n ↦
        let j : i + 1 ≤ k = omega (arith, n) in
        and_then-later (turn peer (ticks i) s) _
          (exchange-late fuel (i + 1) k ticks (turn peer (ticks i) s).0 j (omega arith) h)
  ]

  -- When the clock has passed the deadline at some turn, the loop of the exchange has ended by the
  -- end of that turn, with a peer, an error or a panic, whatever the turns before it met.
  pub exchange-ends :
      (k : ℕ) (ticks : ℕ → Tick) (s : Exchange)
      → peer.deadline < (ticks k).now
      → is_going (exchange peer (k + 1) 0 ticks s).2 ≡ false
  exchange-ends k ticks s h = exchange-late (k + 1) 0 k ticks s (omega arith) (omega arith) h
