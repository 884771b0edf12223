-- ===== src/Relay/RateLimiter/Budget.antt =====
-- The message budget of crates/qvole-relay/src/room.rs, over a window.
use qvole_rs.Base.{
  ℕ, ◌+◌, ◌-◌, ◌≤◌, ◌<◌, ◌≡◌, inl, inr, true, false, List, [], ◌∷◌, arith, min, All, Bool-cases,
  if◌then◌else◌, length,
}
use qvole_rs.Relay.RateLimiter.{RateLimiter, is_limited, roll}

-- How many calls of a series are let through, at the given instants.
abbrev pub admitted : RateLimiter → List ℕ → ℕ → ℕ → ℕ
admitted r [] window max = 0
admitted r (now ∷ rest) window max =
    let r' = (is_limited r now window max).0 in
    let n = admitted r' rest window max in if (is_limited r now window max).1 then n else n + 1

within :
    (r : RateLimiter) (now window max : ℕ)
    → now - r.window_start ≤ window
    → ((is_limited r now window max).0.window_start ≡ r.window_start)
      × ((is_limited r now window max).0.msg_count
          ≡ (if (is_limited r now window max).1 then r.msg_count else r.msg_count + 1))
      × ((is_limited r now window max).1 ≡ true → max ≤ r.msg_count)
      × ((is_limited r now window max).1 ≡ false → r.msg_count < max)
unfolding is_limited roll
within r now window max h = (ground arith, ground arith, ground arith, ground arith)

-- Within one window the message limiter lets through exactly the smaller of the calls made and the
-- budget left, whatever their instants.
pub admitted-min :
    (r : RateLimiter) (nows : List ℕ) (window max : ℕ)
    → All (λ now. now - r.window_start ≤ window) nows
    → admitted r nows window max ≡ min (length nows) (max - r.msg_count)
admitted-min r [] window max a = ground arith
admitted-min r (now ∷ nows) window max a =
    let (start, count, full, left) = within r now window max a.0 in
    let r' = (is_limited r now window max).0 in
    let ih = admitted-min r' nows window max (rw start a.1) in
    elim (Bool-cases (is_limited r now window max).1) [
      | inl y ↦ ground (arith, ih, count, full, y)
      | inr n ↦ ground (arith, ih, count, left, n)
    ]

-- A call after the window has passed, with a positive budget, is let through and starts a window
-- of its own with one message counted.
is_limited-after :
    (r : RateLimiter) (now window max : ℕ)
    → window < now - r.window_start
    → 0 < max
    → is_limited r now window max ≡ (record { msg_count = 1; window_start = now }, false)
unfolding is_limited roll
is_limited-after r now window max h m = ground arith
