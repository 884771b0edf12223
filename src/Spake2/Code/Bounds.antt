-- ===== src/Spake2/Code/Bounds.antt =====
-- Random numbers of crates/qvole-spake2/src/code.rs: lemmas on `rand_int`.
use qvole_rs.Base.{ℕ, ◌<◌, ◌≡◌, List, [], ◌∷◌, arith}
use qvole_rs.Spake2.Code.{Drawn, draw, rand_int}

draw-lt : (max r : ℕ) (words : List ℕ) → 0 < max → draw max words ≡ Drawn.drawn r → r < max
unfolding draw
draw-lt max r [] h e = ground arith
draw-lt max r (v ∷ words) h e = ground (arith, draw-lt max r words h)

-- A number that rand_int draws is below the bound, whatever words the random source yields.
pub rand_int-lt : (max r : ℕ) (words : List ℕ) → rand_int max words ≡ Drawn.drawn r → r < max
unfolding rand_int
rand_int-lt max r words e = ground (arith, draw-lt max r words)
