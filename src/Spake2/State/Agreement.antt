-- ===== src/Spake2/State/Agreement.antt =====
-- The shared secret of crates/qvole-spake2/src/spake2.rs, on both sides.
use qvole_rs.Base.{
  ℕ, ◌≡◌, refl, ◌∙◌, ap, Bool, true, false, some, arith, Bytes, Option-cases, inl, inr,
}
use qvole_rs.Base.Result.{ok, ◌>>=◌}
use qvole_rs.Spake2.Curve.{Curve, IsCurve, marshal_point}
use qvole_rs.Spake2.State.{
  Generators, State, affine_xy, blinded, state_from_scalars, blinded_bytes_m, blinded_bytes_n,
  parse_peer_point, secret_of, shared_from, compute_shared, generator, my_scalar,
}

module _ {P : Type 0} (c : Curve P) (law : IsCurve c) (g : Generators P) where
  add_cancel : (p q : P) → c.add (c.add p q) (c.neg q) ≡ p
  add_cancel p q = law.add_assoc p q (c.neg q) ∙ (ap (c.add p) (law.add-neg q) ∙ law.add-zero p)

  -- What is shared with a peer that blinded a scalar with the same password.
  compute_shared-blinded :
      (s : State) (used_m : Bool) (r : ℕ) (xy w : Bytes × Bytes)
      → c.affine (blinded c g r s.pw_scalar (generator c g used_m)) ≡ some xy
      → c.affine (c.mul s.pw_scalar (generator c g used_m)) ≡ some w
      → compute_shared c g s (marshal_point xy) used_m ≡ shared_from c g s used_m (c.mul r c.base)
  unfolding compute_shared parse_peer_point
  compute_shared-blinded s used_m r xy w e k = rw (
    law.parse-marshal _ xy e,
    k,
    law.from_xy-negate _ w k,
    add_cancel (c.mul r c.base) (c.mul s.pw_scalar (generator c g used_m)),
  )

  shared_from-some :
      (s : State) (used_m : Bool) (p : P) (u : Bytes × Bytes)
      → c.affine p ≡ some u
      → shared_from c g s used_m p
        ≡ (affine_xy c g (c.mul (my_scalar c g used_m s) p) >>= secret_of c g)
  shared_from-some s used_m p u h = rw h refl

  -- What `state_from_scalars` builds.
  abbrev pub IsState : ℕ → ℕ → ℕ → State → Type 0
  IsState pw m n s =
      (s.pw_scalar ≡ pw)
      × (s.scalar_m ≡ m)
      × (s.scalar_n ≡ n)
      × (c.affine (blinded c g m pw g.m) ≡ some s.blinded_m)
      × (c.affine (blinded c g n pw g.n) ≡ some s.blinded_n)

  pub state_from_scalars-IsState :
      (pw m n : ℕ) (s : State) → state_from_scalars c g pw m n ≡ ok s → IsState pw m n s
  unfolding state_from_scalars
  state_from_scalars-IsState pw m n s h = elim (Option-cases (c.affine (blinded c g m pw g.m))) [
    | inl q ↦ absurd (ground (arith, h, q))
    | inr (bm, q) ↦ elim (Option-cases (c.affine (blinded c g n pw g.n))) [
      | inl k ↦ absurd (ground (arith, h, q, k))
      | inr (bn, k) ↦ (
        ground (arith, h, q, k),
        ground (arith, h, q, k),
        ground (arith, h, q, k),
        ground (arith, h, q, k),
        ground (arith, h, q, k),
      )
    ]
  ]

  -- On a curve that obeys the laws of IsCurve, for two states built with one password scalar,
  -- where the scalar times M and times N, and the two ephemeral scalars used times the base point,
  -- are not the identity: compute_shared of the N side on the other's M-blinded point and of the M
  -- side on the other's N-blinded point agree, also in their errors, and are the x-coordinate of
  -- the product of both ephemeral scalars with the base point.
  pub compute_shared-agree :
      (pw m n m' n' : ℕ) (s s' : State) (pm pn u v : Bytes × Bytes)
      → state_from_scalars c g pw m n ≡ ok s
      → state_from_scalars c g pw m' n' ≡ ok s'
      → c.affine (c.mul pw g.m) ≡ some pm
      → c.affine (c.mul pw g.n) ≡ some pn
      → c.affine (c.mul m' c.base) ≡ some u
      → c.affine (c.mul n c.base) ≡ some v
      → ((compute_shared c g s (blinded_bytes_m c g s') true
            ≡ (affine_xy c g (c.mul n (c.mul m' c.base)) >>= secret_of c g))
          × (compute_shared c g s (blinded_bytes_m c g s') true
              ≡ compute_shared c g s' (blinded_bytes_n c g s) false))
  unfolding blinded_bytes_m blinded_bytes_n
  compute_shared-agree pw m n m' n' s s' pm pn u v h h' km kn ku kv =
      let (p, q, r, x, y) = state_from_scalars-IsState pw m n s h in
      let (p', q', r', x', y') = state_from_scalars-IsState pw m' n' s' h' in
      let left = compute_shared-blinded s true m' s'.blinded_m pm (rw (p, x')) (rw (p, km)) in
      let right = compute_shared-blinded s' false n s.blinded_n pn (rw (p', y)) (rw (p', kn)) in
      let left' = left ∙ shared_from-some s true (c.mul m' c.base) u ku in
      let right' = right ∙ shared_from-some s' false (c.mul n c.base) v kv in
      (rw (left', r), rw (left', right', r, q', law.mul_comm n m' c.base))
