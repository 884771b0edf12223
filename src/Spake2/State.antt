-- ===== src/Spake2/State.antt =====
-- crates/qvole-spake2/src/spake2.rs: the ephemeral state of one side and the shared secret. The
-- generators M and N, which `hash_to_curve` finds once, are given.
pub mod Agreement
use qvole_rs.Base.{
  ℕ, ◌+◌, ◌-◌, ◌^◌, Bool, true, false, not, Option, none, some, List, [], ◌∷◌, ◌++◌, ltb, leb, ◌==◌,
  if◌then◌else◌, Bytes, all, bytes, zero, suc, ◌*◌, ◌/◌, ◌%◌,
}
use qvole_rs.Protocol.Env.{I64}
use qvole_rs.Base.Result.{Result, ok, err, ok_or, ◌>>=◌}
use qvole_rs.Spake2.Curve.{Curve, marshal_point}

-- The variants of `Error` of crates/qvole-spake2/src/lib.rs that the key agreement returns; `panic`
-- is that of an `expect` or a slice.
pub data Error : Type 0 where
  invalid_peer_point peer_point_off_curve unblinded_identity shared_x_zero : Error
  empty_nonce bad_fingerprint reflected_fingerprint ciphertext_too_short : Error
  gcm gcm_auth hkdf hmac panic : Error

abbrev pub order_n : ℕ
order_n = 0xffffffff00000000ffffffffffffffffbce6faada7179e84f3b9cac2fc632551

-- `U256::from_be_slice`
abbrev pub from_be : ℕ → Bytes → ℕ
from_be n [] = n
from_be n (c ∷ b) = from_be (n * 256 + c) b

unfoldable pub reduce_mod_n : Bytes → ℕ
reduce_mod_n b = let v = from_be 0 b in if leb order_n v then v - order_n else v

-- `u64::to_be_bytes`
abbrev be_bytes : ℕ → ℕ → Bytes
be_bytes zero n = []
be_bytes (suc k) n = n / 256 ^ k % 256 ∷ be_bytes k n

-- `reduce_mod_p`, for the prime of the curve
abbrev pub mod_p : ℕ
mod_p = 0xffffffff00000001000000000000000000000000ffffffffffffffffffffffff

unfoldable pub reduce_mod_p : Bytes → ℕ
reduce_mod_p b = let v = from_be 0 b in if leb mod_p v then v - mod_p else v

-- The value of `QVOLE_KDF_ITERATIONS`, when it is a number; the cast drops the upper half.
unfoldable pub kdf_iterations : Option I64 → ℕ
kdf_iterations none = 600000
kdf_iterations (some (I64.negsuc n)) = 600000
kdf_iterations (some (I64.pos n)) = if leb 100000 n then n % 2 ^ 32 else 600000

-- The loop, from a counter on; `none` when the fuel is spent. `weierstrass_y` finds the
-- y-coordinate of a point with an x-coordinate, when there is one.
unfoldable pub hash_from : (Bytes → Bytes) → (ℕ → Option ℕ) → ℕ → Bytes → ℕ → Option (ℕ × ℕ)
unfolding reduce_mod_p
hash_from sha256 weierstrass_y zero h counter = none
hash_from sha256 weierstrass_y (suc fuel) h counter =
    let x = reduce_mod_p (sha256 (h ++ be_bytes 8 counter)) in
    let rest = hash_from sha256 weierstrass_y fuel h (counter + 1) in
    if x == 0 then rest else elim (weierstrass_y x) [ none ↦ rest | some y ↦ some (x, y) ]

unfoldable pub hash_to_curve : (Bytes → Bytes) → (ℕ → Option ℕ) → ℕ → Bytes → Option (ℕ × ℕ)
unfolding hash_from
hash_to_curve sha256 weierstrass_y fuel seed = hash_from sha256 weierstrass_y fuel (sha256 seed) 0

unfoldable pub counter_input : Bytes → ℕ → Bytes
counter_input pw counter = if counter == 0 then pw else pw ++ be_bytes 8 counter

-- The loop, from a counter on; `none` when the fuel is spent. `pbkdf2` takes an input and a salt.
unfoldable pub scalar_from : (Bytes → Bytes → Bytes) → ℕ → Bytes → ℕ → Option ℕ
unfolding reduce_mod_n counter_input
scalar_from pbkdf2 zero pw counter = none
scalar_from pbkdf2 (suc fuel) pw counter =
    let s = reduce_mod_n (pbkdf2 (counter_input pw counter) (bytes "qvole-spake2-pw:")) in
    let rest = scalar_from pbkdf2 fuel pw (counter + 1) in if not (s == 0) then some s else rest

unfoldable pub password_to_scalar : (Bytes → Bytes → Bytes) → ℕ → Bytes → Option ℕ
unfolding scalar_from
password_to_scalar pbkdf2 fuel password =
    scalar_from pbkdf2 fuel (bytes "qvole-spake2-pw:" ++ password) 0

pub record Generators (P : Type 0) : Type 0 where
  pub m : P
  pub n : P

pub record State : Type 0 where
  pub pw_scalar : ℕ
  pub scalar_m : ℕ
  pub scalar_n : ℕ
  pub blinded_m : Bytes × Bytes
  pub blinded_n : Bytes × Bytes

module _ {P : Type 0} (c : Curve P) (g : Generators P) where
  -- `affine_xy` panics at the identity.
  abbrev pub affine_xy : P → Result Error (Bytes × Bytes)
  affine_xy p = ok_or Error.panic (c.affine p)

  abbrev pub blinded : ℕ → ℕ → P → P
  blinded scalar pw generator = c.add (c.mul scalar c.base) (c.mul pw generator)

  unfoldable pub state_from_scalars : ℕ → ℕ → ℕ → Result Error State
  state_from_scalars pw scalar_m scalar_n = do
    bm ← affine_xy (blinded scalar_m pw g.m)
    bn ← affine_xy (blinded scalar_n pw g.n)
    ok (record {
      pw_scalar = pw;
      scalar_m = scalar_m;
      scalar_n = scalar_n;
      blinded_m = bm;
      blinded_n = bn;
    })

  -- The two random numbers are what the random source yields; `none` when the fuel is spent.
  unfoldable pub new_state :
      (Bytes → Bytes → Bytes) → ℕ → Bytes → Bytes → Bytes → Option (Result Error State)
  unfolding password_to_scalar reduce_mod_n state_from_scalars
  new_state pbkdf2 fuel password priv_m priv_n = elim (password_to_scalar pbkdf2 fuel password) [
    | none ↦ none
    | some pw ↦ some (state_from_scalars pw (reduce_mod_n priv_m) (reduce_mod_n priv_n))
  ]

  unfoldable pub blinded_bytes_m : State → Bytes
  blinded_bytes_m s = marshal_point s.blinded_m

  unfoldable pub blinded_bytes_n : State → Bytes
  blinded_bytes_n s = marshal_point s.blinded_n

  unfoldable pub parse_peer_point : Bytes → Result Error P
  parse_peer_point b = do
    point ← ok_or Error.invalid_peer_point (c.parse b)
    ok_or Error.peer_point_off_curve point

  abbrev generator : Bool → P
  generator true = g.m
  generator false = g.n

  abbrev my_scalar : Bool → State → ℕ
  my_scalar true s = s.scalar_n
  my_scalar false s = s.scalar_m

  -- The x-coordinate of the shared point, unless it is zero.
  abbrev pub secret_of : Bytes × Bytes → Result Error Bytes
  secret_of (x, y) = if all (λ b. b == 0) x then err Error.shared_x_zero else ok x

  -- The peer's point without its blinding, unless that is the identity.
  abbrev pub shared_from : State → Bool → P → Result Error Bytes
  shared_from s peer_used_m unblinded = do
    _ ← ok_or Error.unblinded_identity (c.affine unblinded)
    xy ← affine_xy (c.mul (my_scalar peer_used_m s) unblinded)
    secret_of xy

  unfoldable pub compute_shared : State → Bytes → Bool → Result Error Bytes
  unfolding parse_peer_point
  compute_shared s peer_blinded_bytes peer_used_m = do
    peer ← parse_peer_point peer_blinded_bytes
    pw ← affine_xy (c.mul s.pw_scalar (generator peer_used_m))
    pw_neg ← ok_or Error.panic (c.from_xy pw.0 (c.negate pw.1))
    shared_from s peer_used_m (c.add peer pw_neg)
