-- ===== src/Examples/Exchange.antt =====
-- The theorems on the key agreement and the exchange at concrete inputs: two sides with one
-- password, and one that waits for the other.
use qvole_rs.Base.{
  ℕ, zero, suc, ◌<◌, All, ◌-◌, ◌≡◌, ◌↔◌, refl, true, false, some, [], ◌∷◌, ◌++◌, arith, Bytes,
  Bytes-discrete, ℕ_discrete, bytes, replicate, length,
}
use qvole_rs.Base.Result.{ok, ◌>>=◌}
use qvole_rs.Spake2.Compare
use qvole_rs.Spake2.Compare.{constant_time_eq}
use qvole_rs.Spake2.Curve.{marshal_point}
use qvole_rs.Spake2.State.{
  State, Generators, state_from_scalars, blinded_bytes_m, blinded_bytes_n, compute_shared,
  parse_peer_point, affine_xy, secret_of,
}
use qvole_rs.Spake2.State.Agreement
use qvole_rs.Spake2.Session.{
  session_aad, aad_with_generators, derive_session_key, compute_confirm, encrypt_metadata,
}
use qvole_rs.Protocol.Hex.{to_hex_lower, hex_decode}
use qvole_rs.Protocol.Exchange.{Suite}
use qvole_rs.Protocol.Exchange.Spake.{
  ProcessedSpake, process_spake_msg, compare, derive, spake2_payload,
}
use qvole_rs.Protocol.Exchange.Spake.Agreement as SpakeAgreement
use qvole_rs.Protocol.Exchange.Confirm.{Random, build_confirm_payload, process_confirm_msg}
use qvole_rs.Protocol.Exchange.Confirm.RoundTrip
use qvole_rs.Examples.Curve.{Point, curve, curve-IsCurve, crypto, crypto-IsCrypto, all-All}

abbrev pub generators : Generators Point
generators = record { m = Point.p1; n = Point.p1 }

abbrev pub point_of : ℕ → Bytes × Bytes
point_of k = (replicate 31 0 ++ k ∷ [], replicate 31 0 ++ k ∷ [])

abbrev pub suite : Suite Point
suite = record {
  curve = curve;
  generators = generators;
  crypto = crypto;
  n_point = marshal_point (point_of 1);
}

abbrev pub alice : State
alice = record {
  pw_scalar = 1;
  scalar_m = 1;
  scalar_n = 1;
  blinded_m = point_of 2;
  blinded_n = point_of 2;
}

abbrev pub bob : State
bob = record {
  pw_scalar = 1;
  scalar_m = 2;
  scalar_n = 2;
  blinded_m = point_of 3;
  blinded_n = point_of 3;
}

abbrev pub alice_print : Bytes
alice_print = replicate 32 1

abbrev pub bob_print : Bytes
bob_print = replicate 32 2

alice_state : state_from_scalars curve generators 1 1 1 ≡ ok alice
unfolding state_from_scalars curve
alice_state = refl

bob_state : state_from_scalars curve generators 1 2 2 ≡ ok bob
unfolding state_from_scalars curve
bob_state = refl

pub alice-IsHonest : SpakeAgreement.IsHonest suite curve-IsCurve 1 1 1 alice_print alice
unfolding curve
alice-IsHonest =
    (alice_state, (point_of 1, refl), (point_of 1, refl), refl, all-All alice_print refl)

pub bob-IsHonest : SpakeAgreement.IsHonest suite curve-IsCurve 1 2 2 bob_print bob
unfolding curve
bob-IsHonest = (bob_state, (point_of 2, refl), (point_of 2, refl), refl, all-All bob_print refl)

pub affine_one : curve.affine (curve.mul 1 Point.p1) ≡ some (point_of 1)
unfolding curve
affine_one = refl

affine_two : curve.affine (curve.mul 2 curve.base) ≡ some (point_of 2)
unfolding curve
affine_two = refl

base_one : curve.affine (curve.mul 1 curve.base) ≡ some (point_of 1)
unfolding curve
base_one = refl

compute_shared-agree_example :
    (compute_shared curve generators alice (blinded_bytes_m curve generators bob) true ≡ (
      affine_xy curve generators (curve.mul 1 (curve.mul 2 curve.base))
      >>= secret_of curve generators))
    × (compute_shared curve generators alice (blinded_bytes_m curve generators bob) true
        ≡ compute_shared curve generators bob (blinded_bytes_n curve generators alice) false)
compute_shared-agree_example =
    Agreement.compute_shared-agree curve curve-IsCurve generators 1 1 1 2 2 alice bob (point_of 1)
      (point_of 1) (point_of 2) (point_of 1) alice_state bob_state affine_one affine_one affine_two
      base_one

-- What Bob derives from Alice's message.
abbrev pub bob_derived : ProcessedSpake
bob_derived = record {
  effective_my_point = marshal_point (point_of 3);
  effective_peer_point = marshal_point (point_of 2);
  peer_fingerprint = alice_print;
  is_server = true;
  confirm_key = replicate 32 7;
  enc_key = replicate 32 7;
}

abbrev pub m_of : State → Bytes
m_of s = blinded_bytes_m curve generators s

abbrev pub n_of : State → Bytes
n_of s = blinded_bytes_n curve generators s

pub bob_processed :
    process_spake_msg suite
      (to_hex_lower (spake2_payload suite alice alice_print))
      bob
      (m_of bob)
      (n_of bob)
      bob_print
    ≡ ok bob_derived
unfolding process_spake_msg compare derive spake2_payload to_hex_lower hex_decode compute_shared
    parse_peer_point blinded_bytes_m blinded_bytes_n marshal_point curve crypto derive_session_key
    aad_with_generators session_aad constant_time_eq Bytes-discrete ℕ_discrete
bob_processed = refl

process_spake_msg-mirror_example :
    process_spake_msg suite
      (to_hex_lower (spake2_payload suite bob bob_print))
      alice
      (m_of alice)
      (n_of alice)
      alice_print
    ≡ ok (SpakeAgreement.mirror bob_print bob_derived)
process_spake_msg-mirror_example =
    SpakeAgreement.process_spake_msg-mirror suite curve-IsCurve 1 2 2 1 1 bob_print alice_print bob
      alice (point_of 1) (point_of 1) bob-IsHonest alice-IsHonest affine_one affine_one bob_derived
      bob_processed

abbrev pub random : Random
random = record {
  confirm_nonce = replicate 16 3;
  cipher_nonce = replicate 12 4;
  padding = λ n. replicate n 5;
}

padding-bytes : (n : ℕ) → (length {A = ℕ} (replicate n 5) ≡ n) × All (λ c. c < 256) (replicate n 5)
padding-bytes zero = (refl, tt)
padding-bytes (suc n) = let (l, a) = padding-bytes n in (omega (arith, l), (omega arith, a))

pub random-IsRandom : RoundTrip.IsRandom random
random-IsRandom =
    (refl, all-All (replicate 16 3) refl, refl, all-All (replicate 12 4) refl, padding-bytes)

abbrev pub bob_addr : Bytes
bob_addr = bytes "192.0.2.7:4433"

pub bob_addr-IsText : RoundTrip.IsText bob_addr
bob_addr-IsText = ground arith

-- Bob's confirm message: its nonce, its code, the address in its cipher, and the padding.
abbrev pub confirm_payload : ℕ → Bytes → Bytes
confirm_payload code addr =
    replicate 16 3
    ++ (replicate 32 code
        ++ ((replicate 12 4 ++ (addr ++ replicate (68 - length addr) 0)) ++ replicate 32 5))

pub bob_confirm :
    build_confirm_payload suite random bob_derived.confirm_key bob_derived.enc_key
      bob_derived.effective_my_point bob_derived.effective_peer_point bob_print alice_print bob_addr
    ≡ ok (confirm_payload 95 bob_addr)
unfolding build_confirm_payload encrypt_metadata compute_confirm session_aad constant_time_eq crypto
    marshal_point Bytes-discrete ℕ_discrete
bob_confirm = refl

process_confirm_msg-build_example :
    process_confirm_msg suite
      (to_hex_lower (confirm_payload 95 bob_addr))
      bob_derived.confirm_key
      bob_derived.enc_key
      bob_derived.effective_peer_point
      bob_derived.effective_my_point
      alice_print
      bob_print
    ≡ ok bob_addr
process_confirm_msg-build_example =
    RoundTrip.process_confirm_msg-build suite crypto-IsCrypto random bob_derived.confirm_key
      bob_derived.enc_key bob_derived.effective_my_point bob_derived.effective_peer_point bob_print
      alice_print bob_addr (confirm_payload 95 bob_addr) random-IsRandom bob_addr-IsText bob_confirm

constant_time_eq_iff_example :
    (constant_time_eq alice_print bob_print ≡ true) ↔ (alice_print ≡ bob_print)
constant_time_eq_iff_example =
    Compare.constant_time_eq_iff alice_print bob_print (all-All alice_print refl)
      (all-All bob_print refl)
