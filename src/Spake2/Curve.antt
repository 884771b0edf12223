-- ===== src/Spake2/Curve.antt =====
-- What crates/qvole-spake2/src/spake2.rs takes from the crates p256, hkdf, hmac, sha2, pbkdf2 and
-- aes_gcm: the curve as a group whose points other than the identity have coordinates, and the
-- symmetric operations.
use qvole_rs.Base.{ℕ, ◌+◌, ◌<◌, ◌≡◌, Option, some, Bytes, length, All, ◌∷◌, ◌++◌}

-- `affine` gives the coordinates of a point other than the identity, 32 bytes each; `from_xy` the
-- point of two coordinates, when it is on the curve; `negate` the negation of the field. `parse` is
-- `EncodedPoint::from_bytes`, then `AffinePoint::from_encoded_point`.
pub record Curve (P : Type 0) : Type 0 where
  pub zero : P
  pub add : P → P → P
  pub neg : P → P
  pub mul : ℕ → P → P
  pub base : P
  pub affine : P → Option (Bytes × Bytes)
  pub from_xy : Bytes → Bytes → Option P
  pub negate : Bytes → Bytes
  pub parse : Bytes → Option (Option P)

-- `marshal_point`
unfoldable pub marshal_point : Bytes × Bytes → Bytes
marshal_point (x, y) = 4 ∷ (x ++ y)

pub record IsCurve {P : Type 0} (c : Curve P) : Type 0 where
  pub add_assoc : (p q r : P) → c.add (c.add p q) r ≡ c.add p (c.add q r)
  pub add-zero : (p : P) → c.add p c.zero ≡ p
  pub add-neg : (p : P) → c.add p (c.neg p) ≡ c.zero
  pub affine-bytes :
      (p : P) (xy : Bytes × Bytes)
      → c.affine p ≡ some xy
      → (length xy.0 ≡ 32) × (length xy.1 ≡ 32) × All (λ b. b < 256) xy.0 × All (λ b. b < 256) xy.1
  pub mul_comm : (j k : ℕ) (p : P) → c.mul j (c.mul k p) ≡ c.mul k (c.mul j p)
  pub from_xy-negate :
      (p : P) (xy : Bytes × Bytes)
      → c.affine p ≡ some xy
      → c.from_xy xy.0 (c.negate xy.1) ≡ some (c.neg p)
  pub parse-marshal :
      (p : P) (xy : Bytes × Bytes)
      → c.affine p ≡ some xy
      → c.parse (marshal_point xy) ≡ some (some p)

-- `expand` is that of HKDF-SHA256 with a salt, a secret and an info; `hmac` the code of a key and a
-- text; `encrypt` and `decrypt` are AES-256-GCM with a key, a nonce, a text and associated data.
pub record Crypto : Type 0 where
  pub sha256 : Bytes → Bytes
  pub expand : Bytes → Bytes → Bytes → ℕ → Option Bytes
  pub hmac : Bytes → Bytes → Option Bytes
  pub encrypt : Bytes → Bytes → Bytes → Bytes → Option Bytes
  pub decrypt : Bytes → Bytes → Bytes → Bytes → Option Bytes

pub record IsCrypto (k : Crypto) : Type 0 where
  pub decrypt-encrypt :
      (key nonce msg aad ct : Bytes)
      → k.encrypt key nonce msg aad ≡ some ct
      → k.decrypt key nonce ct aad ≡ some msg
  pub length-encrypt :
      (key nonce msg aad ct : Bytes)
      → k.encrypt key nonce msg aad ≡ some ct
      → length ct ≡ length msg + 16
  pub encrypt-bytes :
      (key nonce msg aad ct : Bytes) → k.encrypt key nonce msg aad ≡ some ct → All (λ c. c < 256) ct
  pub length-hmac : (key msg mac : Bytes) → k.hmac key msg ≡ some mac → length mac ≡ 32
  pub hmac-bytes : (key msg mac : Bytes) → k.hmac key msg ≡ some mac → All (λ c. c < 256) mac
