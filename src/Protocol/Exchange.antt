-- ===== src/Protocol/Exchange.antt =====
-- crates/qvole-protocol/src/exchange.rs: the errors of the exchange and what it takes from the crate
-- of the key agreement.
pub mod Config
pub mod Spake
pub mod Confirm
pub mod State
pub mod Send
pub mod Receive
pub mod Turn
pub mod Invariant
pub mod Ends
pub mod Answer
use qvole_rs.Base.{ℕ, Bytes}
use qvole_rs.Spake2.Curve.{Curve, Crypto}
use qvole_rs.Spake2.State.{Error, Generators}

-- An error that is kept as its text only is kept here as the error.
pub data ExchangeError : Type 0 where
  spake2_state : Error → ExchangeError
  invalid_hex : ExchangeError
  wire : Bytes → ExchangeError
  derive_key bad_confirm encrypt_addr decrypt_addr : Error → ExchangeError
  address_too_long : ℕ → ℕ → ExchangeError
  confirm_payload_too_short confirm_mismatch timeout relay_read cancelled : ExchangeError

-- `n_point` is the generator N in the form that `marshal_point` gives it.
pub record Suite (P : Type 0) : Type 0 where
  pub curve : Curve P
  pub generators : Generators P
  pub crypto : Crypto
  pub n_point : Bytes
