-- ===== src/Protocol/Exchange/Spake.antt =====
-- crates/qvole-protocol/src/exchange.rs: `process_spake_msg`.
pub mod Agreement
use qvole_rs.Base.{
  Bool, true, false, not, ◌||◌, List, [], ◌∷◌, ◌++◌, ltb, ◌==◌, if◌then◌else◌, Bytes, bytes,
  bytes_key, length, take, drop, eqb,
}
use qvole_rs.Base.Order.{gt}
use qvole_rs.Base.Result.{Result, ok, err, ok_or, map_err, ◌>>=◌}
use qvole_rs.Spake2.State.{State, blinded_bytes_m, blinded_bytes_n, compute_shared}
use qvole_rs.Spake2.Session.{derive_session_key}
use qvole_rs.Protocol.Hex.{hex_decode}
use qvole_rs.Protocol.Exchange.{ExchangeError, Suite}

pub record ProcessedSpake : Type 0 where
  pub effective_my_point : Bytes
  pub effective_peer_point : Bytes
  pub peer_fingerprint : Bytes
  pub is_server : Bool
  pub confirm_key : Bytes
  pub enc_key : Bytes

module _ {P : Type 0} (suite : Suite P) where
  -- What the exchange sends to a peer.
  unfoldable pub spake2_payload : State → Bytes → Bytes
  spake2_payload state my_fingerprint =
      blinded_bytes_m suite.curve suite.generators state
      ++ (blinded_bytes_n suite.curve suite.generators state ++ my_fingerprint)

  -- From the two effective points on.
  unfoldable pub derive :
      State → Bytes → Bytes → Bool → Bytes → Bytes → Result ExchangeError ProcessedSpake
  derive state my_fingerprint peer_fingerprint is_server my_point peer_point = do
    shared ←
        map_err ExchangeError.spake2_state
          (compute_shared suite.curve suite.generators state peer_point is_server)
    keys ← map_err ExchangeError.derive_key (
        derive_session_key suite.crypto suite.n_point shared my_point peer_point my_fingerprint
          peer_fingerprint)
    ok (record {
      effective_my_point = my_point;
      effective_peer_point = peer_point;
      peer_fingerprint = peer_fingerprint;
      is_server = is_server;
      confirm_key = keys.0;
      enc_key = keys.1;
    })

  -- From the parts of the payload on.
  unfoldable pub compare :
      State → Bytes → Bytes → Bytes → Bytes → Bytes → Bytes → Result ExchangeError ProcessedSpake
  unfolding derive
  compare state my_m my_n my_fingerprint peer_m peer_n peer_fingerprint =
      if not (length my_fingerprint == 32) || not (length peer_fingerprint == 32)
      then err (ExchangeError.wire (bytes "spake2: certificate fingerprints must be 32 bytes"))
      else if eqb my_fingerprint peer_fingerprint
      then err (ExchangeError.wire (bytes "spake2: peer sent reflected certificate fingerprint"))
      else if eqb my_m peer_m
      then err (ExchangeError.wire (bytes "spake2: peer sent reflected point"))
      else if gt my_m peer_m
      then derive state my_fingerprint peer_fingerprint true my_n peer_m
      else derive state my_fingerprint peer_fingerprint false my_m peer_n

  unfoldable pub process_spake_msg :
      Bytes → State → Bytes → Bytes → Bytes → Result ExchangeError ProcessedSpake
  unfolding compare
  process_spake_msg body state my_m my_n my_fingerprint = do
    payload ← ok_or ExchangeError.invalid_hex (hex_decode body)
    if ltb (length payload) 162
        then err (ExchangeError.wire (bytes "spake2 payload too short"))
        else compare state my_m my_n my_fingerprint (take 65 payload) (take 65 (drop 65 payload))
            (take 32 (drop 130 payload))
