-- ===== src/Examples/Answer.antt =====
-- The theorems on the loop of the exchange at concrete inputs: one side waits, and the other answers.
use qvole_rs.Base.Map
use qvole_rs.Base.{
  ℕ, zero, suc, bytes_key, ◌*◌, ◌≡◌, refl, true, false, ◌++◌, arith, Bytes, Bytes-discrete,
  ℕ_discrete, bytes,
}
use qvole_rs.Base.Split.{strip_prefix}
use qvole_rs.Base.Strip.{is_space}
use qvole_rs.Base.Result.{ok}
use qvole_rs.Spake2.Compare.{constant_time_eq}
use qvole_rs.Spake2.Curve.{marshal_point}
use qvole_rs.Spake2.State.{compute_shared, parse_peer_point, blinded_bytes_m, blinded_bytes_n}
use qvole_rs.Spake2.Session.{
  session_aad, aad_with_generators, derive_session_key, compute_confirm, verify_confirm,
  encrypt_metadata, decrypt_metadata,
}
use qvole_rs.Protocol.Hex.{to_hex_lower, hex_decode}
use qvole_rs.Protocol.Trim.{trim_ascii}
use qvole_rs.Protocol.Exchange.Spake.{process_spake_msg, compare, derive, spake2_payload}
use qvole_rs.Protocol.Exchange.Confirm.{
  build_confirm_payload, process_confirm_msg, until_zero, from_chars,
}
use qvole_rs.Protocol.Exchange.State.{Found, Outcome, Peer, Received, Tick, start}
use qvole_rs.Protocol.Exchange.Send.{send_all}
use qvole_rs.Protocol.Exchange.Receive.{
  count_inbound, on_spake2, on_confirm, add_candidate, evict_candidate, find_buffered,
  find_candidate, keep_confirm,
}
use qvole_rs.Protocol.Exchange.Turn.{turn, exchange, on_received, on_line, on_message, on_text}
use qvole_rs.Protocol.Exchange.Invariant.{IsValid, IsAuthentic, heard_in}
use qvole_rs.Protocol.Exchange.Invariant.Run
use qvole_rs.Protocol.Exchange.Ends
use qvole_rs.Protocol.Exchange.Ends.{is_going}
use qvole_rs.Protocol.Exchange.Answer
use qvole_rs.Examples.{text}
use qvole_rs.Examples.Curve.{Point, curve, curve-IsCurve, crypto, crypto-IsCrypto}
use qvole_rs.Examples.Exchange.{
  suite, alice, bob, alice_print, bob_print, bob_derived, random, bob_addr, confirm_payload,
  point_of, alice-IsHonest, bob-IsHonest, affine_one, random-IsRandom, bob_addr-IsText, bob_confirm,
  bob_processed,
}

abbrev waiting_peer : Peer Point
waiting_peer = record {
  suite = suite;
  state = alice;
  my_fingerprint = alice_print;
  room = bytes "1234";
  deadline = 90000000000;
  spake2_resend = 2000000000;
  confirm_resend = 2000000000;
  reg_interval = 30000000000;
  is_utf8 = λ b. true;
  text = text;
}

abbrev alice_addr : Bytes
alice_addr = bytes "198.51.100.2:9000"

abbrev hello : Bytes
hello = to_hex_lower (spake2_payload suite bob bob_print)

abbrev answer : Bytes
answer = to_hex_lower (confirm_payload 95 bob_addr)

abbrev tick_at : ℕ → Received → Tick
tick_at now received = record {
  is_cancelled = false;
  now = now;
  later = now;
  received = received;
  random = random;
}

abbrev silence : ℕ → Tick
silence i = tick_at (i * 1000000000) Received.timed_out

exchange-ends_example : is_going (exchange waiting_peer 92 0 silence (start alice_addr)).2 ≡ false
exchange-ends_example = Ends.exchange-ends waiting_peer 91 silence (start alice_addr) (omega arith)

no_candidate : Map.contains hello (start alice_addr).candidates ≡ false
unfolding start Map.contains Map.empty Map.get
no_candidate = refl

alice_confirm :
    build_confirm_payload suite random bob_derived.confirm_key bob_derived.enc_key
      bob_derived.effective_peer_point bob_derived.effective_my_point alice_print bob_print
      alice_addr
    ≡ ok (confirm_payload 95 alice_addr)
unfolding build_confirm_payload encrypt_metadata compute_confirm session_aad constant_time_eq crypto
    marshal_point Bytes-discrete ℕ_discrete
alice_confirm = refl

on_confirm-honest_example :
    (f : Found) × ((on_confirm waiting_peer answer
        (on_spake2 waiting_peer (tick_at 1 (Received.timed_out)) hello (start alice_addr)).0).2
      ≡ Outcome.returned f)
unfolding start
on_confirm-honest_example =
    Answer.on_confirm-honest waiting_peer curve-IsCurve crypto-IsCrypto 1 1 1 2 2 bob_print bob_addr
      (confirm_payload 95 alice_addr) (confirm_payload 95 bob_addr) bob (point_of 1) (point_of 1)
      bob_derived (tick_at 1 Received.timed_out) random (start alice_addr) alice-IsHonest
      bob-IsHonest affine_one affine_one bob_processed no_candidate alice_confirm bob_confirm
      random-IsRandom bob_addr-IsText

abbrev answered : ℕ → Tick
answered zero = tick_at 1 (Received.datagram (bytes "MSGD spake2 " ++ hello))
answered (suc i) = tick_at 2 (Received.datagram (bytes "MSGD confirm " ++ answer))

abbrev bob_found : Found
bob_found = record { peer_addr = bob_addr; peer_fingerprint = bob_print; is_server = false }

exchange_returns :
    (exchange waiting_peer 3 0 answered (start alice_addr)).2 ≡ Outcome.returned bob_found
unfolding exchange turn send_all on_received on_line on_message on_text on_spake2 on_confirm start
    trim_ascii strip_prefix count_inbound add_candidate evict_candidate find_buffered find_candidate
    keep_confirm process_confirm_msg verify_confirm compute_confirm decrypt_metadata until_zero
    from_chars process_spake_msg compare derive spake2_payload to_hex_lower hex_decode
    compute_shared parse_peer_point blinded_bytes_m blinded_bytes_n marshal_point curve crypto
    derive_session_key aad_with_generators session_aad constant_time_eq Bytes-discrete ℕ_discrete
    build_confirm_payload encrypt_metadata is_space Map.insert Map.get Map.contains Map.len
    Map.to_list Map.empty Map.weigh
exchange_returns = refl

exchange-IsValid_example :
    IsValid waiting_peer
      (heard_in 3 answered)
      (exchange waiting_peer 3 0 answered (start alice_addr)).0
exchange-IsValid_example =
    Run.exchange-IsValid waiting_peer (heard_in 3 answered) 3 0 answered (start alice_addr)
      (Run.heard_in-Hears 3 answered)
      (Run.start-IsValid waiting_peer (heard_in 3 answered) alice_addr)

exchange-IsAuthentic_example : IsAuthentic waiting_peer (heard_in 3 answered) bob_found
exchange-IsAuthentic_example =
    Run.exchange-IsAuthentic waiting_peer 3 answered alice_addr bob_found exchange_returns
