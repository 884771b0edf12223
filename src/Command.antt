-- ===== src/Command.antt =====
-- crates/qvole-bin/src/main.rs: how the command line chooses the code and the relay. The numbers in
-- the texts of errors are kept as numbers; generate_code is a parameter.
use qvole_rs.Base.Result.{Result, ok, err, guard_ok, ok_inj}
use qvole_rs.Base.{
  ℕ, ◌<◌, ◌≤◌, ◌≡◌, refl, ◌⊎◌, inl, inr, arith, Bool, true, false, Option, none, some, [], ◌∷◌, ltb,
  ◌==◌, if◌then◌else◌, Bytes, bytes, length, if_elim, ap, sym, subst,
}
use qvole_rs.App.Options
use qvole_rs.App.Options.{Options, min_code_len, max_code_len}

pub data CodeError : Type 0 where
  too_short : ℕ → CodeError
  too_long : CodeError
  generate : Bytes → CodeError

unfoldable check_len : Bytes → Result CodeError Bytes
check_len val =
    if length val == 0
    then ok []
    else if ltb (length val) min_code_len
    then err (CodeError.too_short (length val))
    else if ltb max_code_len (length val)
    then err CodeError.too_long
    else ok val

unfoldable resolve_code_from : Bytes → Option Bytes → Result CodeError Bytes
unfolding check_len
resolve_code_from (c ∷ flag_val) env_val = check_len (c ∷ flag_val)
resolve_code_from [] none = check_len []
resolve_code_from [] (some env_val) = check_len env_val

abbrev or_generated : Result Bytes Bytes → Result CodeError Bytes → Result CodeError (Bytes × Bool)
or_generated generated (err e) = err e
or_generated generated (ok (c ∷ code)) = ok (c ∷ code, false)
or_generated (ok code) (ok []) = ok (code, true)
or_generated (err e) (ok []) = err (CodeError.generate e)

-- The code, and whether it was generated.
unfoldable resolve_or_generate_code_from :
    Result Bytes Bytes → Bytes → Option Bytes → Result CodeError (Bytes × Bool)
unfolding resolve_code_from
resolve_or_generate_code_from generated flag_val env_val =
    or_generated generated (resolve_code_from flag_val env_val)

abbrev default_relay_addr : Bytes
default_relay_addr = bytes "relay.qvole.dev:9009"

unfoldable resolve_relay : Bytes → Bytes
resolve_relay [] = default_relay_addr
resolve_relay (c ∷ relay_addr) = c ∷ relay_addr

abbrev Bounded : Bytes → Type 0
Bounded code = (length code ≡ 0) ⊎ ((min_code_len ≤ length code) × (length code ≤ max_code_len))

check_len-bounds : (val code : Bytes) → check_len val ≡ ok code → Bounded code
unfolding check_len
check_len-bounds val code =
    if_elim (λ (r : Result CodeError Bytes). r ≡ ok code → Bounded code) (length val == 0) _ _
      (λ t h. inl (ap length (sym (ok_inj (ok []) [] code refl h))))
      (λ f h.
        let (short, h1) = guard_ok (ltb (length val) min_code_len) _ _ code h in
        let (long, h2) = guard_ok (ltb max_code_len (length val)) _ _ code h1 in
        subst Bounded (ok_inj (ok val) val code refl h2)
          (inr (ground (arith, short), ground (arith, long))))

-- A code that the command line resolves is empty, or has 8 to 256 bytes.
resolve_code_from-bounds :
    (flag_val : Bytes) (env_val : Option Bytes) (code : Bytes)
    → resolve_code_from flag_val env_val ≡ ok code
    → Bounded code
unfolding resolve_code_from
resolve_code_from-bounds (c ∷ flag_val) env_val code h = check_len-bounds (c ∷ flag_val) code h
resolve_code_from-bounds [] none code h = check_len-bounds [] code h
resolve_code_from-bounds [] (some env_val) code h = check_len-bounds env_val code h

-- Options with a code that the command line resolves, not empty, and with a relay are accepted.
resolve_code_from-validate :
    (flag_val : Bytes) (env_val : Option Bytes) (o : Options)
    → resolve_code_from flag_val env_val ≡ ok o.code
    → 0 < length o.code
    → 0 < length o.relay
    → Options.validate o ≡ ok tt
resolve_code_from-validate flag_val env_val o h k l =
    elim (resolve_code_from-bounds flag_val env_val o.code h) [
      | inl empty ↦ absurd (omega arith)
      | inr (long, short) ↦ (Options.validate_iff o).1 (long, short, l)
    ]
