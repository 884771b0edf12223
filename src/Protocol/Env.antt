-- ===== src/Protocol/Env.antt =====
-- crates/qvole-protocol/src/env.rs: limits and durations from the environment. `str::parse::<i64>`
-- is a parameter: it gives the sign and the magnitude of a text that is a number in range.
use qvole_rs.Base.{
  ℕ, zero, suc, ◌-◌, ◌*◌, ◌/◌, ◌^◌, ◌≤◌, ◌<◌, Option, none, some, [], ◌∷◌, arith, Bytes, min,
}

-- A value of `i64`: `n`, or `-1 - n`.
pub data I64 : Type 0 where
  pos negsuc : ℕ → I64

-- `Ok(n) if n > 0`
abbrev pub or_def : Option I64 → ℕ → ℕ
or_def (some (I64.pos (suc n))) d = suc n
or_def (some (I64.pos zero)) d = d
or_def (some (I64.negsuc n)) d = d
or_def none d = d

abbrev max_ms : ℕ
max_ms = (2 ^ 63 - 1) / 1000

abbrev pub capped_or_def : Option I64 → ℕ → ℕ
capped_or_def (some (I64.pos (suc n))) d = min (suc n) max_ms
capped_or_def (some (I64.pos zero)) d = d
capped_or_def (some (I64.negsuc n)) d = d
capped_or_def none d = d

module _ (parse : Bytes → Option I64) where
  unfoldable pub env_int_from : Option Bytes → ℕ → ℕ
  env_int_from none def = def
  env_int_from (some []) def = def
  env_int_from (some (c ∷ s)) def = or_def (parse (c ∷ s)) def

  unfoldable pub env_duration_ms_from : Option Bytes → ℕ → ℕ
  env_duration_ms_from none def_ms = def_ms
  env_duration_ms_from (some []) def_ms = def_ms
  env_duration_ms_from (some (c ∷ s)) def_ms = capped_or_def (parse (c ∷ s)) def_ms

  or_def-pos : (o : Option I64) (d : ℕ) → 0 < d → 0 < or_def o d
  or_def-pos none d h = h
  or_def-pos (some (I64.pos zero)) d h = h
  or_def-pos (some (I64.pos (suc n))) d h = omega arith
  or_def-pos (some (I64.negsuc n)) d h = h

  -- With a positive default, and whatever the environment holds and the parser of numbers does, a
  -- limit from the environment is positive.
  env_int_from-pos : (v : Option Bytes) (def : ℕ) → 0 < def → 0 < env_int_from v def
  unfolding env_int_from
  env_int_from-pos none def h = h
  env_int_from-pos (some []) def h = h
  env_int_from-pos (some (c ∷ s)) def h = or_def-pos (parse (c ∷ s)) def h

  capped_or_def-bounds :
      (o : Option I64) (d : ℕ)
      → 0 < d
      → d ≤ max_ms
      → (0 < capped_or_def o d) × (capped_or_def o d * 1000 < 2 ^ 63)
  capped_or_def-bounds none d h m = (h, omega arith)
  capped_or_def-bounds (some (I64.pos zero)) d h m = (h, omega arith)
  capped_or_def-bounds (some (I64.pos (suc n))) d h m = (ground arith, ground arith)
  capped_or_def-bounds (some (I64.negsuc n)) d h m = (h, omega arith)

  -- With a positive default in range, and whatever the environment holds and the parser of numbers
  -- does, a duration from the environment is positive and its microseconds fit an i64.
  pub env_duration_ms_from-bounds :
      (v : Option Bytes) (def_ms : ℕ)
      → 0 < def_ms
      → def_ms ≤ max_ms
      → (0 < env_duration_ms_from v def_ms) × (env_duration_ms_from v def_ms * 1000 < 2 ^ 63)
  unfolding env_duration_ms_from
  env_duration_ms_from-bounds none def_ms h m = (h, omega arith)
  env_duration_ms_from-bounds (some []) def_ms h m = (h, omega arith)
  env_duration_ms_from-bounds (some (c ∷ s)) def_ms h m =
      capped_or_def-bounds (parse (c ∷ s)) def_ms h m
