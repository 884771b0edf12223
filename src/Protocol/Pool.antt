-- ===== src/Protocol/Pool.antt =====
-- crates/qvole-protocol/src/pool.rs: the buffers of a thread, and crates/qvole-protocol/src/role.rs.
use qvole_rs.Base.{
  ℕ, ap, ◌*◌, ◌≡◌, refl, Bool, true, false, List, [], ◌∷◌, ◌==◌, ==_iff, if◌then◌else◌, if_elim,
  Bytes, bytes, length, replicate, All,
}

abbrev pub buffer_pool_size : ℕ
buffer_pool_size = 32 * 1024

-- `vec![0u8; n]`, and what `zero_bytes` leaves of `n` bytes.
unfoldable pub zeroed : ℕ → Bytes
zeroed n = replicate n 0

-- The buffer, and the pool that is left; the last buffer comes first.
unfoldable pub get_buffer : List Bytes → Bytes × List Bytes
get_buffer [] = (zeroed buffer_pool_size, [])
get_buffer (buf ∷ pool) = (buf, pool)

unfoldable pub put_buffer : Bytes → List Bytes → List Bytes
put_buffer buf pool = let n = length buf in if n == buffer_pool_size then zeroed n ∷ pool else pool

-- What the tasks of a thread do with its pool.
pub data Use : Type 0 where
  taken : Use
  given : Bytes → Use

abbrev pub used : List Use → List Bytes → List Bytes
used [] pool = pool
used (Use.taken ∷ uses) pool = used uses (get_buffer pool).1
used (Use.given buf ∷ uses) pool = used uses (put_buffer buf pool)

abbrev AreZeroed : List Bytes → Type 0
AreZeroed pool = All (λ buf. buf ≡ zeroed buffer_pool_size) pool

used-AreZeroed : (uses : List Use) (pool : List Bytes) → AreZeroed pool → AreZeroed (used uses pool)
unfolding get_buffer put_buffer
used-AreZeroed [] pool a = a
used-AreZeroed (Use.taken ∷ uses) [] a = used-AreZeroed uses [] tt
used-AreZeroed (Use.taken ∷ uses) (buf ∷ pool) a = used-AreZeroed uses pool a.1
used-AreZeroed (Use.given buf ∷ uses) pool a = used-AreZeroed uses _ (
    if_elim AreZeroed (length buf == buffer_pool_size) _ _
      (λ t. (ap zeroed ((==_iff (length buf) buffer_pool_size).0 t), a)) (λ f. a))

get_buffer-AreZeroed :
    (pool : List Bytes) → AreZeroed pool → (get_buffer pool).0 ≡ zeroed buffer_pool_size
unfolding get_buffer
get_buffer-AreZeroed [] a = refl
get_buffer-AreZeroed (buf ∷ pool) a = a.0

-- Whatever buffers a thread has taken from its pool and given back, of whatever contents and
-- lengths, the next buffer that get_buffer returns is 32 KiB of zero bytes.
pub get_buffer-used : (uses : List Use) → (get_buffer (used uses [])).0 ≡ zeroed buffer_pool_size
get_buffer-used uses = get_buffer-AreZeroed (used uses []) (used-AreZeroed uses [] tt)

unfoldable pub role_string : Bool → Bytes
role_string true = bytes "server"
role_string false = bytes "client"
