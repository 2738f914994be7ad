-- ===== src/Memory/Copy.antt =====
-- The block copies of student-distrib/lib.c against one pointwise description.
use ece391os.Prelude.{ℕ, zero, suc, ◌+◌, ◌-◌, ◌*◌, ◌/◌, ◌%◌, ◌≤◌, ◌≡◌, ◌⊎◌, arith, if◌then◌else◌}
use ece391os.Memory.{
  Mem, store, copy_bytes, copy_dwords, memcpy, in_block, copy_down, memmove, store4,
}

-- The memory after a copy of `n` bytes: the block holds what the source held before.
abbrev pub copied : Mem → ℕ → ℕ → ℕ → Mem
copied m d s n a = if in_block d n a then m (s + (a - d)) else m a

-- Upward copying reads each byte before it is overwritten.
abbrev pub Upward : ℕ → ℕ → ℕ → Type 0
Upward d s n = (d ≤ s) ⊎ (s + n ≤ d)

pub copy_bytes_lem :
    (n : ℕ) (m : Mem) (d s a : ℕ) → Upward d s n → copy_bytes m d s n a ≡ copied m d s n a
unfolding copy_bytes
copy_bytes_lem zero m d s a h = ground arith
copy_bytes_lem (suc n) m d s a h =
    ground (arith, copy_bytes_lem n (store m d (m s)) (d + 1) (s + 1) a)

copy_dwords_lem :
    (k : ℕ) (m : Mem) (d s a : ℕ)
    → Upward d s (4 * k)
    → copy_dwords m d s k a ≡ copied m d s (4 * k) a
unfolding copy_dwords
copy_dwords_lem zero m d s a h = ground arith
copy_dwords_lem (suc k) m d s a h = ground (
  arith,
  copy_dwords_lem k (store4 m d (m s) (m (s + 1)) (m (s + 2)) (m (s + 3))) (d + 4) (s + 4) a,
)

-- The aligned part of `memcpy`: whole double words, then at most three bytes.
copy_aligned_lem :
    (n k r : ℕ) (m : Mem) (d s a : ℕ)
    → n ≡ 4 * k + r
    → Upward d s n
    → copy_bytes (copy_dwords m d s k) (d + 4 * k) (s + 4 * k) r a ≡ copied m d s n a
copy_aligned_lem n k r m d s a e h = ground (
  arith,
  copy_bytes_lem r (copy_dwords m d s k) (d + 4 * k) (s + 4 * k) a,
  copy_dwords_lem k m d s a,
  copy_dwords_lem k m d s (s + 4 * k + (a - (d + 4 * k))),
)

-- `memcpy` puts the `n` bytes that stood at `s` into the block at `d`, and changes no other byte,
-- if the destination starts at or below the source or past its end.
pub memcpy-copied :
    (n : ℕ) (m : Mem) (d s a : ℕ) → Upward d s n → memcpy m d s n a ≡ copied m d s n a
unfolding memcpy
memcpy-copied zero m d s a h = ground arith
memcpy-copied (suc n) m d s a h = ground (
  arith,
  memcpy-copied n (store m d (m s)) (d + 1) (s + 1) a,
  copy_aligned_lem (suc n) (suc n / 4) (suc n % 4) m d s a,
)

copy_down_lem : (n : ℕ) (m : Mem) (d s a : ℕ) → s ≤ d → copy_down m d s n a ≡ copied m d s n a
unfolding copy_down
copy_down_lem zero m d s a h = ground arith
copy_down_lem (suc n) m d s a h =
    ground (arith, copy_down_lem n (store m (d + n) (m (s + n))) d s a)

-- `memmove` puts the `n` bytes that stood at `s` into the block at `d`, and changes no other
-- byte, for every pair of blocks, overlapping ones included.
pub memmove-copied : (n : ℕ) (m : Mem) (d s a : ℕ) → memmove m d s n a ≡ copied m d s n a
unfolding memmove
memmove-copied n m d s a = ground (arith, copy_bytes_lem n m d s a, copy_down_lem n m d s a)
