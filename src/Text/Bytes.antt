-- ===== src/Text/Bytes.antt =====
-- The operations of student-distrib/lib.c and file_system.c store bytes in bytes.
use ece391os.Prelude.{ℕ, zero, suc, ◌+◌, ◌/◌, ◌%◌, ◌<◌, inl, inr, arith, ◌==◌, Bool-cases}
use ece391os.Memory.{Mem, store, store32, copy_bytes, copy_dwords, memcpy, fill_bytes}
use ece391os.Text.{strncpy}
use ece391os.Text.Compare.{IsBytes}

pub store-IsBytes : (m : Mem) (d v : ℕ) → IsBytes m → v < 256 → IsBytes (store m d v)
store-IsBytes m d v b h a = ground (arith, b a)

pub store32-IsBytes : (m : Mem) (d w : ℕ) → IsBytes m → IsBytes (store32 m d w)
store32-IsBytes m d w b a = ground (arith, b a)

copy_bytes-IsBytes : (n : ℕ) (m : Mem) (d s : ℕ) → IsBytes m → IsBytes (copy_bytes m d s n)
unfolding copy_bytes
copy_bytes-IsBytes zero m d s b = b
copy_bytes-IsBytes (suc n) m d s b =
    copy_bytes-IsBytes n (store m d (m s)) (d + 1) (s + 1) (store-IsBytes m d (m s) b (b s))

copy_dwords-IsBytes : (n : ℕ) (m : Mem) (d s : ℕ) → IsBytes m → IsBytes (copy_dwords m d s n)
unfolding copy_dwords
copy_dwords-IsBytes zero m d s b = b
copy_dwords-IsBytes (suc n) m d s b =
    copy_dwords-IsBytes n _ (d + 4) (s + 4)
      (λ a. ground (arith, b a, b s, b (s + 1), b (s + 2), b (s + 3)))

pub memcpy-IsBytes : (n : ℕ) (m : Mem) (d s : ℕ) → IsBytes m → IsBytes (memcpy m d s n)
unfolding memcpy
memcpy-IsBytes zero m d s b = b
memcpy-IsBytes (suc n) m d s b = elim (Bool-cases (d % 4 == 0)) [
  | inl aligned ↦
      rw aligned (copy_bytes-IsBytes (suc n % 4) _ _ _ (copy_dwords-IsBytes (suc n / 4) m d s b))
  | inr unaligned ↦
      rw unaligned
        (memcpy-IsBytes n (store m d (m s)) (d + 1) (s + 1) (store-IsBytes m d (m s) b (b s)))
]

fill_bytes-IsBytes :
    (n : ℕ) (m : Mem) (d c : ℕ) → IsBytes m → c < 256 → IsBytes (fill_bytes m d c n)
unfolding fill_bytes
fill_bytes-IsBytes zero m d c b h = b
fill_bytes-IsBytes (suc n) m d c b h =
    fill_bytes-IsBytes n (store m d c) (d + 1) c (store-IsBytes m d c b h) h

pub strncpy-IsBytes : (n : ℕ) (m : Mem) (d s : ℕ) → IsBytes m → IsBytes (strncpy m d s n)
unfolding strncpy
strncpy-IsBytes zero m d s b = b
strncpy-IsBytes (suc n) m d s b = elim (Bool-cases (m s == 0)) [
  | inl ends ↦ rw ends (fill_bytes-IsBytes (suc n) m d 0 b (omega arith))
  | inr goes ↦
      rw goes
        (strncpy-IsBytes n (store m d (m s)) (d + 1) (s + 1) (store-IsBytes m d (m s) b (b s)))
]
