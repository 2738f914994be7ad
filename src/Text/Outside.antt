-- ===== src/Text/Outside.antt =====
-- The block and string operations of student-distrib/lib.c change nothing outside their
-- destination, whatever the source is.
use ece391os.Prelude.{
  ℕ, zero, suc, ◌+◌, ◌*◌, ◌/◌, ◌%◌, ◌≡◌, inl, inr, refl, ◌∙◌, arith, false, ◌==◌, Bool-cases,
}
use ece391os.Memory.{Mem, store, store4, copy_bytes, copy_dwords, memcpy, fill_bytes, in_block}
use ece391os.Text.{strncpy}

copy_bytes_outside :
    (n : ℕ) (m : Mem) (d s a : ℕ) → in_block d n a ≡ false → copy_bytes m d s n a ≡ m a
unfolding copy_bytes
copy_bytes_outside zero m d s a h = refl
copy_bytes_outside (suc n) m d s a h =
    ground (arith, copy_bytes_outside n (store m d (m s)) (d + 1) (s + 1) a)

copy_dwords_outside :
    (n : ℕ) (m : Mem) (d s a : ℕ) → in_block d (4 * n) a ≡ false → copy_dwords m d s n a ≡ m a
unfolding copy_dwords
copy_dwords_outside zero m d s a h = refl
copy_dwords_outside (suc n) m d s a h =
    copy_dwords_outside n (store4 m d (m s) (m (s + 1)) (m (s + 2)) (m (s + 3))) (d + 4) (s + 4) a
      (ground arith)
    ∙ ground arith

pub memcpy_outside : (n : ℕ) (m : Mem) (d s a : ℕ) → in_block d n a ≡ false → memcpy m d s n a ≡ m a
unfolding memcpy
memcpy_outside zero m d s a h = refl
memcpy_outside (suc n) m d s a h = elim (Bool-cases (d % 4 == 0)) [
  | inl aligned ↦ rw aligned (
      copy_bytes_outside (suc n % 4) _ _ _ a (ground arith)
      ∙ copy_dwords_outside (suc n / 4) m d s a (ground arith))
  | inr unaligned ↦
      rw unaligned
        (memcpy_outside n (store m d (m s)) (d + 1) (s + 1) a (ground arith) ∙ ground arith)
]

fill_bytes_outside :
    (n : ℕ) (m : Mem) (d c a : ℕ) → in_block d n a ≡ false → fill_bytes m d c n a ≡ m a
unfolding fill_bytes
fill_bytes_outside zero m d c a h = refl
fill_bytes_outside (suc n) m d c a h =
    ground (arith, fill_bytes_outside n (store m d c) (d + 1) c a)

pub strncpy_outside :
    (n : ℕ) (m : Mem) (d s a : ℕ) → in_block d n a ≡ false → strncpy m d s n a ≡ m a
unfolding strncpy
strncpy_outside zero m d s a h = refl
strncpy_outside (suc n) m d s a h = elim (Bool-cases (m s == 0)) [
  | inl ends ↦ rw ends (fill_bytes_outside (suc n) m d 0 a h)
  | inr goes ↦
      rw goes (strncpy_outside n (store m d (m s)) (d + 1) (s + 1) a (ground arith) ∙ ground arith)
]
