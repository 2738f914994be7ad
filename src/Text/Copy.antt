-- ===== src/Text/Copy.antt =====
-- `strncpy` and `strcpy`.
use ece391os.Prelude.{
  ℕ, zero, suc, ◌+◌, ◌-◌, ◌≤◌, ◌<◌, ◌≡◌, ◌≢◌, ◌⊎◌, arith, some, if◌then◌else◌, ltb,
}
use ece391os.Memory.{Mem, store, in_block}
use ece391os.Memory.Fill.{fill_bytes_lem}
use ece391os.Text.{strncpy, strcpy, strcpy_from, address_space}
use ece391os.Text.Length.{IsString}

-- What `strncpy` should leave: the string, then NUL bytes up to `n`.
abbrev pub padded : Mem → ℕ → ℕ → ℕ → ℕ → Mem
padded m d s len n a =
    if in_block d n a then (if ltb (a - d) len then m (s + (a - d)) else 0) else m a

pub strncpy_lem :
    (n len : ℕ) (m : Mem) (d s a : ℕ)
    → ((i : ℕ) → i < len → m (s + i) ≢ 0)
    → ((len < n) → m (s + len) ≡ 0)
    → (s + (len + 1) ≤ d) ⊎ (d + n ≤ s)
    → strncpy m d s n a ≡ padded m d s len n a
unfolding strncpy
strncpy_lem zero len m d s a inside ends apart = ground arith
strncpy_lem (suc n) zero m d s a inside ends apart = ground (arith, fill_bytes_lem (suc n) m d 0 a)
strncpy_lem (suc n) (suc len) m d s a inside ends apart = ground (
  arith,
  inside 0,
  strncpy_lem n len (store m d (m s)) (d + 1) (s + 1) a
      (λ i lt. rw (shifted i (omega arith)) (inside (suc i) (omega arith)))
      (λ lt. rw (shifted len (omega arith)) (ends (omega arith))),
)
  where
    shifted : (i : ℕ) → i ≤ len → store m d (m s) (s + 1 + i) ≡ m (s + suc i)
    shifted i le = ground arith

-- `strncpy` writes the string of at most `n` bytes at `s` to `d`, pads it with NUL bytes to `n`
-- bytes, and changes no other byte, if the two blocks do not overlap. A string of `n` bytes or more
-- is cut to `n` and left without a NUL.
pub strncpy-padded :
    (m : Mem) (d s len n a : ℕ)
    → IsString m s len
    → (s + (len + 1) ≤ d) ⊎ (d + n ≤ s)
    → strncpy m d s n a ≡ padded m d s len n a
strncpy-padded m d s len n a h apart = strncpy_lem n len m d s a h.inside (λ lt. h.ends) apart

strcpy_from_lem :
    (f len : ℕ) (m : Mem) (d s : ℕ)
    → ((i : ℕ) → i < len → m (s + i) ≢ 0)
    → m (s + len) ≡ 0
    → (s + (len + 1) ≤ d) ⊎ (d + (len + 1) ≤ s)
    → len < f
    → (m' : Mem) × (strcpy_from f m d s ≡ some m') × ((a : ℕ) → m' a ≡ padded m d s len (len + 1) a)
unfolding strcpy_from
strcpy_from_lem zero len m d s inside ends apart lt = absurd (omega arith)
strcpy_from_lem (suc f) zero m d s inside ends apart lt =
    (store m d 0, ground arith, λ a. ground arith)
strcpy_from_lem (suc f) (suc len) m d s inside ends apart lt =
    let (m', run, at) =
      strcpy_from_lem f len (store m d (m s)) (d + 1) (s + 1)
        (λ i lt'. rw (shifted i (omega arith)) (inside (suc i) (omega arith)))
        (rw (shifted len (omega arith)) ends) (omega arith) (omega arith) in
    (m', ground (arith, inside 0), λ a. ground (arith, at a))
  where
    shifted : (i : ℕ) → i ≤ len → store m d (m s) (s + 1 + i) ≡ m (s + suc i)
    shifted i le = ground arith

-- `strcpy` returns, and its memory holds the string and its NUL at `d`, and every other byte as
-- before, if the two blocks do not overlap.
pub strcpy-padded :
    (m : Mem) (d s len : ℕ)
    → IsString m s len
    → (s + (len + 1) ≤ d) ⊎ (d + (len + 1) ≤ s)
    → (m' : Mem) × (strcpy m d s ≡ some m') × ((a : ℕ) → m' a ≡ padded m d s len (len + 1) a)
unfolding strcpy
strcpy-padded m d s len h apart =
    strcpy_from_lem address_space len m d s h.inside h.ends apart h.fits
