-- ===== src/Memory/Fill.antt =====
-- `memset` of student-distrib/lib.c against a pointwise description.
use ece391os.Prelude.{
  ℕ, zero, suc, ◌+◌, ◌-◌, ◌*◌, ◌/◌, ◌%◌, ◌^◌, ◌≤◌, ◌≡◌, arith, ap, ◌∙◌, if◌then◌else◌, u8, ◌==◌,
}
use ece391os.Memory.{
  Mem, store, store4, store32, fill_bytes, fill_dwords, memset_byte, memset, memset_word,
  memset_dword, in_block,
}

abbrev pub filled : Mem → ℕ → ℕ → ℕ → Mem
filled m d c n a = if in_block d n a then c else m a

pub fill_bytes_lem : (n : ℕ) (m : Mem) (d c a : ℕ) → fill_bytes m d c n a ≡ filled m d c n a
unfolding fill_bytes
fill_bytes_lem zero m d c a = ground arith
fill_bytes_lem (suc n) m d c a = ground (arith, fill_bytes_lem n (store m d c) (d + 1) c a)

fill_dwords_lem : (k : ℕ) (m : Mem) (d c a : ℕ) → fill_dwords m d c k a ≡ filled m d c (4 * k) a
unfolding fill_dwords
fill_dwords_lem zero m d c a = ground arith
fill_dwords_lem (suc k) m d c a = ground (arith, fill_dwords_lem k (store4 m d c c c c) (d + 4) c a)

fill_aligned_lem :
    (n k r : ℕ) (m : Mem) (d c a : ℕ)
    → n ≡ 4 * k + r
    → fill_bytes (fill_dwords m d c k) (d + 4 * k) c r a ≡ filled m d c n a
fill_aligned_lem n k r m d c a e =
    ground
      (arith, fill_bytes_lem r (fill_dwords m d c k) (d + 4 * k) c a, fill_dwords_lem k m d c a)

memset_byte_lem : (n : ℕ) (m : Mem) (d c a : ℕ) → memset_byte m d c n a ≡ filled m d c n a
unfolding memset_byte
memset_byte_lem zero m d c a = ground arith
memset_byte_lem (suc n) m d c a = ground (
  arith,
  memset_byte_lem n (store m d c) (d + 1) c a,
  fill_aligned_lem (suc n) (suc n / 4) (suc n % 4) m d c a,
)

-- `memset` writes the low byte of `c` to the `n` bytes from `s` on, and changes no other byte,
-- whatever the alignment of `s`.
pub memset-filled : (m : Mem) (s c n a : ℕ) → memset m s c n a ≡ filled m s (c % 2 ^ 8) n a
unfolding memset
memset-filled m s c n a = memset_byte_lem n m s (u8 c) a

-- The byte of the word `c` that an array of such words holds at offset `i`.
abbrev pub byte_of : ℕ → ℕ → ℕ
byte_of c i =
    if i == 0
    then u8 c
    else if i == 1
    then u8 (c / 2 ^ 8)
    else if i == 2
    then u8 (c / 2 ^ 16)
    else u8 (c / 2 ^ 24)

store32_at :
    (m : Mem) (s c a : ℕ)
    → store32 m s c a ≡ (if in_block s 4 a then byte_of c ((a - s) % 4) else m a)
store32_at m s c a = ground arith

words_lem :
    (n : ℕ) (m : Mem) (s c a : ℕ)
    → memset_word m s c n a ≡ (if in_block s (2 * n) a then byte_of c ((a - s) % 2) else m a)
unfolding memset_word
words_lem zero m s c a = ground arith
words_lem (suc n) m s c a =
    rw (words_lem n (store (store m s (u8 c)) (s + 1) (u8 (c / 2 ^ 8))) (s + 2) c a) (ground arith)

-- The step of the double-word fill, with the byte written at each offset left abstract.
fill_step :
    (n s a : ℕ) (old new byte byte' : ℕ)
    → new ≡ (if in_block s 4 a then byte else old)
    → ((s + 4 ≤ a) → byte' ≡ byte)
    → (if in_block (s + 4) (4 * n) a then byte' else new)
      ≡ (if in_block s (4 * suc n) a then byte else old)
fill_step n s a old new byte byte' e f = ground arith

offset_mod : (s a : ℕ) → s + 4 ≤ a → (a - (s + 4)) % 4 ≡ (a - s) % 4
offset_mod s a h = omega arith

dwords_lem :
    (n : ℕ) (m : Mem) (s c a : ℕ)
    → memset_dword m s c n a ≡ (if in_block s (4 * n) a then byte_of c ((a - s) % 4) else m a)
unfolding memset_dword
dwords_lem zero m s c a = ground arith
dwords_lem (suc n) m s c a =
    dwords_lem n (store32 m s c) (s + 4) c a
    ∙ fill_step n s a (m a) (store32 m s c a) (byte_of c ((a - s) % 4))
        (byte_of c ((a - (s + 4)) % 4)) (store32_at m s c a)
        (λ h. ap (byte_of c) (offset_mod s a h))

-- `memset_word` fills `2 * n` bytes with the low 16 bits of `c`, and `memset_dword` fills `4 * n`
-- bytes with the 32 bits of `c`, low byte first; neither changes another byte.
pub memset_word-memset_dword :
    (n : ℕ) (m : Mem) (s c a : ℕ)
    → (memset_word m s c n a ≡ (if in_block s (2 * n) a then byte_of c ((a - s) % 2) else m a))
      × (memset_dword m s c n a ≡ (if in_block s (4 * n) a then byte_of c ((a - s) % 4) else m a))
memset_word-memset_dword n m s c a = (words_lem n m s c a, dwords_lem n m s c a)
