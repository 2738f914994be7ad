-- ===== src/Memory.antt =====
-- Byte-addressed memory, and the block operations of student-distrib/lib.c, whose inline assembly
-- is followed instruction group by instruction group.
pub mod Copy
pub mod Fill
pub mod Words
use ece391os.Prelude.{
  ℕ, zero, suc, ◌+◌, ◌-◌, ◌*◌, ◌/◌, ◌%◌, ◌^◌, ltb, leb, ◌==◌, u8, if◌then◌else◌, Bool, ◌&&◌,
}

-- What a load from each address gives.
abbrev pub Mem : Type 0
Mem = ℕ → ℕ

abbrev pub store : Mem → ℕ → ℕ → Mem
store m a v b = if b == a then v else m b

-- A little-endian 32-bit load.
unfoldable pub load32 : Mem → ℕ → ℕ
load32 m a = m a + m (a + 1) * 2 ^ 8 + m (a + 2) * 2 ^ 16 + m (a + 3) * 2 ^ 24

abbrev pub store4 : Mem → ℕ → ℕ → ℕ → ℕ → ℕ → Mem
store4 m a v0 v1 v2 v3 = store (store (store (store m a v0) (a + 1) v1) (a + 2) v2) (a + 3) v3

-- A little-endian 32-bit store.
abbrev pub store32 : Mem → ℕ → ℕ → Mem
store32 m a w = store4 m a (u8 w) (u8 (w / 2 ^ 8)) (u8 (w / 2 ^ 16)) (u8 (w / 2 ^ 24))

-- `.memcpy_bottom`: byte by byte, upwards.
unfoldable pub copy_bytes : Mem → ℕ → ℕ → ℕ → Mem
copy_bytes m d s zero = m
copy_bytes m d s (suc n) = copy_bytes (store m d (m s)) (d + 1) (s + 1) n

-- `rep movsl`: four bytes are read, then written.
unfoldable pub copy_dwords : Mem → ℕ → ℕ → ℕ → Mem
copy_dwords m d s zero = m
copy_dwords m d s (suc n) =
    copy_dwords (store4 m d (m s) (m (s + 1)) (m (s + 2)) (m (s + 3))) (d + 4) (s + 4) n

-- `.memcpy_top` moves bytes until the destination is aligned, then double words, then the rest.
unfoldable pub memcpy : Mem → ℕ → ℕ → ℕ → Mem
memcpy m d s zero = m
memcpy m d s (suc n) =
    let unaligned = memcpy (store m d (m s)) (d + 1) (s + 1) n in
    let k = suc n / 4 in
    if d % 4 == 0
    then copy_bytes (copy_dwords m d s k) (d + 4 * k) (s + 4 * k) (suc n % 4)
    else unaligned

-- `.memset_bottom`, and `rep stosl` of a double word whose four bytes are equal.
unfoldable pub fill_bytes : Mem → ℕ → ℕ → ℕ → Mem
fill_bytes m d c zero = m
fill_bytes m d c (suc n) = fill_bytes (store m d c) (d + 1) c n

unfoldable pub fill_dwords : Mem → ℕ → ℕ → ℕ → Mem
fill_dwords m d c zero = m
fill_dwords m d c (suc n) = fill_dwords (store4 m d c c c c) (d + 4) c n

unfoldable pub memset_byte : Mem → ℕ → ℕ → ℕ → Mem
memset_byte m d c zero = m
memset_byte m d c (suc n) =
    let unaligned = memset_byte (store m d c) (d + 1) c n in
    let k = suc n / 4 in
    if d % 4 == 0 then fill_bytes (fill_dwords m d c k) (d + 4 * k) c (suc n % 4) else unaligned

-- `c &= 0xFF` comes first.
unfoldable pub memset : Mem → ℕ → ℕ → ℕ → Mem
unfolding memset_byte
memset m s c n = memset_byte m s (u8 c) n

-- `rep stosw` and `rep stosl`: `n` words of two and of four bytes.
unfoldable pub memset_word : Mem → ℕ → ℕ → ℕ → Mem
memset_word m s c zero = m
memset_word m s c (suc n) =
    memset_word (store (store m s (u8 c)) (s + 1) (u8 (c / 2 ^ 8))) (s + 2) c n

unfoldable pub memset_dword : Mem → ℕ → ℕ → ℕ → Mem
memset_dword m s c zero = m
memset_dword m s c (suc n) = memset_dword (store32 m s c) (s + 4) c n

-- `rep movsb` with the direction flag set: from the last byte down.
unfoldable pub copy_down : Mem → ℕ → ℕ → ℕ → Mem
copy_down m d s zero = m
copy_down m d s (suc n) = copy_down (store m (d + n) (m (s + n))) d s n

unfoldable pub memmove : Mem → ℕ → ℕ → ℕ → Mem
memmove m d s n = if leb d s then copy_bytes m d s n else copy_down m d s n

abbrev pub in_block : ℕ → ℕ → ℕ → Bool
in_block d n a = leb d a && ltb a (d + n)
