-- ===== src/FileSystem/Blocks.antt =====
-- A file of student-distrib/file_system.c as a sequence of bytes, independently of the way
-- `read_data` walks over its blocks.
use ece391os.Prelude.{ℕ, ◌+◌, ◌-◌, ◌*◌, ◌/◌, ◌%◌, ◌^◌, ◌≤◌, ◌<◌, ◌≡◌, ap, arith, u32}
use ece391os.Memory.{Mem, load32}
use ece391os.Memory.Words.{load32_ext}
use ece391os.FileSystem.{FileSystem, four_kb, num_inodes, dblock_address, inode_address}

-- The image is a row of blocks of 4096 bytes: the boot block, the inodes, and the data blocks. The
-- address of data block `number`, with the offset in the image as a word of 32 bits.
abbrev pub data_block : Mem → FileSystem → ℕ → ℕ
data_block m fs number = fs.fs_start + (1 + num_inodes m fs + number) * 0x1000 % 2 ^ 32

pub dblock_address_lem :
    (m : Mem) (fs : FileSystem) (number : ℕ) → dblock_address m fs number ≡ data_block m fs number
unfolding dblock_address
dblock_address_lem m fs number = words (num_inodes m fs)
  where
    words :
        (n : ℕ)
        → fs.fs_start + u32 (u32 (u32 (n + 1) * four_kb) + u32 (number * four_kb))
          ≡ fs.fs_start + (1 + n + number) * 0x1000 % 2 ^ 32
    words n = omega arith

-- The inode's table of block numbers, and the address of the file's `k`-th block.
abbrev pub table_address : FileSystem → ℕ → ℕ → ℕ
table_address fs inode k = inode_address fs inode + 4 + 4 * k

abbrev pub block_base : Mem → FileSystem → ℕ → ℕ → ℕ
block_base m fs inode k = data_block m fs (load32 m (table_address fs inode k))

abbrev pub file_size : Mem → FileSystem → ℕ → ℕ
file_size m fs inode = load32 m (inode_address fs inode)

-- The byte at position `p` of the file.
unfoldable pub file_byte : Mem → FileSystem → ℕ → ℕ → ℕ
file_byte m fs inode p = m (block_base m fs inode (p / four_kb) + p % four_kb)

-- The number of inodes, the table entries and the blocks of the file lie in memory from `lo` to
-- `hi`.
pub record IsWithin (m : Mem) (fs : FileSystem) (inode lo hi : ℕ) : Type 0 where
  pub header : (lo ≤ fs.boot_block + 4) × (fs.boot_block + 8 ≤ hi)
  pub entries :
      (k : ℕ)
      → k * four_kb < file_size m fs inode
      → (lo ≤ table_address fs inode k) × (table_address fs inode k + 4 ≤ hi)
  pub blocks :
      (k : ℕ)
      → k * four_kb < file_size m fs inode
      → (lo ≤ block_base m fs inode k) × (block_base m fs inode k + four_kb ≤ hi)

-- Two memories agree from `lo` to `hi`.
abbrev pub Same : Mem → Mem → ℕ → ℕ → Type 0
Same m m' lo hi = (a : ℕ) → lo ≤ a → a < hi → m' a ≡ m a

pub load32-Same :
    (m m' : Mem) (lo hi a : ℕ) → Same m m' lo hi → lo ≤ a → a + 4 ≤ hi → load32 m' a ≡ load32 m a
load32-Same m m' lo hi a same l h =
    load32_ext m m' a (same a l (omega arith)) (same (a + 1) (omega arith) (omega arith))
      (same (a + 2) (omega arith) (omega arith)) (same (a + 3) (omega arith) (omega arith))

pub block_base-Same :
    (m m' : Mem) (fs : FileSystem) (inode lo hi k : ℕ)
    → IsWithin m fs inode lo hi
    → Same m m' lo hi
    → k * four_kb < file_size m fs inode
    → block_base m' fs inode k ≡ block_base m fs inode k
block_base-Same m m' fs inode lo hi k w same lt = rw (
  load32-Same m m' lo hi (table_address fs inode k) same (w.entries k lt).0 (w.entries k lt).1,
  load32-Same m m' lo hi (fs.boot_block + 4) same w.header.0 (omega arith),
)

pub file_byte_in_block :
    (m : Mem) (fs : FileSystem) (inode cur off : ℕ)
    → off < four_kb - cur % four_kb
    → file_byte m fs inode (cur + off)
      ≡ m (block_base m fs inode (cur / four_kb) + cur % four_kb + off)
unfolding file_byte
file_byte_in_block m fs inode cur off lt = ap m (rw (same_block, same_offset) (omega arith))
  where
    same_block : (cur + off) / four_kb ≡ cur / four_kb
    same_block = omega arith

    same_offset : (cur + off) % four_kb ≡ cur % four_kb + off
    same_offset = omega arith
