-- ===== src/Files/Cursor.antt =====
-- Successive calls of `file_read` of student-distrib/file_system.c deliver a file from its start
-- to its end.
use ece391os.Prelude.{
  ℕ, ◌+◌, ◌-◌, ◌^◌, ◌≤◌, ◌<◌, ◌≡◌, ◌≢◌, ◌⊎◌, inl, inr, refl, arith, Option, none, some, ◌==◌,
  ==_refl, Bool-cases, minus_one,
}
use mathlib.Core.Path.{subst}
use Prim.Native.Nat.{min}
use ece391os.Memory.{Mem}
use ece391os.Memory.Words.{load32-lt}
use ece391os.Text.Compare.{IsBytes}
use ece391os.FileSystem.{FileSystem, num_inodes, read_data}
use ece391os.FileSystem.Blocks.{file_size, IsWithin}
use ece391os.FileSystem.ReadData.{loaded, read_data-loaded}
use ece391os.Descriptor.{Fdt}
use ece391os.Files.{Outcome, file_read, after_read, advance}

-- The descriptor `fd` is open on a file that lies in memory from `lo` to `hi`, with its position
-- inside the file.
pub record IsOpen (m : Mem) (fs : FileSystem) (fdt : Fdt) (fd lo hi : ℕ) : Type 0 where
  pub within : IsWithin m fs (fdt fd).inode lo hi
  pub valid : (fdt fd).inode < num_inodes m fs
  pub inside : (fdt fd).file_position ≤ file_size m fs (fdt fd).inode
  pub bytes : IsBytes m

-- `file_read` on an open file delivers the bytes that follow the position, as many as are asked
-- for or are left, returns their number, moves the position of this descriptor past them, and
-- changes no other descriptor and no memory outside the buffer. The number asked for is not
-- negative and does not wrap around with the position, and the file lies in memory apart from
-- the buffer.
pub file_read-loaded :
    (fs : FileSystem) (fdt : Fdt) (m : Mem) (fd buf num_bytes lo hi : ℕ)
    → IsOpen m fs fdt fd lo hi
    → num_bytes < 2 ^ 31
    → (fdt fd).file_position + num_bytes < 2 ^ 32
    → (buf + num_bytes ≤ lo) ⊎ (hi ≤ buf)
    → let position = (fdt fd).file_position in
      let inode = (fdt fd).inode in
      let n = min num_bytes (file_size m fs inode - position) in
      (fdt' : Fdt) × (m' : Mem) × (file_read fs fdt m fd buf num_bytes ≡ some (n, fdt', m'))
      × ((fdt' fd).file_position ≡ position + n)
      × ((fdt' fd).inode ≡ inode)
      × ((other : ℕ) → other ≢ fd → fdt' other ≡ fdt other)
      × ((a : ℕ) → m' a ≡ loaded m m fs inode buf position n a)
unfolding file_read
file_read-loaded fs fdt m fd buf num_bytes lo hi o count fits apart =
    let (m', run, at) =
      read_data-loaded m fs (fdt fd).inode (fdt fd).file_position buf num_bytes lo hi o.bytes
        o.within o.valid o.inside fits apart in
    (
      advance fdt fd n,
      m',
      ground (arith, run, not_closed, not_failed),
      ground (arith, not_failed),
      ground arith,
      λ other ne. ground arith,
      at,
    )
  where
    n : ℕ
    n = min num_bytes (file_size m fs (fdt fd).inode - (fdt fd).file_position)

    not_closed : (fdt fd).inode ≢ minus_one
    not_closed = omega (arith, o.valid, load32-lt m (fs.boot_block + 4) o.bytes)

    not_failed : n < minus_one
    not_failed = omega arith

-- The descriptor keeps its table and its flags.
abbrev KeepsTable : Fdt → ℕ → Option Outcome → Type 0
KeepsTable fdt fd none = Unit
KeepsTable fdt fd (some (n, t, m)) =
    ((t fd).jump_ptr ≡ (fdt fd).jump_ptr) × ((t fd).flags ≡ (fdt fd).flags)

file_read-KeepsTable :
    (fs : FileSystem) (fdt : Fdt) (m : Mem) (fd buf num_bytes : ℕ)
    → KeepsTable fdt fd (file_read fs fdt m fd buf num_bytes)
unfolding file_read
file_read-KeepsTable fs fdt m fd buf num_bytes = elim (Bool-cases ((fdt fd).inode == minus_one)) [
  | inl closed ↦ rw closed (refl, refl)
  | inr on ↦ rw on (go (read_data m fs (fdt fd).inode (fdt fd).file_position buf num_bytes))
]
  where
    go :
        (o : Option (ℕ × Mem))
        → KeepsTable fdt fd (elim o [ none ↦ none | some (n, m') ↦ some (after_read fdt fd n m') ])
    go none = tt
    go (some (n, m')) = elim (Bool-cases (n == minus_one)) [
      | inl bad ↦ rw bad (refl, refl)
      | inr good ↦ rw (good, ==_refl fd) (refl, refl)
    ]

pub file_read-kept :
    (fs : FileSystem) (fdt t : Fdt) (m m' : Mem) (fd buf num_bytes n : ℕ)
    → file_read fs fdt m fd buf num_bytes ≡ some (n, t, m')
    → ((t fd).jump_ptr ≡ (fdt fd).jump_ptr) × ((t fd).flags ≡ (fdt fd).flags)
file_read-kept fs fdt t m m' fd buf num_bytes n run =
    subst (KeepsTable fdt fd) run (file_read-KeepsTable fs fdt m fd buf num_bytes)
