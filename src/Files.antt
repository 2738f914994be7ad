-- ===== src/Files.antt =====
-- The file and directory operations of student-distrib/file_system.c on an open descriptor. The
-- descriptor table is that of the current process; `frame` is where the compiler puts a local
-- `dentry_t`.
pub mod Cursor
pub mod Listing
use ece391os.Prelude.{
  ℕ, zero, suc, ◌+◌, ◌-◌, ◌*◌, ◌/◌, ◌%◌, ◌^◌, ◌≤◌, ◌<◌, ◌≡◌, ◌≢◌, ◌↔◌, ◌⊎◌, inl, inr, refl, sym, ap,
  ◌∙◌, arith, Bool, true, false, ◌&&◌, ◌||◌, not, Option, none, some, if◌then◌else◌, ltb, leb, ◌==◌,
  ==_iff, Bool-cases, lt→ltb, le→ltb, ltb→lt, ltb→le, lt→leb, le→leb, leb→le, u8, u32, bit_and,
  bit_or, update, minus_one, signed_lt, sub32, length, get_or, set, List, [], ◌∷◌, ◌++◌,
}
use ece391os.Memory.{Mem}
use ece391os.Text.{strncpy}
use ece391os.FileSystem.{FileSystem, num_dentries, name_length, read_data, read_dentry_by_index}
use ece391os.Descriptor.{FileDesc, Fdt}

unfoldable pub file_open : ℕ → ℕ
file_open filename = 0

unfoldable pub file_close : ℕ → ℕ
file_close fd = 0

unfoldable pub file_write : ℕ → ℕ → ℕ → ℕ
file_write fd buf num_bytes = minus_one

unfoldable pub dir_open : ℕ → ℕ
dir_open filename = 0

unfoldable pub dir_close : ℕ → ℕ
dir_close fd = 0

unfoldable pub dir_write : ℕ → ℕ → ℕ → ℕ
dir_write fd buf num_bytes = minus_one

abbrev pub advance : Fdt → ℕ → ℕ → Fdt
advance fdt fd n =
    update fdt fd (let d = fdt fd in record d { file_position = u32 (d.file_position + n) })

-- The result, the descriptor table and memory.
abbrev pub Outcome : Type 0
Outcome = ℕ × Fdt × Mem

abbrev pub after_read : Fdt → ℕ → ℕ → Mem → Outcome
after_read fdt fd read_ret m =
    if read_ret == minus_one then (minus_one, fdt, m) else (read_ret, advance fdt fd read_ret, m)

unfoldable pub file_read : FileSystem → Fdt → Mem → ℕ → ℕ → ℕ → Option Outcome
file_read fs fdt m fd buf num_bytes =
    if (fdt fd).inode == minus_one
    then some (minus_one, fdt, m)
    else elim (read_data m fs (fdt fd).inode (fdt fd).file_position buf num_bytes) [
      | none ↦ none
      | some (read_ret, m') ↦ some (after_read fdt fd read_ret m')
    ]

-- The name of the entry goes through the local `dentry_t`.
abbrev pub after_entry : Fdt → ℕ → ℕ → ℕ → ℕ × Mem → Outcome
after_entry fdt fd buf frame (ret, m) =
    if ret == minus_one
    then (minus_one, fdt, m)
    else (name_length, advance fdt fd 1, strncpy m buf frame name_length)

unfoldable pub dir_read : FileSystem → Fdt → Mem → ℕ → ℕ → ℕ → ℕ → Outcome
dir_read fs fdt m frame fd buf nbytes =
    if (fdt fd).file_position == minus_one
    then (minus_one, fdt, m)
    else if leb (num_dentries m fs) (fdt fd).file_position
    then (0, fdt, m)
    else after_entry fdt fd buf frame (read_dentry_by_index m fs (fdt fd).file_position frame)
