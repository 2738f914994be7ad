-- ===== src/FileSystem.antt =====
-- student-distrib/file_system.c: the read-only file system image in memory, and the open, read,
-- write and close of files and directories.
pub mod Lookup
pub mod Entry
pub mod Blocks
pub mod ReadData
pub mod ReadTotal
pub mod Keeps
pub mod Moved
use ece391os.Prelude.{
  ℕ, zero, suc, ◌+◌, ◌-◌, ◌*◌, ◌/◌, ◌%◌, ◌^◌, ◌≤◌, ◌<◌, ◌≡◌, ◌≢◌, ◌↔◌, ◌⊎◌, inl, inr, refl, sym, ap,
  ◌∙◌, arith, Bool, true, false, ◌&&◌, ◌||◌, not, Option, none, some, if◌then◌else◌, ltb, leb, ◌==◌,
  ==_iff, Bool-cases, u8, u32, minus_one, signed_lt, sub32, length, get_or, set, List, [], ◌∷◌,
  ◌++◌,
}
use ece391os.Memory.{Mem, load32, store32, memcpy}
use ece391os.Text.{strlen, strncmp, strncpy}

-- The two static pointers.
pub record FileSystem : Type 0 where
  pub boot_block : ℕ
  pub fs_start : ℕ

abbrev pub name_length : ℕ
name_length = 32

abbrev pub four_kb : ℕ
four_kb = 4096

unfoldable pub file_system_init : ℕ → FileSystem
file_system_init file_sys_start = record { boot_block = file_sys_start; fs_start = file_sys_start }

-- The fields of `boot_block_t`: three words, 52 reserved bytes, then entries of 64 bytes.
abbrev pub num_dentries : Mem → FileSystem → ℕ
num_dentries m fs = load32 m fs.boot_block

abbrev pub num_inodes : Mem → FileSystem → ℕ
num_inodes m fs = load32 m (fs.boot_block + 4)

abbrev pub dentry_address : FileSystem → ℕ → ℕ
dentry_address fs i = fs.boot_block + 64 + 64 * i

-- The two comparisons of `find_dentry`, the second one only if the first one holds.
unfoldable pub entry_matches : Mem → ℕ → ℕ → ℕ → Bool
entry_matches m d filename len =
    (strncmp m d filename len == 0) && (strncmp m d filename name_length == 0)

-- The loop of `find_dentry` with the rounds that are left; 0 is NULL.
unfoldable pub find_dentry_from : ℕ → Mem → FileSystem → ℕ → ℕ → Option ℕ
find_dentry_from zero m fs filename i = some 0
find_dentry_from (suc rounds) m fs filename i =
    let rest = find_dentry_from rounds m fs filename (i + 1) in
    elim (strlen m filename) [
      | none ↦ none
      | some len ↦
          if entry_matches m (dentry_address fs i) filename len
          then some (dentry_address fs i)
          else rest
    ]

unfoldable pub find_dentry : Mem → FileSystem → ℕ → Option ℕ
find_dentry m fs filename = find_dentry_from (num_dentries m fs) m fs filename 0

-- The three fields that are copied to the caller's `dentry_t`.
unfoldable pub copy_dentry : Mem → ℕ → ℕ → Mem
copy_dentry m dentry file_dentry =
    let m1 = strncpy m dentry file_dentry name_length in
    let m2 = store32 m1 (dentry + 32) (load32 m1 (file_dentry + 32)) in
    store32 m2 (dentry + 36) (load32 m2 (file_dentry + 36))

unfoldable pub read_dentry_by_name : Mem → FileSystem → ℕ → ℕ → Option (ℕ × Mem)
read_dentry_by_name m fs filename dentry = elim (find_dentry m fs filename) [
  | none ↦ none
  | some file_dentry ↦
      some (if file_dentry == 0 then (minus_one, m) else (0, copy_dentry m dentry file_dentry))
]

unfoldable pub read_dentry_by_index : Mem → FileSystem → ℕ → ℕ → ℕ × Mem
read_dentry_by_index m fs index dentry =
    if leb (num_dentries m fs) index
    then (minus_one, m)
    else (0, copy_dentry m dentry (dentry_address fs index))

-- The address of a data block, in the 32-bit arithmetic of the code.
unfoldable pub dblock_address : Mem → FileSystem → ℕ → ℕ
dblock_address m fs dblock_num =
    fs.fs_start + u32 (u32 (u32 (num_inodes m fs + 1) * four_kb) + u32 (dblock_num * four_kb))

-- Up to the end of the data block, or to the end point.
abbrev pub copy_length : ℕ → ℕ → ℕ
copy_length cur end =
    if ltb (sub32 end cur) (four_kb - cur % four_kb) then sub32 end cur else four_kb - cur % four_kb

unfoldable pub read_data_loop : ℕ → Mem → FileSystem → ℕ → ℕ → ℕ → ℕ → ℕ → ℕ → Option (ℕ × Mem)
read_data_loop zero m fs buf num_addr dblock_addr cur end copied_length = none
read_data_loop (suc fuel) m fs buf num_addr dblock_addr cur end copied_length =
    let n = copy_length cur end in
    let m' = memcpy m (buf + copied_length) (dblock_addr + cur % four_kb) n in
    let next =
      read_data_loop fuel m' fs buf (num_addr + 4) (dblock_address m' fs (load32 m' (num_addr + 4)))
        (u32 (cur + n)) end (u32 (copied_length + n)) in
    if cur == end then some (copied_length, m) else next

abbrev pub inode_address : FileSystem → ℕ → ℕ
inode_address fs inode = fs.fs_start + u32 (four_kb * u32 (inode + 1))

abbrev pub end_point : ℕ → ℕ → ℕ → ℕ
end_point offset length file_size =
    if ltb file_size (u32 (offset + length)) then file_size else u32 (offset + length)

-- Each round copies a byte at least, so one round more than there are bytes to the end suffices.
unfoldable pub read_data : Mem → FileSystem → ℕ → ℕ → ℕ → ℕ → Option (ℕ × Mem)
read_data m fs inode offset buf length =
    let file_size = load32 m (inode_address fs inode) in
    let end = end_point offset length file_size in
    let num_addr = inode_address fs inode + 4 + 4 * (offset / four_kb) in
    let run =
      read_data_loop (suc (sub32 end offset)) m fs buf num_addr
        (dblock_address m fs (load32 m num_addr)) offset end 0 in
    if leb (num_inodes m fs) inode
    then some (minus_one, m)
    else if ltb file_size offset
    then some (0, m)
    else run
