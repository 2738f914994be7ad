-- ===== src/FileSystem/Keeps.antt =====
-- What the calls of student-distrib/file_system.c keep: memory stays bytes, and a file that is not
-- overwritten stays as it is.
use ece391os.Prelude.{
  ℕ, zero, suc, ◌+◌, ◌*◌, ◌/◌, ◌%◌, ◌≤◌, ◌<◌, ◌≡◌, inl, inr, arith, Option, none, some,
  if◌then◌else◌, ltb, leb, ◌==◌, Bool-cases, minus_one, sub32, length,
}
use mathlib.Core.Path.{subst}
use ece391os.Memory.{Mem, load32, store32}
use ece391os.Text.{strncpy}
use ece391os.Text.Compare.{IsBytes}
use ece391os.Text.Bytes.{store32-IsBytes, memcpy-IsBytes, strncpy-IsBytes}
use ece391os.FileSystem.{
  FileSystem, name_length, num_inodes, copy_dentry, four_kb, copy_length, read_data_loop,
  inode_address, end_point, read_data, find_dentry, read_dentry_by_name,
}
use ece391os.FileSystem.Blocks.{
  block_base, file_size, file_byte, IsWithin, Same, load32-Same, block_base-Same,
}

-- The memory of a result, if there is one, is bytes.
abbrev pub AllBytes : Option (ℕ × Mem) → Type 0
AllBytes none = Unit
AllBytes (some (ret, m)) = IsBytes m

pub some-AllBytes :
    (o : Option (ℕ × Mem)) (ret : ℕ) (m : Mem) → AllBytes o → o ≡ some (ret, m) → IsBytes m
some-AllBytes o ret m all e = subst AllBytes e all

read_data_loop-AllBytes :
    (fuel : ℕ) (m : Mem) (fs : FileSystem) (buf num_addr dblock_addr cur end copied : ℕ)
    → IsBytes m
    → AllBytes (read_data_loop fuel m fs buf num_addr dblock_addr cur end copied)
unfolding read_data_loop
read_data_loop-AllBytes zero m fs buf num_addr dblock_addr cur end copied b = tt
read_data_loop-AllBytes (suc fuel) m fs buf num_addr dblock_addr cur end copied b =
    elim (Bool-cases (cur == end)) [
      | inl done ↦ rw done b
      | inr more ↦ rw more (
          read_data_loop-AllBytes fuel _ fs buf _ _ _ end _
            (memcpy-IsBytes (copy_length cur end) m (buf + copied) (dblock_addr + cur % four_kb) b))
    ]

pub read_data-AllBytes :
    (m : Mem) (fs : FileSystem) (inode offset buf length : ℕ)
    → IsBytes m
    → AllBytes (read_data m fs inode offset buf length)
unfolding read_data
read_data-AllBytes m fs inode offset buf length b =
    elim (Bool-cases (leb (num_inodes m fs) inode)) [
      | inl bad ↦ rw bad b
      | inr good ↦ elim (Bool-cases (ltb (load32 m (inode_address fs inode)) offset)) [
        | inl past ↦ rw (good, past) b
        | inr inside ↦
            rw (good, inside)
              (read_data_loop-AllBytes
                (suc (sub32 (end_point offset length (load32 m (inode_address fs inode))) offset)) m
                fs buf _ _ offset _ 0 b)
      ]
    ]

pub copy_dentry-IsBytes : (m : Mem) (dentry e : ℕ) → IsBytes m → IsBytes (copy_dentry m dentry e)
unfolding copy_dentry
copy_dentry-IsBytes m dentry e b =
    let m1 = strncpy m dentry e name_length in
    let m2 = store32 m1 (dentry + 32) (load32 m1 (e + 32)) in
    store32-IsBytes m2 (dentry + 36) _
      (store32-IsBytes m1 (dentry + 32) _ (strncpy-IsBytes name_length m dentry e b))

pub read_dentry_by_name-AllBytes :
    (m : Mem) (fs : FileSystem) (filename dentry : ℕ)
    → IsBytes m
    → AllBytes (read_dentry_by_name m fs filename dentry)
unfolding read_dentry_by_name
read_dentry_by_name-AllBytes m fs filename dentry b = go (find_dentry m fs filename)
  where
    go :
        (o : Option ℕ)
        → AllBytes (elim o [
          | none ↦ none
          | some d ↦ some (if d == 0 then (minus_one, m) else (0, copy_dentry m dentry d))
        ])
    go none = tt
    go (some d) = elim (Bool-cases (d == 0)) [
      | inl null ↦ rw null b
      | inr found ↦ rw found (copy_dentry-IsBytes m dentry d b)
    ]

-- A file is the same in two memories that agree on all of it.
pub record SameFile (m m' : Mem) (fs : FileSystem) (inode lo hi : ℕ) : Type 0 where
  pub within : IsWithin m' fs inode lo hi
  pub size : file_size m' fs inode ≡ file_size m fs inode
  pub inodes : num_inodes m' fs ≡ num_inodes m fs
  pub bytes : (p : ℕ) → p < file_size m fs inode → file_byte m' fs inode p ≡ file_byte m fs inode p

pub SameFile-Same :
    (m m' : Mem) (fs : FileSystem) (inode lo hi : ℕ)
    → IsWithin m fs inode lo hi
    → Same m m' lo hi
    → lo ≤ inode_address fs inode
    → inode_address fs inode + 4 ≤ hi
    → SameFile m m' fs inode lo hi
unfolding file_byte
SameFile-Same m m' fs inode lo hi w same l h = record {
  within = record {
    header = w.header;
    entries = λ k lt. w.entries k (rw⁻¹ size lt);
    blocks = λ k lt. rw (base k (rw⁻¹ size lt)) (w.blocks k (rw⁻¹ size lt));
  };
  size = size;
  inodes = load32-Same m m' lo hi (fs.boot_block + 4) same w.header.0 (omega (arith, w.header.1));
  bytes = λ p lt.
      let k = p / four_kb in
      let inside : k * four_kb < file_size m fs inode = omega arith in
      let b = w.blocks k inside in
      rw (base k inside) (same _ (omega (arith, b.0)) (omega (arith, b.1)));
}
  where
    size : file_size m' fs inode ≡ file_size m fs inode
    size = load32-Same m m' lo hi (inode_address fs inode) same l h

    base :
        (k : ℕ)
        → k * four_kb < file_size m fs inode
        → block_base m' fs inode k ≡ block_base m fs inode k
    base k lt = block_base-Same m m' fs inode lo hi k w same lt
