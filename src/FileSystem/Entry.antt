-- ===== src/FileSystem/Entry.antt =====
-- `read_dentry_by_name` and `read_dentry_by_index` of student-distrib/file_system.c: which entry is
-- copied, and what the copy holds.
use ece391os.Prelude.{
  ℕ, ◌+◌, ◌≤◌, ◌<◌, ◌≡◌, ◌≢◌, ◌⊎◌, inl, inr, refl, ◌∙◌, arith, false, some, if◌then◌else◌, ltb, leb,
  leb→le, Bool-cases, minus_one,
}
use ece391os.Memory.{Mem, load32, store32, in_block}
use ece391os.Memory.Words.{load32-store32, load32-store32_ne, load32_ext, load32-lt}
use ece391os.Text.{strncpy}
use ece391os.Text.Length.{IsString}
use ece391os.Text.Copy.{strncpy_lem}
use ece391os.Text.Compare.{IsBytes}
use ece391os.FileSystem.{
  FileSystem, num_dentries, dentry_address, name_length, copy_dentry, read_dentry_by_name,
  read_dentry_by_index,
}
use ece391os.Text.Outside.{strncpy_outside}
use ece391os.FileSystem.Lookup.{IsNamed, find_dentry-Found}

-- The `dentry_t` at `dentry` of `m'` is a copy of the entry at `e` of `m`, and nothing else
-- changed.
pub record IsCopy (m : Mem) (e dentry : ℕ) (m' : Mem) : Type 0 where
  pub type_copied : load32 m' (dentry + 32) ≡ load32 m (e + 32)
  pub inode_copied : load32 m' (dentry + 36) ≡ load32 m (e + 36)
  pub outside : (a : ℕ) → in_block dentry 40 a ≡ false → m' a ≡ m a
  -- The name field holds the entry's name, then NUL bytes.
  pub name_copied :
      (len : ℕ)
      → len ≤ 32
      → ((i : ℕ) → i < len → m (e + i) ≢ 0)
      → (len < 32 → m (e + len) ≡ 0)
      → (i : ℕ) → i < 32
      → m' (dentry + i) ≡ (if ltb i len then m (e + i) else 0)

load32-strncpy :
    (m : Mem) (d s a : ℕ) → (a + 4 ≤ d) ⊎ (d + 32 ≤ a) → load32 (strncpy m d s 32) a ≡ load32 m a
load32-strncpy m d s a h =
    load32_ext m (strncpy m d s 32) a (out a (ground arith)) (out (a + 1) (ground arith))
      (out (a + 2) (ground arith)) (out (a + 3) (ground arith))
  where
    out : (b : ℕ) → in_block d 32 b ≡ false → strncpy m d s 32 b ≡ m b
    out = strncpy_outside 32 m d s

copy_dentry-IsCopy :
    (m : Mem) (dentry e : ℕ)
    → IsBytes m
    → (e + 40 ≤ dentry) ⊎ (dentry + 40 ≤ e)
    → IsCopy m e dentry (copy_dentry m dentry e)
unfolding copy_dentry
copy_dentry-IsCopy m dentry e b apart = record {
  type_copied =
      load32-store32_ne m2 (dentry + 36) (dentry + 32) _ (omega arith)
      ∙ load32-store32 m1 (dentry + 32) _ (rw type1 (load32-lt m (e + 32) b))
      ∙ type1;
  inode_copied = load32-store32 m2 (dentry + 36) _ (rw inode2 (load32-lt m (e + 36) b)) ∙ inode2;
  outside = λ a h. ground (arith, strncpy_outside 32 m dentry e a);
  name_copied = λ len le inside ends i lt.
      ground (arith, strncpy_lem 32 len m dentry e (dentry + i) inside ends);
}
  where
    m1 : Mem
    m1 = strncpy m dentry e 32

    type1 : load32 m1 (e + 32) ≡ load32 m (e + 32)
    type1 = load32-strncpy m dentry e (e + 32) (omega arith)

    m2 : Mem
    m2 = store32 m1 (dentry + 32) (load32 m1 (e + 32))

    inode2 : load32 m2 (e + 36) ≡ load32 m (e + 36)
    inode2 =
        load32-store32_ne m1 (dentry + 32) (e + 36) _ (omega arith)
        ∙ load32-strncpy m dentry e (e + 36) (omega arith)

-- What a call that looks for the name at `s` must return: 0 with a copy of the first entry of that
-- name, or -1 with memory unchanged if there is no such entry.
abbrev pub Looked : Mem → FileSystem → ℕ → ℕ → ℕ → ℕ → Mem → Type 0
Looked m fs s len dentry ret m' =
    ((k : ℕ) × (k < num_dentries m fs)
      × IsNamed m (dentry_address fs k) s len
      × ((j : ℕ) → j < k → ¬ IsNamed m (dentry_address fs j) s len)
      × (ret ≡ 0)
      × IsCopy m (dentry_address fs k) dentry m')
    ⊎ ((ret ≡ minus_one)
        × (m' ≡ m)
        × ((j : ℕ) → j < num_dentries m fs → ¬ IsNamed m (dentry_address fs j) s len))

-- The `dentry_t` that the caller passes lies outside the directory.
abbrev pub OutsideDirectory : Mem → FileSystem → ℕ → Type 0
OutsideDirectory m fs dentry =
    (dentry + 40 ≤ fs.boot_block) ⊎ (dentry_address fs (num_dentries m fs) ≤ dentry)

entry_apart :
    (m : Mem) (fs : FileSystem) (dentry k : ℕ)
    → OutsideDirectory m fs dentry
    → k < num_dentries m fs
    → (dentry_address fs k + 40 ≤ dentry) ⊎ (dentry + 40 ≤ dentry_address fs k)
entry_apart m fs dentry k out lt = omega arith

-- `read_dentry_by_name` returns 0 and copies the first entry whose name field holds exactly the
-- given name of at most 32 bytes, or returns -1 and changes nothing when no entry has that name.
-- The caller's `dentry_t` lies outside the directory.
pub read_dentry_by_name-Looked :
    (m : Mem) (fs : FileSystem) (s len dentry : ℕ)
    → IsBytes m
    → IsString m s len
    → len ≤ name_length
    → OutsideDirectory m fs dentry
    → (ret : ℕ) × (m' : Mem) × (read_dentry_by_name m fs s dentry ≡ some (ret, m'))
      × Looked m fs s len dentry ret m'
unfolding read_dentry_by_name
read_dentry_by_name-Looked m fs s len dentry b str short out =
    let (r, run, found) = find_dentry-Found m b s len str short fs in
    elim found [
      | inl (k, le, lt, e, named, first) ↦ (
        0,
        copy_dentry m dentry r,
        ground (arith, run, e),
        inl (
          k,
          omega arith,
          named,
          λ j lt'. first j (omega arith) lt',
          refl,
          rw e (
              copy_dentry-IsCopy m dentry (dentry_address fs k) b
                (entry_apart m fs dentry k out (omega arith))),
        ),
      )
      | inr (e, none_there) ↦ (
        minus_one,
        m,
        ground (arith, run, e),
        inr (refl, refl, λ j lt. none_there j (omega arith) (omega arith)),
      )
    ]

-- `read_dentry_by_index` returns 0 and copies the entry at any index below the number of
-- entries, and returns -1 and changes nothing for any other index. The caller's `dentry_t` lies
-- outside the directory.
pub read_dentry_by_index-IsCopy :
    (m : Mem) (fs : FileSystem) (index dentry : ℕ)
    → IsBytes m
    → OutsideDirectory m fs dentry
    → let (ret, m') = read_dentry_by_index m fs index dentry in
      ((index < num_dentries m fs) × (ret ≡ 0) × IsCopy m (dentry_address fs index) dentry m')
      ⊎ ((num_dentries m fs ≤ index) × (ret ≡ minus_one) × (m' ≡ m))
unfolding read_dentry_by_index
read_dentry_by_index-IsCopy m fs index dentry b out =
    elim (Bool-cases (leb (num_dentries m fs) index)) [
      | inl past ↦ rw past (inr (leb→le _ _ past, refl, refl))
      | inr below ↦
          let lt : index < num_dentries m fs = ground arith in
          rw below (
            inl (
              lt,
              refl,
              copy_dentry-IsCopy m dentry (dentry_address fs index) b
                  (entry_apart m fs dentry index out lt),
            ))
    ]
