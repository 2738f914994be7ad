-- ===== src/Files/Listing.antt =====
-- `dir_read` of student-distrib/file_system.c walks over the directory.
use ece391os.Prelude.{
  ℕ, ◌+◌, ◌^◌, ◌≤◌, ◌<◌, ◌≡◌, ◌≢◌, ◌⊎◌, inl, inr, refl, sym, ◌∙◌, arith, false, if◌then◌else◌, ltb,
  lt→ltb, le→ltb, minus_one,
}
use mathlib.Core.Path.{subst}
use ece391os.Memory.{Mem, in_block}
use ece391os.Memory.Words.{load32-lt}
use ece391os.Text.{strncpy}
use ece391os.Text.Copy.{strncpy_lem, padded}
use ece391os.Text.Compare.{IsBytes}
use ece391os.FileSystem.{
  FileSystem, num_dentries, dentry_address, name_length, read_dentry_by_index,
}
use ece391os.FileSystem.Entry.{IsCopy, OutsideDirectory, read_dentry_by_index-IsCopy}
use ece391os.Descriptor.{Fdt}
use ece391os.Files.{dir_read, after_entry}

-- The name in the field at `e` has `len` bytes.
pub record HasName (m : Mem) (e len : ℕ) : Type 0 where
  pub short : len ≤ name_length
  pub inside : (i : ℕ) → i < len → m (e + i) ≢ 0
  pub ends : len < name_length → m (e + len) ≡ 0

-- What `dir_read` at entry `i` leaves behind: the result is 32, the buffer holds the name of the
-- entry and then NUL bytes, the position has moved to the next entry, the other descriptors are as
-- before, and memory outside the buffer and the local entry has not changed.
pub record Listed (m : Mem) (fdt : Fdt) (fd buf frame e i len : ℕ) (out : ℕ × Fdt × Mem)
    : Type 0 where
  pub count : out.0 ≡ name_length
  pub moved : (out.1 fd).file_position ≡ i + 1
  pub others : (other : ℕ) → other ≢ fd → out.1 other ≡ fdt other
  pub name : (k : ℕ) → k < 32 → out.2 (buf + k) ≡ (if ltb k len then m (e + k) else 0)
  pub outside : (a : ℕ) → in_block buf 32 a ≡ false → in_block frame 40 a ≡ false → out.2 a ≡ m a

after_entry-Listed :
    (m m1 : Mem) (fdt : Fdt) (fd buf frame e i len : ℕ)
    → IsCopy m e frame m1
    → HasName m e len
    → (fdt fd).file_position ≡ i
    → i + 1 < 2 ^ 32
    → (frame + 40 ≤ buf) ⊎ (buf + 40 ≤ frame)
    → Listed m fdt fd buf frame e i len (after_entry fdt fd buf frame (0, m1))
after_entry-Listed m m1 fdt fd buf frame e i len c h ei fits apart = record {
  count = refl;
  moved = ground arith;
  others = λ other ne. ground arith;
  name = λ k lt. ground (arith, stored (buf + k), c.name_copied len h.short h.inside h.ends k lt);
  outside = λ a out local. ground (arith, stored a, c.outside a local);
}
  where
    inside : (k : ℕ) → k < len → m1 (frame + k) ≢ 0
    inside k lt =
        rw (c.name_copied len h.short h.inside h.ends k (omega (arith, h.short)), lt→ltb k len lt)
          (h.inside k lt)

    ends : len < name_length → m1 (frame + len) ≡ 0
    ends lt = c.name_copied len h.short h.inside h.ends len lt ∙ rw (le→ltb len len (omega arith))

    stored : (a : ℕ) → strncpy m1 buf frame name_length a ≡ padded m1 buf frame len name_length a
    stored a = strncpy_lem name_length len m1 buf frame a inside ends (omega (arith, h.short))

-- `dir_read` at a position inside the directory lists that entry and moves on to the next; at
-- the end of the directory it returns 0 and changes nothing. The position is not -1, and the
-- buffer and the local entry overlap neither each other nor, for the entry, the directory.
pub dir_read-Listed :
    (fs : FileSystem) (fdt : Fdt) (m : Mem) (frame fd buf nbytes len : ℕ)
    → IsBytes m
    → OutsideDirectory m fs frame
    → (frame + 40 ≤ buf) ⊎ (buf + 40 ≤ frame)
    → let i = (fdt fd).file_position in
      i ≢ minus_one
      → (i < num_dentries m fs → HasName m (dentry_address fs i) len)
      → ((i < num_dentries m fs)
          × Listed m fdt fd buf frame
              (dentry_address fs i)
              i
              len
              (dir_read fs fdt m frame fd buf nbytes))
        ⊎ ((num_dentries m fs ≤ i) × (dir_read fs fdt m frame fd buf nbytes ≡ (0, fdt, m)))
unfolding dir_read
dir_read-Listed fs fdt m frame fd buf nbytes len b out apart not_closed named =
    elim (read_dentry_by_index-IsCopy m fs i frame b out) [
      | inl (lt, e, c) ↦ inl (
        lt,
        subst (Listed m fdt fd buf frame (dentry_address fs i) i len) (sym (proceeds lt e)) (
            after_entry-Listed m (read_dentry_by_index m fs i frame).1 fdt fd buf frame
              (dentry_address fs i) i len c (named lt) refl
              (omega (arith, load32-lt m fs.boot_block b)) apart),
      )
      | inr (le, _, _) ↦ inr (le, ground arith)
    ]
  where
    i : ℕ
    i = (fdt fd).file_position

    proceeds :
        i < num_dentries m fs
        → (read_dentry_by_index m fs i frame).0 ≡ 0
        → dir_read fs fdt m frame fd buf nbytes
          ≡ after_entry fdt fd buf frame (0, (read_dentry_by_index m fs i frame).1)
    proceeds lt e = ground arith
