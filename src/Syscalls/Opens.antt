-- ===== src/Syscalls/Opens.antt =====
-- `open` of student-distrib/syscalls.c on every name of the directory.
use ece391os.Prelude.{
  ℕ, ◌+◌, ◌≤◌, ◌<◌, ◌≡◌, ◌≢◌, ◌⊎◌, inl, inr, refl, ◌∙◌, arith, false, some, if◌then◌else◌, ◌==◌,
  ==_refl, update, minus_one,
}
use mathlib.Core.Path.{subst}
use native.Mathlib.Decide.{ℕ_discrete}
use ece391os.Memory.{load32}
use ece391os.Text.Compare.{IsBytes}
use ece391os.FileSystem.{num_dentries, dentry_address}
use ece391os.FileSystem.Lookup.{IsNamed}
use ece391os.FileSystem.Entry.{OutsideDirectory, read_dentry_by_name-Looked}
use ece391os.Descriptor.{JumpTable, rtc_table, dir_table, file_table, max_fd_num, Fdt}
use ece391os.Process.{Sys}
use ece391os.Syscalls.{new_desc, install_entry, open_free, open_entry, open_call}
use ece391os.Syscalls.Table.{IsLowest, find_free_lem}
use ece391os.Syscalls.Open.{IsOrdinary, open_call_entry}

-- Entry `k` is the first one with the name.
pub record IsFirst (s : Sys) (filename len k : ℕ) : Type 0 where
  pub below : k < num_dentries s.mem s.fs
  pub named : IsNamed s.mem (dentry_address s.fs k) filename len
  pub first : (j : ℕ) → j < k → ¬ IsNamed s.mem (dentry_address s.fs j) filename len

-- The functions of a file of type 0, 1 or 2: the clock, the directory, or a file with contents.
abbrev pub table_of : ℕ → JumpTable
table_of type = if type == 0 then rtc_table else if type == 1 then dir_table else file_table

-- In the table `t'` descriptor `i` is in use for a file of this type and inode, from its start;
-- every other descriptor is that of `t`.
pub record IsInstalled (t : Fdt) (i type inode : ℕ) (t' : Fdt) : Type 0 where
  pub used : (t' i).flags ≡ 1
  pub start : (t' i).file_position ≡ 0
  pub functions : (t' i).jump_ptr ≡ table_of type
  pub inode_kept : (t' i).inode ≡ (if type == 2 then inode else 0)
  pub others : (j : ℕ) → j ≢ i → t' j ≡ t j

-- What becomes of the table when an entry of this type and inode is opened.
abbrev pub Taken : ℕ → ℕ → Fdt → ℕ → Fdt → Type 0
Taken type inode t ret t' =
    (((j : ℕ) → 2 ≤ j → j ≤ max_fd_num → (t j).flags ≢ minus_one) × (ret ≡ minus_one) × (t' ≡ t))
    ⊎ ((2 < type) × (ret ≡ minus_one) × (t' ≡ t))
    ⊎ ((type ≤ 2) × IsLowest t 2 ret × IsInstalled t ret type inode t')

-- What `open` does with a name.
abbrev pub Opens : ℕ → ℕ → Sys → ℕ → Sys → Type 0
Opens filename len s ret s' =
    (((j : ℕ) → j < num_dentries s.mem s.fs → ¬ IsNamed s.mem (dentry_address s.fs j) filename len)
      × (ret ≡ minus_one)
      × (s' ≡ s))
    ⊎ ((k : ℕ) × IsFirst s filename len k
        × Taken (load32 s.mem (dentry_address s.fs k + 32))
            (load32 s.mem (dentry_address s.fs k + 36)) s.pcb.fdt ret s'.pcb.fdt)

install_entry-Taken :
    (type inode i : ℕ) (s : Sys)
    → IsLowest s.pcb.fdt 2 i
    → let r = install_entry type inode i s in Taken type inode s.pcb.fdt r.0 r.1.pcb.fdt
unfolding install_entry
install_entry-Taken type inode i s low = elim (ℕ_discrete type 0) [
  | yes z ↦ rw z (inr (inr (omega arith, low, installed 0 rtc_table 0 refl refl)))
  | no nz ↦ elim (ℕ_discrete type 1) [
    | yes d ↦ rw d (inr (inr (omega arith, low, installed 1 dir_table 0 refl refl)))
    | no nd ↦ elim (ℕ_discrete type 2) [
      | yes f ↦ rw f (inr (inr (omega arith, low, installed 2 file_table inode refl refl)))
      | no nf ↦
          let z : (type == 0) ≡ false = ground (arith, nz) in
          let d : (type == 1) ≡ false = ground (arith, nd) in
          let f : (type == 2) ≡ false = ground (arith, nf) in
          rw (z, d, f) (inr (inl (omega (arith, nz, nd, nf), refl, refl)))
    ]
  ]
]
  where
    installed :
        (type' : ℕ) (table : JumpTable) (inode' : ℕ)
        → table ≡ table_of type'
        → inode' ≡ (if type' == 2 then inode else 0)
        → IsInstalled s.pcb.fdt i type' inode (update s.pcb.fdt i (new_desc table inode'))
    installed type' table inode' e e' = record {
      used = rw (==_refl i) refl;
      start = rw (==_refl i) refl;
      functions = rw (==_refl i) e;
      inode_kept = rw (==_refl i) e';
      others = λ j ne. ground arith;
    }

open_free-Taken :
    (frame : ℕ) (s : Sys)
    → let r = open_free frame s in
      Taken (load32 s.mem (frame + 32)) (load32 s.mem (frame + 36)) s.pcb.fdt r.0 r.1.pcb.fdt
unfolding open_free
open_free-Taken frame s = elim (find_free_lem 6 2 s.pcb.fdt refl) [
  | inl (e, all) ↦ rw (open_free, e) (inl (all, refl, refl))
  | inr (k, e, low) ↦
      rw (open_free, e)
        (install_entry-Taken (load32 s.mem (frame + 32)) (load32 s.mem (frame + 36)) k s low)
]

-- `open` on any string of at most 32 bytes that is not taken for the empty name or a name of the
-- terminal returns. If no entry of the directory has the name, the result is -1 and nothing has
-- changed. Otherwise it opens the first entry that has it: with no free descriptor from 2 to 7,
-- or for a type above 2, the result is -1 and the descriptors are as they were; else the result
-- is the lowest free descriptor, which is now in use at position 0, with the functions of the
-- clock, of the directory or of a file by the type, and for a file with its inode, and no other
-- descriptor has changed. The local `dentry_t` lies outside the directory.
pub open_call-Opens :
    (frame filename len : ℕ) (s : Sys)
    → IsBytes s.mem
    → OutsideDirectory s.mem s.fs frame
    → IsOrdinary s filename len
    → (ret : ℕ) × (s' : Sys) × (open_call frame filename s ≡ some (ret, s'))
      × Opens filename len s ret s'
unfolding open_entry
open_call-Opens frame filename len s b out o =
    let (ret, m, run, found) =
      read_dentry_by_name-Looked s.mem s.fs filename len frame b o.string o.short out in
    elim found [
      | inl (k, lt, named, first, z, copy) ↦
          let s1 = record s { mem = m } in
          let goes : open_entry frame filename s ≡ some (open_free frame s1) =
            rw (open_entry, run, z) refl in
          let taken : Taken (load32 s.mem (dentry_address s.fs k + 32))
              (load32 s.mem (dentry_address s.fs k + 36)) s.pcb.fdt (open_free frame s1).0
              (open_free frame s1).1.pcb.fdt =
            subst
              (λ t.
                Taken t (load32 s.mem (dentry_address s.fs k + 36)) s.pcb.fdt (open_free frame s1).0
                  (open_free frame s1).1.pcb.fdt)
              copy.type_copied
              (subst
                (λ n.
                  Taken (load32 m (frame + 32)) n s.pcb.fdt (open_free frame s1).0
                    (open_free frame s1).1.pcb.fdt)
                copy.inode_copied (open_free-Taken frame s1)) in
          (
            (open_free frame s1).0,
            (open_free frame s1).1,
            open_call_entry frame filename len s o ∙ goes,
            inr (k, record { below = lt; named = named; first = first }, taken),
          )
      | inr (e, same, none_there) ↦ (
        minus_one,
        s,
        open_call_entry frame filename len s o ∙ rw (open_entry, run, e, same) refl,
        inl (none_there, refl, refl),
      )
    ]
