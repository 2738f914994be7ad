-- ===== src/Syscalls/Open.antt =====
-- `open` of student-distrib/syscalls.c on a name of the directory, by what is found there.
use ece391os.Prelude.{
  ℕ, ◌+◌, ◌≤◌, ◌<◌, ◌≡◌, ◌≢◌, inl, inr, refl, ap, ◌∙◌, arith, false, none, some, ◌==◌, ==_iff,
  Bool-cases, minus_one,
}
use native.Mathlib.Decide.{dec_lt}
use ece391os.Memory.{Mem, load32}
use ece391os.Text.{strncmp}
use ece391os.Text.Length.{IsString, strlen_of_string}
use ece391os.Text.Compare.{IsBytes, strncmp-Agree}
use ece391os.FileSystem.{name_length, num_dentries, dentry_address}
use ece391os.FileSystem.Lookup.{IsNamed}
use ece391os.FileSystem.Entry.{IsCopy, OutsideDirectory, read_dentry_by_name-Looked}
use ece391os.FileSystem.Keeps.{some-AllBytes, read_dentry_by_name-AllBytes}
use ece391os.Descriptor.{dir_table, file_table, max_fd_num, Fdt}
use ece391os.Process.{Sys}
use ece391os.Syscalls.{
  find_free, new_desc, install, install_entry, open_free, open_entry, open_call,
}
use ece391os.Syscalls.Table.{find_free_lem}

-- Two strings that differ at `i` do not compare equal.
pub strncmp_differs :
    (m : Mem) (s1 s2 n i : ℕ)
    → IsBytes m
    → i < n
    → ((j : ℕ) → j < i → m (s1 + j) ≢ 0)
    → m (s1 + i) ≢ m (s2 + i)
    → (strncmp m s1 s2 n == 0) ≡ false
strncmp_differs m s1 s2 n i b lt before ne = elim (Bool-cases (strncmp m s1 s2 n == 0)) [
  | inl e ↦ absurd (ne ((strncmp-Agree n m s1 s2 b).0 ((==_iff _ _).0 e) i lt before))
  | inr e ↦ e
]

-- A name of `len` bytes that `open` looks up in the directory.
pub record IsOrdinary (s : Sys) (filename len : ℕ) : Type 0 where
  pub string : IsString s.mem filename len
  pub short : len ≤ name_length
  pub there : filename ≢ 0
  pub not_empty : (strncmp s.mem filename s.literals.empty_name len == 0) ≡ false
  pub not_stdin : (strncmp s.mem filename s.literals.stdin_name len == 0) ≡ false
  pub not_stdout : (strncmp s.mem filename s.literals.stdout_name len == 0) ≡ false

pub open_call_entry :
    (frame filename len : ℕ) (s : Sys)
    → IsOrdinary s filename len
    → open_call frame filename s ≡ open_entry frame filename s
unfolding open_call
open_call_entry frame filename len s o =
    let given : (filename == 0) ≡ false = ground (arith, o.there) in
    rw
      (
        open_call,
        given,
        strlen_of_string s.mem filename len o.string,
        o.not_empty,
        o.not_stdin,
        o.not_stdout,
      )
      refl

-- `open` of a name that no directory entry has fails and changes nothing.
pub open_call-missing :
    (frame filename len : ℕ) (s : Sys)
    → IsBytes s.mem
    → OutsideDirectory s.mem s.fs frame
    → IsOrdinary s filename len
    → ((k : ℕ) → k < num_dentries s.mem s.fs → ¬ IsNamed s.mem (dentry_address s.fs k) filename len)
    → open_call frame filename s ≡ some (minus_one, s)
unfolding open_entry
open_call-missing frame filename len s b out o none_there =
    let (ret, m, run, found) =
      read_dentry_by_name-Looked s.mem s.fs filename len frame b o.string o.short out in
    elim found [
      | inl (k, lt, named, first, z, copy) ↦ absurd (none_there k lt named)
      | inr (e, same, rest) ↦
          open_call_entry frame filename len s o ∙ rw (open_entry, run, e, same) refl
    ]

-- `open` of the empty name fails and changes nothing.
pub open_call-empty :
    (frame filename : ℕ) (s : Sys)
    → IsString s.mem filename 0
    → open_call frame filename s ≡ some (minus_one, s)
unfolding open_call strncmp
open_call-empty frame filename s str = elim (Bool-cases (filename == 0)) [
  | inl null ↦ rw null refl
  | inr given ↦ rw (open_call, given, strlen_of_string s.mem filename 0 str) refl
]

-- What `open` finds for a name that an entry has: the first such entry, which is copied to the
-- local `dentry_t`.
pub record IsFound (frame filename len : ℕ) (s : Sys) (k : ℕ) (m : Mem) : Type 0 where
  pub below : k < num_dentries s.mem s.fs
  pub named : IsNamed s.mem (dentry_address s.fs k) filename len
  pub copy : IsCopy s.mem (dentry_address s.fs k) frame m
  pub bytes : IsBytes m
  pub opens : open_call frame filename s ≡ some (open_free frame (record s { mem = m }))

pub open_call-IsFound :
    (frame filename len k : ℕ) (s : Sys)
    → IsBytes s.mem
    → OutsideDirectory s.mem s.fs frame
    → IsOrdinary s filename len
    → k < num_dentries s.mem s.fs
    → IsNamed s.mem (dentry_address s.fs k) filename len
    → (j : ℕ) × (m : Mem) × IsFound frame filename len s j m
unfolding open_entry
open_call-IsFound frame filename len k s b out o below there =
    let (ret, m, run, found) =
      read_dentry_by_name-Looked s.mem s.fs filename len frame b o.string o.short out in
    elim found [
      | inl (j, lt, named, first, z, copy) ↦ (
        j,
        m,
        record {
          below = lt;
          named = named;
          copy = copy;
          bytes =
              some-AllBytes _ ret m (read_dentry_by_name-AllBytes s.mem s.fs filename frame b) run;
          opens = open_call_entry frame filename len s o ∙ rw (open_entry, run, z) refl;
        },
      )
      | inr (e, same, none_there) ↦ absurd (none_there k below there)
    ]

-- The descriptors below `n` are in use and the others are free.
find_free-next :
    (t : Fdt) (n : ℕ)
    → 2 ≤ n
    → n ≤ max_fd_num
    → ((i : ℕ) → 2 ≤ i → i < n → (t i).flags ≡ 1)
    → (t n).flags ≡ minus_one
    → find_free 6 2 t ≡ some n
find_free-next t n lo hi used free = elim (find_free_lem 6 2 t refl) [
  | inl (e, all) ↦ absurd (all n lo hi free)
  | inr (k, e, low) ↦
      e
      ∙ ap some (elim (dec_lt k n) [
        | yes lt ↦ absurd (ground (arith, used k low.from lt, low.free))
        | no ge ↦ elim (dec_lt n k) [
          | yes gt ↦ absurd (low.lowest n lo gt free)
          | no le ↦ omega arith
        ]
      ])
]

find_free-full :
    (t : Fdt) → ((i : ℕ) → 2 ≤ i → i ≤ max_fd_num → (t i).flags ≡ 1) → find_free 6 2 t ≡ none
find_free-full t used = elim (find_free_lem 6 2 t refl) [
  | inl (e, all) ↦ e
  | inr (k, e, low) ↦ absurd (ground (arith, used k low.from low.to, low.free))
]

-- With a free descriptor the entry of a directory is opened there.
pub open_free-directory :
    (frame n : ℕ) (s : Sys)
    → 2 ≤ n
    → n ≤ max_fd_num
    → ((i : ℕ) → 2 ≤ i → i < n → (s.pcb.fdt i).flags ≡ 1)
    → (s.pcb.fdt n).flags ≡ minus_one
    → load32 s.mem (frame + 32) ≡ 1
    → open_free frame s ≡ (n, install s n (new_desc dir_table 0))
unfolding open_free install_entry
open_free-directory frame n s lo hi used free e =
    rw (open_free, find_free-next s.pcb.fdt n lo hi used free, e) refl

-- With every descriptor in use no entry is opened.
pub open_free-full :
    (frame : ℕ) (s : Sys)
    → ((i : ℕ) → 2 ≤ i → i ≤ max_fd_num → (s.pcb.fdt i).flags ≡ 1)
    → open_free frame s ≡ (minus_one, s)
unfolding open_free
open_free-full frame s used = rw (open_free, find_free-full s.pcb.fdt used) refl

-- With a free descriptor the entry of a file is opened there, at its start.
pub open_free-file :
    (frame n inode : ℕ) (s : Sys)
    → 2 ≤ n
    → n ≤ max_fd_num
    → ((i : ℕ) → 2 ≤ i → i < n → (s.pcb.fdt i).flags ≡ 1)
    → (s.pcb.fdt n).flags ≡ minus_one
    → load32 s.mem (frame + 32) ≡ 2
    → load32 s.mem (frame + 36) ≡ inode
    → open_free frame s ≡ (n, install s n (new_desc file_table inode))
unfolding open_free install_entry
open_free-file frame n inode s lo hi used free type number =
    rw (open_free, find_free-next s.pcb.fdt n lo hi used free, type, number) refl
