-- ===== src/User/Cat/Named.antt =====
-- The whole of syscalls/ece391cat.c on a name of the directory.
use ece391os.Prelude.{
  ℕ, ◌+◌, ◌^◌, ◌≤◌, ◌<◌, ◌≡◌, ◌≢◌, ◌⊎◌, refl, ap, ◌∙◌, arith, true, false, some, ltb, ◌==◌, u32,
  minus_one,
}
use ece391os.Memory.{Mem, load32, in_block}
use ece391os.Text.{strncmp, strncpy}
use ece391os.Text.Length.{IsString, strlen_of_string}
use ece391os.Text.Compare.{IsBytes}
use ece391os.Text.Copy.{strncpy-padded}
use ece391os.Text.Bytes.{strncpy-IsBytes}
use ece391os.FileSystem.{name_length, num_dentries, num_inodes, dentry_address, inode_address}
use ece391os.FileSystem.Lookup.{IsNamed}
use ece391os.FileSystem.Moved.{IsMoved, strncmp_moved, IsNamed-moved}
use ece391os.FileSystem.Blocks.{file_size, IsWithin, Same, load32-Same}
use ece391os.Descriptor.{file_table}
use ece391os.Process.{Sys, in_program}
use ece391os.Syscalls.{getargs, open_call, new_desc, install}
use ece391os.Syscalls.Open.{IsOrdinary, open_call-IsFound, open_free-file}
use ece391os.User.Library.Prints.{HasTerminal}
use ece391os.User.Cat.{buf_size}

-- A process that runs `cat` on a name of `n` bytes, which the entries of the directory have for the
-- file `inode`. The directory and the file lie in memory from `lo` to `hi`, apart from the buffer
-- and the kernel's local `dentry_t`; the buffer lies in the program, apart from the arguments and
-- from the names of the terminal.
pub record CanCat (s : Sys) (frame buf lo hi n inode : ℕ) : Type 0 where
  pub terminal : HasTerminal s
  pub bytes : IsBytes s.mem
  pub free : (s.pcb.fdt 2).flags ≡ minus_one
  pub args : IsString s.mem s.pcb.args n
  pub some_name : (0 < n) × (n ≤ name_length)
  pub buffer : (in_program buf ≡ true) × (buf ≢ 0)
  pub args_apart : (s.pcb.args + (n + 1) ≤ buf) ⊎ (buf + buf_size ≤ s.pcb.args)
  pub not_empty : (strncmp s.mem s.pcb.args s.literals.empty_name n == 0) ≡ false
  pub not_stdin : (strncmp s.mem s.pcb.args s.literals.stdin_name n == 0) ≡ false
  pub not_stdout : (strncmp s.mem s.pcb.args s.literals.stdout_name n == 0) ≡ false
  pub empty_apart : (s.literals.empty_name + 32 ≤ buf) ⊎ (buf + buf_size ≤ s.literals.empty_name)
  pub stdin_apart : (s.literals.stdin_name + 32 ≤ buf) ⊎ (buf + buf_size ≤ s.literals.stdin_name)
  pub stdout_apart : (s.literals.stdout_name + 32 ≤ buf) ⊎ (buf + buf_size ≤ s.literals.stdout_name)
  pub image : (lo ≤ s.fs.boot_block) × (dentry_address s.fs (num_dentries s.mem s.fs) ≤ hi)
  pub buf_apart : (buf + buf_size ≤ lo) ⊎ (hi ≤ buf)
  pub frame_apart : (frame + 40 ≤ lo) ⊎ (hi ≤ frame)
  pub there :
      (k : ℕ) × (k < num_dentries s.mem s.fs) × IsNamed s.mem (dentry_address s.fs k) s.pcb.args n
  pub file :
      (k : ℕ)
      → k < num_dentries s.mem s.fs
      → IsNamed s.mem (dentry_address s.fs k) s.pcb.args n
      → (load32 s.mem (dentry_address s.fs k + 32) ≡ 2)
        × (load32 s.mem (dentry_address s.fs k + 36) ≡ inode)
  pub within : IsWithin s.mem s.fs inode lo hi
  pub header : (lo ≤ inode_address s.fs inode) × (inode_address s.fs inode + 4 ≤ hi)
  pub valid : inode < num_inodes s.mem s.fs
  pub size : file_size s.mem s.fs inode < 2 ^ 31

module _ (s : Sys) (frame buf lo hi n inode : ℕ) (c : CanCat s frame buf lo hi n inode) where
  abbrev pub named : Mem
  named = strncpy s.mem buf s.pcb.args buf_size

  abbrev pub with_name : Sys
  with_name = record s { mem = named }

  pub gets_args : getargs buf buf_size s ≡ some (0, with_name)
  unfolding getargs
  gets_args =
      let ne : s.mem s.pcb.args ≢ 0 =
        λ e. c.args.inside 0 (omega (arith, c.some_name)) (ap s.mem (omega arith) ∙ e) in
      let first : (s.mem s.pcb.args == 0) ≡ false = ground (arith, ne) in
      let some_buf : (buf == 0) ≡ false = ground (arith, c.buffer.1) in
      let fits : ltb buf_size (u32 (n + 1)) ≡ false = ground (arith, c.some_name) in
      rw (getargs, strlen_of_string s.mem s.pcb.args n c.args, fits, some_buf, first, c.buffer.0)
        refl

  name_at : IsMoved s.mem named s.pcb.args buf n
  name_at i le =
      strncpy-padded s.mem buf s.pcb.args n buf_size (buf + i) c.args c.args_apart
      ∙ ground (arith, c.some_name, c.args.ends)

  name_outside : (a : ℕ) → in_block buf buf_size a ≡ false → named a ≡ s.mem a
  name_outside a out =
      strncpy-padded s.mem buf s.pcb.args n buf_size a c.args c.args_apart ∙ rw out refl

  name-Same : Same s.mem named lo hi
  name-Same a l h = name_outside a (ground (arith, c.buf_apart))

  -- The name in the buffer is looked up in the directory.
  name-IsOrdinary : IsOrdinary with_name buf n
  name-IsOrdinary =
      let compared : (b : ℕ)
          → (b + 32 ≤ buf) ⊎ (buf + buf_size ≤ b)
          → strncmp named buf b n ≡ strncmp s.mem s.pcb.args b n =
        λ b apart.
          strncmp_moved n s.mem named s.pcb.args buf b (λ i lt. name_at i (omega arith))
            (λ i lt. name_outside (b + i) (ground (arith, apart, c.some_name))) in
      record {
        string = record {
          inside = λ i lt. rw (name_at i (omega arith)) (c.args.inside i lt);
          ends = name_at n (omega arith) ∙ c.args.ends;
          fits = c.args.fits;
        };
        short = c.some_name.1;
        there = c.buffer.1;
        not_empty = rw (compared s.literals.empty_name c.empty_apart) c.not_empty;
        not_stdin = rw (compared s.literals.stdin_name c.stdin_apart) c.not_stdin;
        not_stdout = rw (compared s.literals.stdout_name c.stdout_apart) c.not_stdout;
      }

  same_count : num_dentries named s.fs ≡ num_dentries s.mem s.fs
  same_count =
      load32-Same s.mem named lo hi s.fs.boot_block name-Same c.image.0 (omega (arith, c.image))

  entry_moved :
      (k : ℕ)
      → k < num_dentries s.mem s.fs
      → (IsNamed s.mem (dentry_address s.fs k) s.pcb.args n
          → IsNamed named (dentry_address s.fs k) buf n)
        × (IsNamed named (dentry_address s.fs k) buf n
            → IsNamed s.mem (dentry_address s.fs k) s.pcb.args n)
  entry_moved k lt =
      IsNamed-moved s.mem named (dentry_address s.fs k) s.pcb.args buf n c.some_name.1
        (λ i below.
          name-Same (dentry_address s.fs k + i) (omega (arith, c.image))
            (omega (arith, lt, c.image)))
        name_at

  -- The state when the file is open.
  pub record IsOpened (m : Mem) : Type 0 where
    pub opens :
        open_call frame buf with_name
        ≡ some (2, install (record s { mem = m }) 2 (new_desc file_table inode))
    pub bytes : IsBytes m
    pub same : Same s.mem m lo hi

  pub opened : (m : Mem) × IsOpened m
  opened =
      let (k, below, named_there) = c.there in
      let (j, m, f) =
        open_call-IsFound frame buf n k with_name
          (strncpy-IsBytes buf_size s.mem buf s.pcb.args c.bytes)
          (omega (arith, same_count, c.image, c.frame_apart)) name-IsOrdinary (rw same_count below)
          ((entry_moved k below).0 named_there) in
      let j_below : j < num_dentries s.mem s.fs = omega (arith, f.below, same_count) in
      let (type, number) = c.file j j_below ((entry_moved j j_below).1 f.named) in
      let e = dentry_address s.fs j in
      let type_same : load32 named (e + 32) ≡ load32 s.mem (e + 32) =
        load32-Same s.mem named lo hi (e + 32) name-Same (omega (arith, c.image))
          (omega (arith, c.image, j_below)) in
      let number_same : load32 named (e + 36) ≡ load32 s.mem (e + 36) =
        load32-Same s.mem named lo hi (e + 36) name-Same (omega (arith, c.image))
          (omega (arith, c.image, j_below)) in
      (
        m,
        record {
          opens =
              f.opens
              ∙ ap some (
                  open_free-file frame 2 inode (record s { mem = m }) (omega arith) (omega arith)
                    (λ i l lt. absurd (omega arith)) c.free (f.copy.type_copied ∙ type_same ∙ type)
                    (f.copy.inode_copied ∙ number_same ∙ number));
          bytes = f.bytes;
          same = λ a l h. f.copy.outside a (ground (arith, c.frame_apart)) ∙ name-Same a l h;
        },
      )
