-- ===== src/User/Cat/Whole.antt =====
-- The whole of syscalls/ece391cat.c prints the file that its argument names.
use ece391os.Prelude.{ℕ, ◌+◌, ◌<◌, ◌≡◌, refl, ap, ◌∙◌, arith, some}
use ece391os.Memory.{Mem}
use ece391os.FileSystem.Blocks.{file_size, file_byte}
use ece391os.FileSystem.Keeps.{SameFile-Same}
use ece391os.Descriptor.{file_table}
use ece391os.Console.{putc_from}
use ece391os.Console.Sequence.{putc_from_same}
use ece391os.Process.{Sys}
use ece391os.Syscalls.{new_desc, install}
use ece391os.User.Cat.{Messages, cat, cat_loop}
use ece391os.User.Cat.Prints.{CanPrint, cat_loop-prints, left_of}
use ece391os.User.Cat.Named.{CanCat, gets_args, IsOpened, opened}

opened-CanPrint :
    (s : Sys) (frame buf lo hi n inode : ℕ) (c : CanCat s frame buf lo hi n inode) (m : Mem)
    → IsOpened s frame buf lo hi n inode c m
    → CanPrint (install (record s { mem = m }) 2 (new_desc file_table inode)) 2 buf lo hi
opened-CanPrint s frame buf lo hi n inode c m o =
    let f = SameFile-Same s.mem m s.fs inode lo hi c.within o.same c.header.0 c.header.1 in
    record {
      file = record {
        within = f.within;
        valid = rw f.inodes c.valid;
        inside = omega arith;
        bytes = o.bytes;
      };
      header = c.header;
      size = rw f.size c.size;
      number = (omega arith, omega arith);
      table = refl;
      used = refl;
      terminal = c.terminal.table;
      terminal_used = c.terminal.used;
      apart = c.buf_apart;
      buffer = c.buffer.1;
    }

-- For a process with the terminal at descriptor 1 and descriptor 2 free, whose argument is the
-- name of a file, `cat` opens the file and ends with the result 0 when it is given one round
-- more than the file has bytes; it has then printed the bytes of the file from the first to the
-- last, in order and each once, and nothing else. The name has 1 to 32 bytes, is no name of the
-- terminal, and every directory entry of that name is that of the file, which is shorter than 2
-- GB. The buffer lies in the program, apart from the arguments and the terminal's names, and the
-- buffer and the kernel's local `dentry_t` lie apart from the directory and the file.
pub cat-prints :
    (fuel : ℕ) (t : Messages) (s : Sys) (frame buf lo hi n inode : ℕ)
    → CanCat s frame buf lo hi n inode
    → file_size s.mem s.fs inode < fuel
    → (s' : Sys) × (cat fuel t frame buf s ≡ some (0, s'))
      × (s'.machine.console
          ≡ putc_from (file_size s.mem s.fs inode) (file_byte s.mem s.fs inode) 0 s.machine.console)
unfolding cat
cat-prints fuel t s frame buf lo hi n inode c enough =
    let (m, o) = opened s frame buf lo hi n inode c in
    let f = SameFile-Same s.mem m s.fs inode lo hi c.within o.same c.header.0 c.header.1 in
    let s2 = install (record s { mem = m }) 2 (new_desc file_table inode) in
    let (s', run, shows) =
      cat_loop-prints fuel t frame 2 buf lo hi s2 (opened-CanPrint s frame buf lo hi n inode c m o)
        (omega (arith, f.size, enough)) in
    let starts : cat fuel t frame buf s ≡ cat_loop fuel t frame 2 buf s2 =
      rw (cat, gets_args s frame buf lo hi n inode c, o.opens) refl in
    let whole : left_of s2 2 ≡ file_size s.mem s.fs inode = omega (arith, f.size) in
    (
      s',
      starts ∙ run,
      shows
          ∙ ap (λ k. putc_from k (file_byte m s.fs inode) 0 s.machine.console) whole
          ∙ putc_from_same _ (file_byte m s.fs inode) (file_byte s.mem s.fs inode) 0 0
              s.machine.console (λ i lt. f.bytes (0 + i) (omega (arith, lt))),
    )
