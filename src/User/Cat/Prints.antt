-- ===== src/User/Cat/Prints.antt =====
-- What syscalls/ece391cat.c prints.
use ece391os.Prelude.{
  ℕ, zero, suc, ◌+◌, ◌-◌, ◌^◌, ◌≤◌, ◌<◌, ◌≡◌, ◌≢◌, ◌⊎◌, inl, inr, refl, sym, ap, ◌∙◌, arith, false,
  some, ◌==◌, Bool-cases, minus_one, signed_lt,
}
use Prim.Native.Nat.{min}
use mathlib.Core.Path.{subst}
use ece391os.Memory.{Mem, in_block}
use ece391os.Text.Compare.{IsBytes}
use ece391os.FileSystem.{inode_address}
use ece391os.FileSystem.Blocks.{file_size, file_byte, IsWithin, Same}
use ece391os.FileSystem.ReadData.{loaded}
use ece391os.FileSystem.Keeps.{SameFile-Same}
use ece391os.Descriptor.{Fdt, file_table, stdout_table, max_fd_num}
use ece391os.Files.{file_read}
use ece391os.Files.Cursor.{IsOpen, file_read-loaded, file_read-kept}
use ece391os.Console.{putc_from}
use ece391os.Console.Sequence.{putc_from_split, putc_from_same, putc_from_none}
use ece391os.Process.{Sys, with_fdt, with_console}
use ece391os.Syscalls.{finished, read, write, jump_read}
use ece391os.User.Library.Prints.{write-printed}
use ece391os.User.Cat.{Messages, cat_loop, buf_size}

-- The program has opened a file at `fd`, apart from its buffer, and writes to its terminal.
pub record CanPrint (s : Sys) (fd buf lo hi : ℕ) : Type 0 where
  pub file : IsOpen s.mem s.fs s.pcb.fdt fd lo hi
  pub header :
      (lo ≤ inode_address s.fs (s.pcb.fdt fd).inode)
      × (inode_address s.fs (s.pcb.fdt fd).inode + 4 ≤ hi)
  pub size : file_size s.mem s.fs (s.pcb.fdt fd).inode < 2 ^ 31
  pub number : (2 ≤ fd) × (fd ≤ max_fd_num)
  pub table : (s.pcb.fdt fd).jump_ptr ≡ file_table
  pub used : (s.pcb.fdt fd).flags ≡ 1
  pub terminal : (s.pcb.fdt 1).jump_ptr ≡ stdout_table
  pub terminal_used : (s.pcb.fdt 1).flags ≡ 1
  pub apart : (buf + buf_size ≤ lo) ⊎ (hi ≤ buf)
  pub buffer : buf ≢ 0

abbrev after : Sys → Fdt → Mem → Sys
after s t m = let s1 = with_fdt s t in record s1 { mem = m }

read-finished :
    (s : Sys) (frame fd buf lo hi n : ℕ) (t : Fdt) (m : Mem)
    → CanPrint s fd buf lo hi
    → file_read s.fs s.pcb.fdt s.mem fd buf buf_size ≡ some (n, t, m)
    → read frame fd buf buf_size s ≡ finished n (after s t m)
unfolding read jump_read
read-finished s frame fd buf lo hi n t m p run =
    let low : signed_lt fd 0 ≡ false = ground (arith, p.number) in
    let high : signed_lt max_fd_num fd ≡ false = ground (arith, p.number) in
    let open_fd : ((s.pcb.fdt fd).flags == minus_one) ≡ false = ground (arith, p.used) in
    rw (low, high, open_fd, p.table, jump_read, run) refl

-- The state after one round, the bytes of which are those of the file from the position on.
record Round (s : Sys) (frame fd buf lo hi n : ℕ) : Type 0 where
  read_state : Sys
  write_state : Sys
  reads : read frame fd buf buf_size s ≡ finished n read_state
  silent : read_state.machine.console ≡ s.machine.console
  writes : write 1 buf n read_state ≡ (n, write_state)
  goes_on : CanPrint write_state fd buf lo hi
  printed :
      write_state.machine.console
      ≡ putc_from n
          (file_byte s.mem s.fs (s.pcb.fdt fd).inode)
          (s.pcb.fdt fd).file_position
          s.machine.console
  position : (write_state.pcb.fdt fd).file_position ≡ (s.pcb.fdt fd).file_position + n
  size :
      file_size write_state.mem write_state.fs (write_state.pcb.fdt fd).inode
      ≡ file_size s.mem s.fs (s.pcb.fdt fd).inode
  bytes :
      (k : ℕ)
      → k < file_size s.mem s.fs (s.pcb.fdt fd).inode
      → file_byte write_state.mem write_state.fs (write_state.pcb.fdt fd).inode k
        ≡ file_byte s.mem s.fs (s.pcb.fdt fd).inode k

bytes_after :
    (s : Sys) (m : Mem) (inode buf from n a : ℕ)
    → IsBytes s.mem
    → m a ≡ loaded s.mem s.mem s.fs inode buf from n a
    → m a < 256
unfolding file_byte
bytes_after s m inode buf from n a b e = elim (Bool-cases (in_block buf n a)) [
  | inl inside ↦ rw (e, inside) (b _)
  | inr outside ↦ rw (e, outside) (b a)
]

round :
    (s : Sys) (frame fd buf lo hi : ℕ)
    → CanPrint s fd buf lo hi
    → Round s frame fd buf lo hi
        (min buf_size (file_size s.mem s.fs (s.pcb.fdt fd).inode - (s.pcb.fdt fd).file_position))
round s frame fd buf lo hi p =
    let (t, m, run, moved, inode, others, at) =
      file_read-loaded s.fs s.pcb.fdt s.mem fd buf buf_size lo hi p.file (omega arith)
        (omega (arith, p.size, p.file.inside)) p.apart in
    let s1 = after s t m in
    let (jumps, flags) = file_read-kept s.fs s.pcb.fdt t s.mem m fd buf buf_size _ run in
    let one : 1 ≢ fd = λ e. omega (arith, e, p.number) in
    let terminal : t 1 ≡ s.pcb.fdt 1 = others 1 one in
    let same : Same s.mem m lo hi = λ a l h. at a ∙ ground (arith, p.apart) in
    let f =
      SameFile-Same s.mem m s.fs (s.pcb.fdt fd).inode lo hi p.file.within same p.header.0
        p.header.1 in
    record {
      read_state = s1;
      write_state = with_console s1 (putc_from _ m buf s.machine.console);
      reads = read-finished s frame fd buf lo hi _ t m p run;
      silent = refl;
      writes =
          write-printed s1 buf _
            (record {
              table = ap (λ d. d.jump_ptr) terminal ∙ p.terminal;
              used = ap (λ d. d.flags) terminal ∙ p.terminal_used;
            })
            p.buffer (omega arith);
      goes_on = record {
        file = record {
          within = subst (λ k. IsWithin m s.fs k lo hi) (sym inode) f.within;
          valid = rw (inode, f.inodes) p.file.valid;
          inside = rw (inode, f.size, moved) (omega (arith, p.file.inside));
          bytes = λ a.
              bytes_after s m (s.pcb.fdt fd).inode buf (s.pcb.fdt fd).file_position _ a p.file.bytes
                (at a);
        };
        header = rw inode p.header;
        size = rw (inode, f.size) p.size;
        number = p.number;
        table = jumps ∙ p.table;
        used = flags ∙ p.used;
        terminal = ap (λ d. d.jump_ptr) terminal ∙ p.terminal;
        terminal_used = ap (λ d. d.flags) terminal ∙ p.terminal_used;
        apart = p.apart;
        buffer = p.buffer;
      };
      printed =
          putc_from_same _ m (file_byte s.mem s.fs (s.pcb.fdt fd).inode) buf
            (s.pcb.fdt fd).file_position s.machine.console (λ i lt. at (buf + i) ∙ ground arith);
      position = moved;
      size = ap (file_size m s.fs) inode ∙ f.size;
      bytes = λ k lt. ap (λ j. file_byte m s.fs j k) inode ∙ f.bytes k lt;
    }

-- The bytes from the position to the end.
abbrev pub left_of : Sys → ℕ → ℕ
left_of s fd = file_size s.mem s.fs (s.pcb.fdt fd).inode - (s.pcb.fdt fd).file_position

-- For a program that has opened a file at a descriptor from 2 to 7, at any position in it, whose
-- descriptor 1 is the terminal and whose buffer is apart from the file, the loop of `cat` ends
-- with the result 0 when it is given a round for each byte that is left, and one more; it has
-- then printed the bytes of the file from the position to the end, in order and each once, and
-- nothing else. The file lies in memory and is shorter than 2 GB.
pub cat_loop-prints :
    (fuel : ℕ) (t : Messages) (frame fd buf lo hi : ℕ) (s : Sys)
    → CanPrint s fd buf lo hi
    → file_size s.mem s.fs (s.pcb.fdt fd).inode < (s.pcb.fdt fd).file_position + fuel
    → let inode = (s.pcb.fdt fd).inode in
      let position = (s.pcb.fdt fd).file_position in
      (s' : Sys) × (cat_loop fuel t frame fd buf s ≡ some (0, s'))
      × (s'.machine.console
          ≡ putc_from (left_of s fd) (file_byte s.mem s.fs inode) position s.machine.console)
unfolding cat_loop
cat_loop-prints zero t frame fd buf lo hi s p enough = absurd (omega (arith, p.file.inside))
cat_loop-prints (suc fuel) t frame fd buf lo hi s p enough =
    let r = round s frame fd buf lo hi p in
    elim (Bool-cases (n == 0)) [
      | inl done ↦
          let none_left : left ≡ 0 = ground (arith, done) in
          (
            r.read_state,
            rw (cat_loop, r.reads, done) refl,
            r.silent ∙ rw none_left (sym (putc_from_none view position s.machine.console)),
          )
      | inr more ↦
          let some_read : 0 < n = ground (arith, more) in
          let (s', run, shown) =
            cat_loop-prints fuel t frame fd buf lo hi r.write_state r.goes_on
              (omega (arith, r.size, r.position, enough, some_read, p.file.inside)) in
          let good : (n == minus_one) ≡ false = ground arith in
          let same_left : left_of r.write_state fd ≡ left - n = omega (arith, r.size, r.position) in
          (
            s',
            rw (cat_loop, r.reads, r.writes, more, good) run,
            shown
                ∙ putc_from_same (left_of r.write_state fd) _ view _ (position + n)
                    r.write_state.machine.console
                    (λ k lt.
                      ap
                        (file_byte r.write_state.mem r.write_state.fs
                          (r.write_state.pcb.fdt fd).inode)
                        (omega (arith, r.position))
                      ∙ r.bytes (position + n + k) (omega (arith, same_left, lt)))
                ∙ ap (λ c. putc_from (left_of r.write_state fd) view (position + n) c) r.printed
                ∙ sym (putc_from_split n (left_of r.write_state fd) view position s.machine.console)
                ∙ ap (λ k. putc_from k view position s.machine.console) (omega (arith, same_left)),
          )
    ]
  where
    view : Mem
    view = file_byte s.mem s.fs (s.pcb.fdt fd).inode

    position : ℕ
    position = (s.pcb.fdt fd).file_position

    left : ℕ
    left = left_of s fd

    n : ℕ
    n = min buf_size left
