-- ===== src/User/Ls/Round.antt =====
-- One round of the loop of syscalls/ece391ls.c: the line of one entry.
use ece391os.Prelude.{
  ℕ, zero, suc, ◌+◌, ◌≤◌, ◌<◌, ◌≡◌, ◌≢◌, ◌⊎◌, inl, inr, refl, sym, ap, ◌∙◌, arith, true, false,
  if◌then◌else◌, ltb, leb, ◌==◌, Bool-cases, ltb→lt, minus_one, signed_lt,
}
use mathlib.Core.Path.{subst}
use native.Mathlib.Decide.{ℕ_discrete}
use ece391os.Memory.{Mem, store}
use ece391os.Memory.Words.{load32_ext}
use ece391os.Text.Compare.{IsBytes}
use ece391os.Text.Bytes.{store-IsBytes, strncpy-IsBytes}
use ece391os.FileSystem.{
  FileSystem, num_dentries, dentry_address, name_length, read_dentry_by_index,
}
use ece391os.FileSystem.Keeps.{copy_dentry-IsBytes}
use ece391os.FileSystem.Entry.{OutsideDirectory}
use ece391os.Descriptor.{Fdt, dir_table, max_fd_num}
use ece391os.Files.{dir_read}
use ece391os.Files.Listing.{HasName, Listed, dir_read-Listed}
use ece391os.Console.{Console, putc_from}
use ece391os.Console.Sequence.{putc_from_same}
use ece391os.Process.{Sys, with_fdt, with_console}
use ece391os.Syscalls.{finished, read, jump_read}
use ece391os.User.Program.Calls.{read_done, write_done}
use ece391os.User.Library.Prints.{HasTerminal, write-printed}
use ece391os.User.Ls.{Layout, ls_loop}

dir_read-IsBytes :
    (fs : FileSystem) (fdt : Fdt) (m : Mem) (frame fd buf nbytes : ℕ)
    → IsBytes m
    → IsBytes (dir_read fs fdt m frame fd buf nbytes).2
unfolding dir_read read_dentry_by_index
dir_read-IsBytes fs fdt m frame fd buf nbytes b =
    let i = (fdt fd).file_position in
    elim (Bool-cases (i == minus_one)) [
      | inl shut ↦ rw shut b
      | inr usable ↦ elim (Bool-cases (leb (num_dentries m fs) i)) [
        | inl past ↦ rw (usable, past) b
        | inr below ↦
            rw (usable, below)
              (strncpy-IsBytes name_length _ buf frame
                (copy_dentry-IsBytes m frame (dentry_address fs i) b))
      ]
    ]

dir_read-kept :
    (fs : FileSystem) (fdt : Fdt) (m : Mem) (frame fd buf nbytes : ℕ)
    → let t = (dir_read fs fdt m frame fd buf nbytes).1 in
      ((t fd).jump_ptr ≡ (fdt fd).jump_ptr) × ((t fd).flags ≡ (fdt fd).flags)
unfolding dir_read
dir_read-kept fs fdt m frame fd buf nbytes = (ground arith, ground arith)

-- The directory, and where the program keeps its bytes, apart from it.
pub record HasDirectory (p : Layout) (fs : FileSystem) (m : Mem) (len : ℕ → ℕ) : Type 0 where
  pub names : (i : ℕ) → i < num_dentries m fs → HasName m (dentry_address fs i) (len i)
  pub outside : OutsideDirectory m fs p.frame
  pub buf_outside : (p.buf + 40 ≤ fs.boot_block) ⊎ (dentry_address fs (num_dentries m fs) ≤ p.buf)
  pub apart : (p.frame + 40 ≤ p.buf) ⊎ (p.buf + 40 ≤ p.frame)
  pub there : p.buf ≢ 0
  pub count : num_dentries m fs < minus_one

-- The 33 bytes that are printed for entry `i`: its name, NUL bytes and a line feed.
unfoldable pub entry_line : Mem → FileSystem → (ℕ → ℕ) → ℕ → Mem
entry_line m fs len i k =
    if ltb k (len i) then m (dentry_address fs i + k) else if ltb k 32 then 0 else 10

-- The console after `n` entries from `i` on are printed.
unfoldable pub listing : Mem → FileSystem → (ℕ → ℕ) → ℕ → ℕ → Console → Console
listing m fs len i zero c = c
listing m fs len i (suc n) c = listing m fs len (i + 1) n (putc_from 33 (entry_line m fs len i) 0 c)

-- Memory is the same in the directory.
abbrev pub SameDirectory : FileSystem → Mem → Mem → Type 0
SameDirectory fs m m' =
    (a : ℕ) → fs.boot_block ≤ a → a < dentry_address fs (num_dentries m fs) → m' a ≡ m a

-- The program has the directory open at entry `i`.
pub record IsListing (m : Mem) (fd i : ℕ) (s : Sys) : Type 0 where
  pub bytes : IsBytes s.mem
  pub same : SameDirectory s.fs m s.mem
  pub terminal : HasTerminal s
  pub number : (2 ≤ fd) × (fd ≤ max_fd_num)
  pub table : (s.pcb.fdt fd).jump_ptr ≡ dir_table
  pub used : (s.pcb.fdt fd).flags ≡ 1
  pub position : (s.pcb.fdt fd).file_position ≡ i

abbrev pub after_dir_read : Sys → ℕ → ℕ → ℕ → ℕ → Sys
after_dir_read s frame fd buf nbytes =
    let (ret, t, m) = dir_read s.fs s.pcb.fdt s.mem frame fd buf nbytes in
    let s1 = with_fdt s t in record s1 { mem = m }

pub read-dir :
    (s : Sys) (m : Mem) (frame fd buf nbytes i : ℕ)
    → IsListing m fd i s
    → read frame fd buf nbytes s
      ≡ finished
          (dir_read s.fs s.pcb.fdt s.mem frame fd buf nbytes).0
          (after_dir_read s frame fd buf nbytes)
unfolding read jump_read
read-dir s m frame fd buf nbytes i l =
    let low : signed_lt fd 0 ≡ false = ground (arith, l.number) in
    let high : signed_lt max_fd_num fd ≡ false = ground (arith, l.number) in
    let open_fd : ((s.pcb.fdt fd).flags == minus_one) ≡ false = ground (arith, l.used) in
    rw (low, high, open_fd, l.table, jump_read) refl

module _ (p : Layout) (m : Mem) (len : ℕ → ℕ) (fd i : ℕ) (s : Sys) (d : HasDirectory p s.fs m len)
    (l : IsListing m fd i s) where
  same_count : num_dentries s.mem s.fs ≡ num_dentries m s.fs
  same_count =
      let b = s.fs.boot_block in
      load32_ext m s.mem b (l.same b (omega arith) (omega arith))
        (l.same (b + 1) (omega arith) (omega arith)) (l.same (b + 2) (omega arith) (omega arith))
        (l.same (b + 3) (omega arith) (omega arith))

  same_name : i < num_dentries m s.fs → HasName s.mem (dentry_address s.fs i) (len i)
  same_name lt =
      let n = d.names i lt in
      let e = dentry_address s.fs i in
      record {
        short = n.short;
        inside = λ k below.
            rw (l.same (e + k) (omega arith) (omega (arith, lt, n.short, below)))
              (n.inside k below);
        ends = λ below. l.same (e + len i) (omega arith) (omega (arith, lt, below)) ∙ n.ends below;
      }

  -- The read of an entry, or of the end.
  pub read-Listed :
      i ≤ num_dentries m s.fs
      → ((i < num_dentries m s.fs)
          × Listed s.mem s.pcb.fdt fd p.buf p.frame
              (dentry_address s.fs i)
              i
              (len i)
              (dir_read s.fs s.pcb.fdt s.mem p.frame fd p.buf 32))
        ⊎ ((num_dentries m s.fs ≤ i)
            × (dir_read s.fs s.pcb.fdt s.mem p.frame fd p.buf 32 ≡ (0, s.pcb.fdt, s.mem)))
  read-Listed le =
      elim (dir_read-Listed s.fs s.pcb.fdt s.mem p.frame fd p.buf 32 (len i) l.bytes
        (rw same_count d.outside) d.apart (λ e. omega (arith, sym l.position ∙ e, le, d.count))
        (λ lt.
          subst (λ k. HasName s.mem (dentry_address s.fs k) (len i)) (sym l.position)
            (same_name (omega (arith, lt, l.position, same_count))))) [
              | inl (lt, x) ↦ inl (
                omega (arith, lt, l.position, same_count),
                subst
                    (λ k.
                      Listed s.mem s.pcb.fdt fd p.buf p.frame (dentry_address s.fs k) k (len i)
                        (dir_read s.fs s.pcb.fdt s.mem p.frame fd p.buf 32))
                    l.position x,
              )
              | inr (past, e) ↦ inr (omega (arith, past, l.position, same_count), e)
            ]

-- The state after the line of an entry is written.
abbrev pub written : Layout → ℕ → Sys → Sys
written p fd s =
    let s1 = after_dir_read s p.frame fd p.buf 32 in
    let s2 = record s1 { mem = store s1.mem (p.buf + 32) 10 } in
    with_console s2 (putc_from 33 s2.mem p.buf s.machine.console)

module _ (p : Layout) (m : Mem) (len : ℕ → ℕ) (fd i : ℕ) (s : Sys) (d : HasDirectory p s.fs m len)
    (l : IsListing m fd i s) (lt : i < num_dentries m s.fs)
    (x : Listed s.mem s.pcb.fdt fd p.buf p.frame
      (dentry_address s.fs i)
      i
      (len i)
      (dir_read s.fs s.pcb.fdt s.mem p.frame fd p.buf 32)) where
  line_written :
      (k : ℕ) → k < 33 → (written p fd s).mem (p.buf + k) ≡ entry_line m s.fs len i (0 + k)
  unfolding entry_line
  line_written k below = elim (ℕ_discrete k 32) [
    | yes e ↦ rw e (ground (arith, d.names i lt))
    | no ne ↦
        let name = x.name k (omega arith) in
        let same : ltb k (len i) ≡ true
            → s.mem (dentry_address s.fs i + k) ≡ m (dentry_address s.fs i + k) =
          λ h.
            l.same (dentry_address s.fs i + k) (omega arith)
              (omega (arith, lt, ltb→lt _ _ h, (d.names i lt).short)) in
        elim (Bool-cases (ltb k (len i))) [
          | inl inside ↦ ground (arith, name, same inside, inside)
          | inr past ↦ ground (arith, name, past)
        ]
  ]

  terminal_kept : HasTerminal (written p fd s)
  terminal_kept =
      let e = x.others 1 (λ e. omega (arith, e, l.number)) in
      record {
        table = ap (λ f. f.jump_ptr) e ∙ l.terminal.table;
        used = ap (λ f. f.flags) e ∙ l.terminal.used;
      }

  pub written-IsListing : IsListing m fd (i + 1) (written p fd s)
  written-IsListing =
      let (jumps, flags) = dir_read-kept s.fs s.pcb.fdt s.mem p.frame fd p.buf 32 in
      record {
        bytes =
            store-IsBytes _ (p.buf + 32) 10
              (dir_read-IsBytes s.fs s.pcb.fdt s.mem p.frame fd p.buf 32 l.bytes) (omega arith);
        same = λ a lo hi.
            let out = x.outside a (ground (arith, d.buf_outside)) (ground (arith, d.outside)) in
            let kept : (written p fd s).mem a ≡ s.mem a = ground (arith, out, d.buf_outside) in
            kept ∙ l.same a lo hi;
        terminal = terminal_kept;
        number = l.number;
        table = jumps ∙ l.table;
        used = flags ∙ l.used;
        position = x.moved;
      }

  pub written_console :
      (written p fd s).machine.console ≡ putc_from 33 (entry_line m s.fs len i) 0 s.machine.console
  written_console = putc_from_same 33 _ (entry_line m s.fs len i) p.buf 0 _ line_written

  pub round : (rounds : ℕ) → ls_loop (suc rounds) p fd s ≡ ls_loop rounds p fd (written p fd s)
  unfolding ls_loop
  round rounds =
      let s1 = after_dir_read s p.frame fd p.buf 32 in
      let s2 = record s1 { mem = store s1.mem (p.buf + 32) 10 } in
      rw
        (
          ls_loop,
          read_done p.frame fd p.buf 32 _ s s1 (read-dir s m p.frame fd p.buf 32 i l),
          x.count,
          write_done 1 p.buf 33 33 s2 (written p fd s) (
              write-printed s2 p.buf 33
                (record { table = terminal_kept.table; used = terminal_kept.used }) d.there
                (omega arith)),
        )
        refl
