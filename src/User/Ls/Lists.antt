-- ===== src/User/Ls/Lists.antt =====
-- What syscalls/ece391ls.c prints.
use ece391os.Prelude.{
  ℕ, zero, suc, ◌+◌, ◌<◌, ◌≡◌, inl, inr, refl, ap, ◌∙◌, arith, false, some, minus_one,
}
use ece391os.Memory.{Mem, in_block, load32}
use ece391os.Text.Compare.{IsBytes}
use ece391os.FileSystem.{num_dentries, dentry_address}
use ece391os.Descriptor.{dir_table}
use ece391os.Process.{Sys}
use ece391os.FileSystem.Lookup.{IsNamed}
use ece391os.Syscalls.{new_desc, install}
use ece391os.Syscalls.Open.{IsOrdinary, open_call-IsFound, open_free-directory}
use ece391os.User.Program.{done, ece391_open}
use ece391os.User.Program.Calls.{read_done, open_done}
use ece391os.User.Library.Prints.{HasTerminal}
use ece391os.User.Ls.{Layout, ls_loop, ls}
use ece391os.User.Ls.Round.{
  HasDirectory, listing, IsListing, read-dir, read-Listed, written, written-IsListing,
  written_console, round,
}

ls_loop-listing :
    (p : Layout) (m : Mem) (len : ℕ → ℕ) (fd n i rounds : ℕ) (s : Sys)
    → HasDirectory p s.fs m len
    → IsListing m fd i s
    → i + n ≡ num_dentries m s.fs
    → n < rounds
    → (s' : Sys) × (ls_loop rounds p fd s ≡ done 0 s')
      × (s'.machine.console ≡ listing m s.fs len i n s.machine.console)
unfolding listing ls_loop
ls_loop-listing p m len fd n i zero s d l e enough = absurd (omega arith)
ls_loop-listing p m len fd zero i (suc rounds) s d l e enough =
    elim (read-Listed p m len fd i s d l (omega arith)) [
      | inl (lt, x) ↦ absurd (omega (arith, lt, e))
      | inr (past, ends) ↦ (
        s,
        rw
            (
              ls_loop,
              read_done p.frame fd p.buf 32 0 s s
                  (read-dir s m p.frame fd p.buf 32 i l ∙ rw ends refl),
            )
            refl,
        refl,
      )
    ]
ls_loop-listing p m len fd (suc n) i (suc rounds) s d l e enough =
    elim (read-Listed p m len fd i s d l (omega arith)) [
      | inl (lt, x) ↦
          let (s', run, shows) =
            ls_loop-listing p m len fd n (i + 1) rounds (written p fd s) d
              (written-IsListing p m len fd i s d l lt x) (omega arith) (omega arith) in
          (
            s',
            round p m len fd i s d l lt x rounds ∙ run,
            shows ∙ ap (listing m s.fs len (i + 1) n) (written_console p m len fd i s d l lt x),
          )
      | inr (past, ends) ↦ absurd (omega (arith, past, e))
    ]

-- A process that can list the directory: its name is "." in the directory itself, with the type of
-- a directory; descriptor 1 is the terminal, and descriptor 2 is free.
pub record CanList (p : Layout) (len : ℕ → ℕ) (s : Sys) : Type 0 where
  pub directory : HasDirectory p s.fs s.mem len
  pub bytes : IsBytes s.mem
  pub dot : IsOrdinary s p.dot 1
  pub there :
      (k : ℕ) × (k < num_dentries s.mem s.fs) × IsNamed s.mem (dentry_address s.fs k) p.dot 1
  pub type :
      (k : ℕ)
      → k < num_dentries s.mem s.fs
      → IsNamed s.mem (dentry_address s.fs k) p.dot 1
      → load32 s.mem (dentry_address s.fs k + 32) ≡ 1
  pub terminal : HasTerminal s
  pub free : (s.pcb.fdt 2).flags ≡ minus_one

opened-IsListing :
    (p : Layout) (len : ℕ → ℕ) (s : Sys) (m : Mem)
    → CanList p len s
    → IsBytes m
    → ((a : ℕ) → in_block p.frame 40 a ≡ false → m a ≡ s.mem a)
    → IsListing s.mem 2 0 (install (record s { mem = m }) 2 (new_desc dir_table 0))
opened-IsListing p len s m c b kept = record {
  bytes = b;
  same = λ a lo hi. kept a (ground (arith, c.directory.outside));
  terminal = record {
    table = ground (arith, c.terminal.table);
    used = ground (arith, c.terminal.used);
  };
  number = (omega arith, omega arith);
  table = refl;
  used = refl;
  position = refl;
}

-- For a process with the terminal at descriptor 1 and descriptor 2 free, and a directory that
-- has the entry ".", which every entry of that name gives the type of a directory, `ls` ends
-- with the result 0 when it is given one round more than the directory has entries. It has then
-- printed, for each entry in order and each once, the 32 bytes of its name field (the name,
-- filled up by NUL bytes) and a line feed, and nothing else. The buffer and the kernel's local
-- `dentry_t` overlap neither each other nor the directory.
pub ls-listing :
    (p : Layout) (len : ℕ → ℕ) (rounds : ℕ) (s : Sys)
    → CanList p len s
    → num_dentries s.mem s.fs < rounds
    → (s' : Sys) × (ls rounds p s ≡ done 0 s')
      × (s'.machine.console ≡ listing s.mem s.fs len 0 (num_dentries s.mem s.fs) s.machine.console)
unfolding ls
ls-listing p len rounds s c enough =
    let (k, below, named) = c.there in
    let (j, m, f) =
      open_call-IsFound p.frame p.dot 1 k s c.bytes c.directory.outside c.dot below named in
    let s1 = record s { mem = m } in
    let s2 = install s1 2 (new_desc dir_table 0) in
    let is_dir : load32 m (p.frame + 32) ≡ 1 = f.copy.type_copied ∙ c.type j f.below f.named in
    let opens : ece391_open p.frame p.dot s ≡ done 2 s2 = open_done p.frame p.dot 2 s s2 (
      f.opens
      ∙ ap some (
          open_free-directory p.frame 2 s1 (omega arith) (omega arith)
            (λ i l lt. absurd (omega arith)) c.free is_dir)) in
    let (s', run, shows) =
      ls_loop-listing p s.mem len 2 (num_dentries s.mem s.fs) 0 rounds s2 c.directory
        (opened-IsListing p len s m c f.bytes f.copy.outside) (omega arith) enough in
    (s', rw (ls, opens) run, shows)
