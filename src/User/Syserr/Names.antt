-- ===== src/User/Syserr/Names.antt =====
-- `open` on the names that syscalls/ece391syserr.c uses.
use ece391os.Prelude.{ℕ, suc, ◌+◌, ◌≤◌, ◌≡◌, ◌≢◌, refl, ◌∙◌, arith, false, some, ◌==◌}
use ece391os.Memory.{Mem, load32}
use ece391os.Text.{strncmp}
use ece391os.Text.Compare.{IsBytes}
use ece391os.Process.{Sys}
use ece391os.Syscalls.{open_free, open_call}
use ece391os.Syscalls.Open.{strncmp_differs, IsOrdinary, open_call-IsFound}
use ece391os.User.Program.{done, ece391_open}
use ece391os.User.Syserr.{Message, Name, dot, helloo, shel, empty, Layout}
use ece391os.User.Syserr.Ready.{HasOpen, HasOpen-Kept, Kept, size}

differs_first :
    (m : Mem) (s1 s2 n : ℕ) → IsBytes m → m s1 ≢ m s2 → (strncmp m s1 s2 (suc n) == 0) ≡ false
differs_first m s1 s2 n b ne =
    strncmp_differs m s1 s2 (suc n) 0 b (omega arith) (λ j lt. absurd (omega arith))
      (λ e. ne (ground (arith, e)))

differs_second :
    (m : Mem) (s1 s2 n : ℕ)
    → IsBytes m
    → m s1 ≢ 0
    → m (s1 + 1) ≢ m (s2 + 1)
    → (strncmp m s1 s2 (suc (suc n)) == 0) ≡ false
differs_second m s1 s2 n b some_byte ne =
    strncmp_differs m s1 s2 (suc (suc n)) 1 b (omega arith) (λ j lt. ground arith) ne

module _ (p : Layout) (len : Message → ℕ) (lo hi : ℕ) (s : Sys) (h : HasOpen p len lo hi s) where
  ordinary :
      (x : Name) (n : ℕ)
      → size x ≡ suc n
      → s.mem (p.name x) ≢ 0
      → s.mem (p.name x) ≢ 0x73
      → IsOrdinary s (p.name x) (size x)
  ordinary x n e some_byte other = record {
    string = h.strings.name x;
    short = short x;
    there = h.strings.name_there x;
    not_empty = rw e (
        differs_first s.mem (p.name x) s.literals.empty_name n h.bytes
          (λ same. some_byte (same ∙ h.strings.empty_spelled.0)));
    not_stdin = rw e (
        differs_first s.mem (p.name x) s.literals.stdin_name n h.bytes
          (λ same. other (same ∙ h.strings.stdin_spelled.0)));
    not_stdout = rw e (
        differs_first s.mem (p.name x) s.literals.stdout_name n h.bytes
          (λ same. other (same ∙ h.strings.stdout_spelled.0)));
  }
    where
      short : (x : Name) → size x ≤ 32
      short dot = omega arith
      short helloo = omega arith
      short shel = omega arith
      short empty = omega arith

  pub dot-IsOrdinary : IsOrdinary s (p.name dot) 1
  dot-IsOrdinary =
      ordinary dot 0 refl (ground (arith, h.strings.dot_spelled))
        (ground (arith, h.strings.dot_spelled))

  pub helloo-IsOrdinary : IsOrdinary s (p.name helloo) 6
  helloo-IsOrdinary =
      ordinary helloo 5 refl (ground (arith, h.strings.helloo_spelled))
        (ground (arith, h.strings.helloo_spelled))

  pub shel-IsOrdinary : IsOrdinary s (p.name shel) 4
  shel-IsOrdinary = record {
    string = h.strings.name shel;
    short = omega arith;
    there = h.strings.name_there shel;
    not_empty =
        differs_first s.mem (p.name shel) s.literals.empty_name 3 h.bytes
          (ground (arith, h.strings.shel_spelled, h.strings.empty_spelled.0));
    not_stdin =
        differs_second s.mem (p.name shel) s.literals.stdin_name 2 h.bytes
          (ground (arith, h.strings.shel_spelled))
          (ground (arith, h.strings.shel_spelled, h.strings.stdin_spelled.1));
    not_stdout =
        differs_second s.mem (p.name shel) s.literals.stdout_name 2 h.bytes
          (ground (arith, h.strings.shel_spelled))
          (ground (arith, h.strings.shel_spelled, h.strings.stdout_spelled.1));
  }

  -- `open` finds the directory.
  pub record FindsDot : Type 0 where
    pub m : Mem
    pub kept : Kept p s.mem m
    pub is_dir : load32 m (p.frame + 32) ≡ 1
    pub ready : HasOpen p len lo hi (record s { mem = m })
    pub opens : open_call p.frame (p.name dot) s ≡ some (open_free p.frame (record s { mem = m }))

  pub finds_dot : FindsDot
  finds_dot =
      let (k, below, named) = h.files.dot_there in
      let (j, m, f) =
        open_call-IsFound p.frame (p.name dot) 1 k s h.bytes h.files.outside dot-IsOrdinary below
          named in
      record {
        m = m;
        kept = f.copy.outside;
        is_dir = f.copy.type_copied ∙ h.files.dot_type j f.below f.named;
        ready = HasOpen-Kept p len lo hi s m h f.copy.outside f.bytes;
        opens = f.opens;
      }

  -- What an `open` leaves behind.
  pub record Opens (ret lo' hi' : ℕ) (s' : Sys) : Type 0 where
    pub result : ece391_open p.frame (p.name dot) s ≡ done ret s'
    pub ready : HasOpen p len lo' hi' s'
    pub kept : Kept p s.mem s'.mem
    pub console : s'.machine.console ≡ s.machine.console
