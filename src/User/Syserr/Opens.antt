-- ===== src/User/Syserr/Opens.antt =====
-- The tests of syscalls/ece391syserr.c that call `open`.
use ece391os.Prelude.{
  ℕ, zero, suc, ◌+◌, ◌≤◌, ◌<◌, ◌≡◌, ◌≢◌, ◌⊎◌, inl, inr, refl, ap, ◌∙◌, arith, false, ◌||◌, some,
  ◌==◌, minus_one, signed_lt,
}
use mathlib.Core.Path.{subst}
use native.Mathlib.Decide.{ℕ_discrete}
use ece391os.Descriptor.{JumpTable, dir_table, max_fd_num}
use ece391os.Console.{Console, putc_from}
use ece391os.Console.Sequence.{putc_from_same}
use ece391os.Process.{Sys}
use ece391os.Syscalls.{new_desc, install, close, jump_close}
use ece391os.Syscalls.Open.{open_call-missing, open_call-empty, open_free-directory, open_free-full}
use ece391os.User.Program.{done}
use ece391os.User.Program.Calls.{open_done, close_done}
use ece391os.User.Library.Prints.{shown}
use ece391os.User.Syserr.{
  Message, helloo_fail, shel_fail, empty_fail, open_fail, open_pass, open_lots_fail, open_lots_pass,
  dot, helloo, shel, empty, Layout, open_lots, close_lots, err_open_lots, err_open,
}
use ece391os.User.Syserr.Ready.{Apart-Kept, HasOpen, IsReady, Kept}
use ece391os.User.Syserr.Names.{helloo-IsOrdinary, shel-IsOrdinary, finds_dot, Opens}
use ece391os.User.Syserr.Single.{check_refused, verdict_passed, shown-Passed, Passes, passes}

-- One more directory is open.
install-HasOpen :
    (p : Layout) (len : Message → ℕ) (n : ℕ) (s : Sys)
    → HasOpen p len 2 n s
    → 2 ≤ n
    → n ≤ max_fd_num
    → HasOpen p len 2 (n + 1) (install s n (new_desc dir_table 0))
install-HasOpen p len n s h lo hi = record {
  strings = h.strings;
  files = h.files;
  bytes = h.bytes;
  terminal = record {
    table = ground (arith, h.terminal.table);
    used = ground (arith, h.terminal.used);
  };
  input = (ground (arith, h.input), ground (arith, h.input));
  used = λ i l lt. elim (ℕ_discrete i n) [
    | yes e ↦ (ground arith, ground arith)
    | no ne ↦
        let (flag, table) = h.used i l (omega arith) in
        (ground (arith, flag), ground (arith, table))
  ];
  free = λ i l below out. ground (arith, h.free i l below (inr (omega arith)), out);
}

module _ (p : Layout) (len : Message → ℕ) (n : ℕ) (s : Sys) (h : HasOpen p len 2 n s) where
  open_next : 2 ≤ n → n ≤ max_fd_num → (s' : Sys) × Opens p len 2 n s h n 2 (n + 1) s'
  open_next lo hi =
      let f = finds_dot p len 2 n s h in
      let s1 = record s { mem = f.m } in
      (
        install s1 n (new_desc dir_table 0),
        record {
          result = open_done p.frame (p.name dot) n s _ (
              f.opens
              ∙ ap some (
                  open_free-directory p.frame n s1 lo hi (λ i l lt. (h.used i l lt).0)
                    (h.free n lo hi (inr (omega arith))) f.is_dir));
          ready = install-HasOpen p len n s1 f.ready lo hi;
          kept = f.kept;
          console = refl;
        },
      )

open_more :
    (p : Layout) (len : Message → ℕ) (s : Sys) (h : HasOpen p len 2 8 s)
    → (s' : Sys) × Opens p len 2 8 s h minus_one 2 8 s'
open_more p len s h =
    let f = finds_dot p len 2 8 s h in
    let s1 = record s { mem = f.m } in
    (
      s1,
      record {
        result = open_done p.frame (p.name dot) minus_one s s1 (
            f.opens ∙ ap some (open_free-full p.frame s1 (λ i l le. (h.used i l (omega arith)).0)));
        ready = f.ready;
        kept = f.kept;
        console = refl;
      },
    )

-- What a part of the test leaves behind.
record Reaches (p : Layout) (len : Message → ℕ) (lo hi : ℕ) (s s' : Sys) : Type 0 where
  ready : HasOpen p len lo hi s'
  kept : Kept p s.mem s'.mem
  console : s'.machine.console ≡ s.machine.console

Reaches-trans :
    (p : Layout) (len : Message → ℕ) (lo hi : ℕ) (s s1 s2 : Sys)
    → Kept p s.mem s1.mem
    → s1.machine.console ≡ s.machine.console
    → Reaches p len lo hi s1 s2
    → Reaches p len lo hi s s2
Reaches-trans p len lo hi s s1 s2 kept console r = record {
  ready = r.ready;
  kept = λ a out. r.kept a out ∙ kept a out;
  console = r.console ∙ console;
}

-- The loop of opens: of the seven the last one fails.
open_lots-Reaches :
    (p : Layout) (len : Message → ℕ) (rounds n cnt : ℕ) (s : Sys)
    → n + rounds ≡ 8
    → 2 ≤ n
    → HasOpen p len 2 n s
    → (s' : Sys) × (open_lots p (suc rounds) cnt s ≡ done (cnt + 1) s') × Reaches p len 2 8 s s'
unfolding open_lots
open_lots-Reaches p len zero n cnt s e lo h =
    let all : HasOpen p len 2 8 s = subst (λ k. HasOpen p len 2 k s) (omega arith) h in
    let (s', o) = open_more p len s all in
    (
      s',
      rw (open_lots, o.result) refl,
      record { ready = o.ready; kept = o.kept; console = o.console },
    )
open_lots-Reaches p len (suc rounds) n cnt s e lo h =
    let (s1, o) = open_next p len n s h lo (omega arith) in
    let (s', run, r) =
      open_lots-Reaches p len rounds (n + 1) cnt s1 (omega arith) (omega arith) o.ready in
    let opened : (n == minus_one) ≡ false = ground arith in
    (s', rw (open_lots, o.result, opened) run, Reaches-trans p len 2 8 s s1 s' o.kept o.console r)

-- The lowest directory that is open is closed.
abbrev closed : Sys → ℕ → Sys
closed s i = install s i (let d = s.pcb.fdt i in record d { flags = minus_one })

jump_close_dir :
    (table : JumpTable) (fd : ℕ) (s : Sys) → table ≡ dir_table → (jump_close table fd s).1 ≡ s
unfolding jump_close
jump_close_dir table fd s e = rw e refl

close_next :
    (p : Layout) (len : Message → ℕ) (i : ℕ) (s : Sys)
    → HasOpen p len i 8 s
    → 2 ≤ i
    → i ≤ max_fd_num
    → (close i s ≡ (0, closed s i)) × HasOpen p len (i + 1) 8 (closed s i)
unfolding close
close_next p len i s h lo hi =
    let (flag, table) = h.used i (omega arith) (omega arith) in
    let good : signed_lt i 2 || signed_lt max_fd_num i ≡ false = ground arith in
    (
      rw (good, flag, jump_close_dir (s.pcb.fdt i).jump_ptr i s table) refl,
      record {
        strings = h.strings;
        files = h.files;
        bytes = h.bytes;
        terminal = record {
          table = ground (arith, h.terminal.table);
          used = ground (arith, h.terminal.used);
        };
        input = (ground (arith, h.input), ground (arith, h.input));
        used = λ j l lt.
            let (flag', table') = h.used j (omega arith) lt in
            (ground (arith, flag'), ground (arith, table'));
        free = λ j l below out. elim (ℕ_discrete j i) [
          | yes e ↦ ground arith
          | no ne ↦ ground (arith, h.free j l below (free_before j ne out))
        ];
      },
    )
  where
    free_before : (j : ℕ) → j ≢ i → (j < i + 1) ⊎ (8 ≤ j) → (j < i) ⊎ (8 ≤ j)
    free_before j ne (inl lt) = inl (omega arith)
    free_before j ne (inr le) = inr le

close_lots-Reaches :
    (p : Layout) (len : Message → ℕ) (rounds i : ℕ) (s : Sys)
    → i + rounds ≡ 8
    → 2 ≤ i
    → HasOpen p len i 8 s
    → (s' : Sys) × (close_lots rounds i s ≡ done tt s') × Reaches p len 8 8 s s'
unfolding close_lots
close_lots-Reaches p len zero i s e lo h = (
  s,
  refl,
  record {
    ready = subst (λ k. HasOpen p len k 8 s) (omega arith) h;
    kept = λ a out. refl;
    console = refl;
  },
)
close_lots-Reaches p len (suc rounds) i s e lo h =
    let (run, h1) = close_next p len i s h lo (omega arith) in
    let (s', rest, r) =
      close_lots-Reaches p len rounds (i + 1) (closed s i) (omega arith) (omega arith) h1 in
    (
      s',
      rw (close_lots, close_done i 0 s (closed s i) run) rest,
      Reaches-trans p len 8 8 s (closed s i) s' (λ a out. refl) refl r,
    )

all_closed : (p : Layout) (len : Message → ℕ) (s : Sys) → HasOpen p len 8 8 s → IsReady p len s
all_closed p len s h = record {
  strings = h.strings;
  files = h.files;
  bytes = h.bytes;
  terminal = record { table = h.terminal.table; used = h.terminal.used };
  input = h.input;
  used = λ i l lt. absurd (omega arith);
  free = λ i l below out. h.free i l below (inl (omega arith));
}

-- The text that a test prints is the same before and after the part of it that opens files.
pub putc_from-Kept :
    (p : Layout) (len : Message → ℕ) (x : Message) (s s' : Sys)
    → IsReady p len s
    → Kept p s.mem s'.mem
    → (c : Console) → putc_from (len x) s'.mem (p.say x) c ≡ putc_from (len x) s.mem (p.say x) c
putc_from-Kept p len x s s' h kept c =
    putc_from_same (len x) s'.mem s.mem (p.say x) (p.say x) c
      (λ i lt. Apart-Kept p kept (p.say x) (len x + 1) i (h.strings.text_apart x) (omega arith))

module _ (p : Layout) (len : Message → ℕ) (s : Sys) (h : IsReady p len s) where
  pub err_open_lots-Passes : Passes p len s (err_open_lots p) open_lots_pass
  unfolding err_open_lots
  err_open_lots-Passes =
      let (s1, opened, r1) = open_lots-Reaches p len 6 2 0 s refl (omega arith) h in
      let (s2, shut, r2) = close_lots-Reaches p len 6 2 s1 refl (omega arith) r1.ready in
      let ready = all_closed p len s2 r2.ready in
      let kept : Kept p s.mem s2.mem = λ a out. r2.kept a out ∙ r1.kept a out in
      let v = shown-Passed p len s2 ready open_lots_pass in
      (
        shown s2 (p.say open_lots_pass) (len open_lots_pass),
        rw (err_open_lots, opened, shut)
            (verdict_passed p len s2 ready open_lots_fail open_lots_pass),
        record {
          ready = v.ready;
          kept = kept;
          console =
              putc_from-Kept p len open_lots_pass s s2 h kept s2.machine.console
              ∙ ap (putc_from (len open_lots_pass) s.mem (p.say open_lots_pass))
                  (r2.console ∙ r1.console);
        },
      )

  pub err_open-Passes : Passes p len s (err_open p) open_pass
  unfolding err_open
  err_open-Passes = passes p len s h (err_open p) open_fail open_pass (
      rw
        (
          open_done p.frame (p.name helloo) minus_one s s (
              open_call-missing p.frame (p.name helloo) 6 s h.bytes h.files.outside
                (helloo-IsOrdinary p len 2 2 s h) h.files.no_helloo),
          check_refused p helloo_fail 0 s,
          open_done p.frame (p.name shel) minus_one s s (
              open_call-missing p.frame (p.name shel) 4 s h.bytes h.files.outside
                (shel-IsOrdinary p len 2 2 s h) h.files.no_shel),
          check_refused p shel_fail 0 s,
          open_done p.frame (p.name empty) minus_one s s
              (open_call-empty p.frame (p.name empty) s (h.strings.name empty)),
          check_refused p empty_fail 0 s,
        )
        refl)
