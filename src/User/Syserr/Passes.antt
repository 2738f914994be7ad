-- ===== src/User/Syserr/Passes.antt =====
-- syscalls/ece391syserr.c passes all of its tests on this kernel.
use ece391os.Prelude.{ℕ, ◌≡◌, ◌≢◌, refl, ap, ◌∙◌, arith, false, ◌==◌, minus_one, List, [], ◌∷◌}
use ece391os.Memory.{Mem}
use ece391os.Console.{Console, putc_from}
use ece391os.Keyboard.{cur_shell}
use ece391os.Process.{Sys}
use ece391os.User.Program.Calls.{read_asks, read_waits, awaits}
use ece391os.User.Program.{done, answered, line_taken}
use ece391os.User.Program.Line.{HasTyped, line_taken_first}
use ece391os.User.Library.Prints.{shown}
use ece391os.User.Syserr.{
  Message, neg_fd_pass, big_fd_pass, open_lots_pass, open_pass, unopened_pass, vidmap_pass,
  stdin_out_pass, number_pass, overall_fail, overall_pass, choose, Layout, run_all, select_test,
  syserr,
}
use ece391os.User.Syserr.Ready.{IsReady, Kept, Passed}
use ece391os.User.Syserr.Single.{
  verdict_passed, shown-Passed, puts-shown, err_neg_fd-Passes, err_big_fd-Passes,
  err_unopened-Passes, err_vidmap-Passes, err_stdin_out-Passes, err_syscall_num-Passes,
}
use ece391os.User.Syserr.Opens.{putc_from-Kept, err_open_lots-Passes, err_open-Passes}

-- The console after the texts are printed, one after the other.
pub says : Layout → (Message → ℕ) → Mem → List Message → Console → Console
says p len m [] c = c
says p len m (x ∷ xs) c = says p len m xs (putc_from (len x) m (p.say x) c)

-- The tests have printed these texts, and the next one can run.
record Ran (p : Layout) (len : Message → ℕ) (s : Sys) (xs : List Message) (s' : Sys) : Type 0 where
  ready : IsReady p len s'
  console : s'.machine.console ≡ says p len s.mem xs s.machine.console

says-Kept :
    (p : Layout) (len : Message → ℕ) (xs : List Message) (s s' : Sys)
    → IsReady p len s
    → Kept p s.mem s'.mem
    → (c : Console) → says p len s'.mem xs c ≡ says p len s.mem xs c
unfolding says
says-Kept p len [] s s' h kept c = refl
says-Kept p len (x ∷ xs) s s' h kept c =
    rw (putc_from-Kept p len x s s' h kept c)
      (says-Kept p len xs s s' h kept (putc_from (len x) s.mem (p.say x) c))

Ran-cons :
    (p : Layout) (len : Message → ℕ) (x : Message) (xs : List Message) (s s1 s2 : Sys)
    → IsReady p len s
    → Passed p len s x s1
    → Ran p len s1 xs s2
    → Ran p len s (x ∷ xs) s2
unfolding says
Ran-cons p len x xs s s1 s2 h first rest = record {
  ready = rest.ready;
  console =
      rest.console
      ∙ says-Kept p len xs s s1 h first.kept s1.machine.console
      ∙ ap (says p len s.mem xs) first.console;
}

Ran-nil : (p : Layout) (len : Message → ℕ) (s : Sys) → IsReady p len s → Ran p len s [] s
unfolding says
Ran-nil p len s h = record { ready = h; console = refl }

abbrev pub passes_all : List Message
passes_all =
    neg_fd_pass ∷ big_fd_pass ∷ open_lots_pass ∷ open_pass ∷ unopened_pass ∷ vidmap_pass
    ∷ stdin_out_pass ∷ number_pass ∷ overall_pass ∷ []

run_all-Ran :
    (p : Layout) (len : Message → ℕ) (s : Sys)
    → IsReady p len s
    → (s' : Sys) × (run_all p s ≡ done 0 s') × Ran p len s passes_all s'
unfolding run_all
run_all-Ran p len s h =
    let (s1, e1, r1) = err_neg_fd-Passes p len s h in
    let (s2, e2, r2) = err_big_fd-Passes p len s1 r1.ready in
    let (s3, e3, r3) = err_open_lots-Passes p len s2 r2.ready in
    let (s4, e4, r4) = err_open-Passes p len s3 r3.ready in
    let (s5, e5, r5) = err_unopened-Passes p len s4 r4.ready in
    let (s6, e6, r6) = err_vidmap-Passes p len s5 r5.ready in
    let (s7, e7, r7) = err_stdin_out-Passes p len s6 r6.ready in
    let (s8, e8, r8) = err_syscall_num-Passes p len s7 r7.ready in
    let s9 = shown s8 (p.say overall_pass) (len overall_pass) in
    let r9 = shown-Passed p len s8 r8.ready overall_pass in
    (
      s9,
      rw (run_all, e1, e2, e3, e4, e5, e6, e7, e8)
          (verdict_passed p len s8 r8.ready overall_fail overall_pass),
      Ran-cons p len _ _ s s1 s9 h r1 (
          Ran-cons p len _ _ s1 s2 s9 r1.ready r2 (
            Ran-cons p len _ _ s2 s3 s9 r2.ready r3 (
              Ran-cons p len _ _ s3 s4 s9 r3.ready r4 (
                Ran-cons p len _ _ s4 s5 s9 r4.ready r5 (
                  Ran-cons p len _ _ s5 s6 s9 r5.ready r6 (
                    Ran-cons p len _ _ s6 s7 s9 r6.ready r7 (
                      Ran-cons p len _ _ s7 s8 s9 r7.ready r8 (
                        Ran-cons p len _ _ s8 s9 s9 r8.ready r9 (Ran-nil p len s9 r9.ready))))))))),
    )

-- In a process with descriptors 0 and 1 on the terminal and the others free, over a file system with
-- the directory entry "." and no file "helloo" or "shel", the program is answered by a line that
-- begins with the digit 0: it then runs all of its tests and ends with the result 0, and what it
-- prints from there on is the text of a pass for each of the eight tests and for all of them, in
-- order and nothing else, and no descriptor from 2 on is open. The texts and names lie in memory outside the kernel's local `dentry_t`,
-- when the program starts and when the line has been read.
pub syserr-says :
    (p : Layout) (len : Message → ℕ) (buf : ℕ) (s s1 : Sys)
    → IsReady p len s
    → buf ≢ 0
    → HasTyped s1 127
    → (cur_shell s1.machine.console).kb_buf 0 ≡ 0x30
    → IsReady p len (line_taken buf 127 s1).1
    → let s2 = (line_taken buf 127 s1).1 in
      (s' : Sys) × (answered (syserr p buf s) s1 ≡ done 0 s')
      × (s'.machine.console ≡ says p len s2.mem passes_all s2.machine.console)
      × IsReady p len s'
unfolding syserr select_test answered
syserr-says p len buf s s1 h ne typed digit h2 =
    let asked = shown s (p.say choose) (len choose) in
    let wait = read_waits p.frame buf 127 asked h.input ne (omega arith) in
    let (some_byte, below, first) = line_taken_first buf 127 s1 typed in
    let (s', run, ran) = run_all-Ran p len (line_taken buf 127 s1).1 h2 in
    let good : ((line_taken buf 127 s1).0 == minus_one) ≡ false = ground (arith, below) in
    (
      s',
      rw
          (
            syserr,
            puts-shown p len s h choose,
            read_asks p.frame 0 buf 127 asked (awaits asked) wait,
            answered,
            good,
            first ∙ digit,
          )
          run,
      ran.console,
      ran.ready,
    )
