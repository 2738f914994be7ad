-- ===== src/User/Shell/Obeys.antt =====
-- What syscalls/ece391shell.c does with a line.
use ece391os.Prelude.{
  ℕ, suc, ◌+◌, ◌-◌, ◌<◌, ◌≡◌, ◌≢◌, ◌⊎◌, inl, inr, refl, sym, ap, ◌∙◌, arith, true, false, some,
  if◌then◌else◌, ◌==◌, ==_iff, minus_one, signed_lt,
}
use mathlib.Core.Path.{subst}
use native.Mathlib.Decide.{ℕ_discrete}
use ece391os.Memory.{store}
use ece391os.Text.Length.{IsString}
use ece391os.Text.Compare.{IsBytes}
use ece391os.Text.Bytes.{store-IsBytes}
use ece391os.Descriptor.{stdin_table}
use ece391os.Keyboard.{cur_shell}
use ece391os.Process.{Sys}
use ece391os.User.Library.{ece391_strcmp}
use ece391os.User.Library.Compare.{Equal, ece391_strcmp-Tells}
use ece391os.User.Library.Prints.{HasTerminal, IsText, shown, fdputs-shown}
use ece391os.User.Program.{
  Run, done, executes, after, Program, ece391_execute, line_taken, answered,
}
use ece391os.User.Program.Calls.{AsksAfter, asks_after, awaits, puts_done, read_asks, read_waits}
use ece391os.User.Program.Line.{IsTyped, line_taken-all}
use ece391os.User.Shell.{Layout, compare_strings, report, obey_command, obey, shell_loop}

-- The state when the line is read and its line feed is replaced by a NUL.
unfoldable pub command_ready : ℕ → ℕ → Sys → Sys
command_ready buf len s =
    let s1 = (line_taken buf 1023 s).1 in record s1 { mem = store s1.mem (buf + len) 0 }

-- The command stands at `buf` as a string.
pub record IsCommand (buf len : ℕ) (s s1 : Sys) : Type 0 where
  pub string : IsString s1.mem buf len
  pub typed : (i : ℕ) → i < len → s1.mem (buf + i) ≡ (cur_shell s.machine.console).kb_buf i
  pub bytes : IsBytes s1.mem

ready-IsCommand :
    (buf len : ℕ) (s : Sys) → IsTyped s len → IsCommand buf len s (command_ready buf len s)
unfolding command_ready
ready-IsCommand buf len s h =
    let (count, all, bytes) = line_taken-all buf 1023 len s h (omega arith) (omega arith) in
    let at : (i : ℕ)
        → i < len
        → (command_ready buf len s).mem (buf + i) ≡ (cur_shell s.machine.console).kb_buf i =
      λ i lt. ground (arith, all i (omega arith)) in
    record {
      string = record {
        inside = λ i lt e. h.text i lt (sym (at i lt) ∙ e);
        ends = ground arith;
        fits = omega (arith, h.inside);
      };
      typed = at;
      bytes = store-IsBytes _ (buf + len) 0 bytes (omega arith);
    }

-- The lengths of the three messages on the result of a command.
pub record Lengths : Type 0 where
  pub no_command : ℕ
  pub by_exception : ℕ
  pub abnormally : ℕ

-- The shell can print each of them.
pub record CanReport (p : Layout) (n : Lengths) (s : Sys) : Type 0 where
  pub terminal : HasTerminal s
  pub no_command : IsText s.mem p.no_command n.no_command
  pub by_exception : IsText s.mem p.by_exception n.by_exception
  pub abnormally : IsText s.mem p.abnormally n.abnormally

-- The state when the result of a command is reported: one text for -1, one for 256 and one for
-- every other result but 0.
abbrev pub reported : Layout → Lengths → ℕ → Sys → Sys
reported p n rval s =
    if rval == 0
    then s
    else if rval == 256
    then shown s p.by_exception n.by_exception
    else if rval == 0xffff_ffff
    then shown s p.no_command n.no_command
    else shown s p.abnormally n.abnormally

-- What the shell does with the command; `rval` and `s2` are the result and the state in which it
-- ends, if it is executed.
abbrev pub Obeys : Layout → Lengths → Program ℕ → ℕ → ℕ → Sys → Run ℕ → Sys → Type 0
Obeys p n rest len rval s2 run s1 =
    (Equal s1.mem p.buf p.exit len × (run ≡ done 0 s1))
    ⊎ ((¬ Equal s1.mem p.buf p.exit len) × (len ≡ 0) × (run ≡ rest s1))
    ⊎ ((¬ Equal s1.mem p.buf p.exit len)
        × (0 < len)
        × (then_on : ℕ → Sys → Run ℕ) × (run ≡ executes p.buf s1 then_on)
        × (then_on rval s2 ≡ rest (reported p n rval s2)))

report_lem :
    (p : Layout) (n : Lengths) (rval : ℕ) (s : Sys)
    → CanReport p n s
    → report p rval s ≡ done tt (reported p n rval s)
unfolding report
report_lem p n rval s c = elim (ℕ_discrete rval 0) [
  | yes z ↦ rw z refl
  | no ne ↦ elim (ℕ_discrete rval 256) [
    | yes e ↦ rw e (
        puts_done p.by_exception s _
          (fdputs-shown s p.by_exception n.by_exception c.terminal c.by_exception))
    | no other ↦ elim (ℕ_discrete rval 0xffff_ffff) [
      | yes m ↦ rw m (
          puts_done p.no_command s _
            (fdputs-shown s p.no_command n.no_command c.terminal c.no_command))
      | no last ↦
          let z : (rval == 0) ≡ false = ground (arith, ne) in
          let e : (rval == 256) ≡ false = ground (arith, other) in
          let m : (rval == minus_one) ≡ false = ground (arith, last) in
          rw (z, e, m)
            (puts_done p.abnormally s _
              (fdputs-shown s p.abnormally n.abnormally c.terminal c.abnormally))
    ]
  ]
]

compared :
    (s1 s2 r : ℕ) (s : Sys)
    → ece391_strcmp s.mem s1 s2 ≡ some r
    → compare_strings s1 s2 s ≡ done r s
unfolding compare_strings
compared s1 s2 r s e = rw (compare_strings, e) refl

obey_command-Obeys :
    (p : Layout) (n : Lengths) (rest : Program ℕ) (len rval : ℕ) (s s1 s2 : Sys)
    → IsCommand p.buf len s s1
    → CanReport p n s2
    → Obeys p n rest len rval s2 (obey_command p rest s1) s1
unfolding obey_command ece391_execute
obey_command-Obeys p n rest len rval s s1 s2 c can =
    let (r, run, tells) = ece391_strcmp-Tells len s1.mem p.buf p.exit c.bytes c.string in
    let e = compared p.buf p.exit r s1 run in
    elim tells [
      | inl (z, same) ↦
          let is_exit : (r == 0) ≡ true = (==_iff _ _).1 z in
          inl (same, rw (obey_command, e, is_exit) refl)
      | inr (nz, other) ↦
          let not_exit : (r == 0) ≡ false = ground (arith, nz) in
          elim (ℕ_discrete len 0) [
            | yes empty ↦
                let none_typed : (s1.mem p.buf == 0) ≡ true =
                  (==_iff _ _).1 (ap s1.mem (omega (arith, empty)) ∙ c.string.ends) in
                inr (inl (other, empty, rw (obey_command, e, not_exit, none_typed) refl))
            | no ne ↦
                let first : s1.mem p.buf ≢ 0 =
                  λ z. c.string.inside 0 (omega (arith, ne)) (ap s1.mem (omega arith) ∙ z) in
                let some_typed : (s1.mem p.buf == 0) ≡ false = ground (arith, first) in
                inr (
                  inr (
                    other,
                    omega (arith, ne),
                    λ r s3. after (report p r s3) (λ _. rest),
                    rw (obey_command, e, not_exit, some_typed) refl,
                    ap (λ x. after x (λ _. rest)) (report_lem p n rval s2 can),
                  ))
          ]
    ]

obey_line :
    (p : Layout) (rest : Program ℕ) (len : ℕ) (s : Sys)
    → IsTyped s len
    → let (cnt, s2) = line_taken p.buf 1023 s in
      obey p rest cnt s2 ≡ obey_command p rest (command_ready p.buf len s)
unfolding obey command_ready
obey_line p rest len s h =
    let (count, all, bytes) = line_taken-all p.buf 1023 len s h (omega arith) (omega arith) in
    let cnt = (line_taken p.buf 1023 s).0 in
    let s2 = (line_taken p.buf 1023 s).1 in
    let ends : s2.mem (p.buf + (cnt - 1)) ≡ 10 =
      ap s2.mem (omega (arith, count)) ∙ all len (omega arith) ∙ h.ends in
    let positive : signed_lt 0 cnt ≡ true = ground (arith, count, h.inside) in
    let short : cnt - 1 ≡ len = omega (arith, count) in
    rw (obey, ends, positive)
      (ap (λ k. obey_command p rest (record s2 { mem = store s2.mem (p.buf + k) 0 })) short)

-- A process of the shell that can prompt.
pub record CanPrompt (p : Layout) (len : ℕ) (s : Sys) : Type 0 where
  pub terminal : HasTerminal s
  pub input : ((s.pcb.fdt 0).jump_ptr ≡ stdin_table) × ((s.pcb.fdt 0).flags ≡ 1)
  pub prompt : IsText s.mem p.prompt len
  pub there : p.buf ≢ 0

-- For a process with descriptors 0 and 1 on the terminal, the shell prints its prompt, and
-- nothing else, and then waits for a line of at most 1023 bytes. When a line without a NUL is
-- there, the text before its line feed stands in the buffer as a string. If it is the string at
-- `exit`, the shell ends with the result 0; if not and it is empty, the shell goes on with its
-- next round; and if not and it is not empty, it executes exactly that text. When that has ended,
-- with any result and in any state in which descriptor 1 is the terminal and the messages are
-- strings in memory, the shell prints the message for -1, for 256 or for another result but 0,
-- or nothing for 0, and goes on with its next round.
pub shell_loop-Obeys :
    (rounds : ℕ) (p : Layout) (n : Lengths) (prompt len rval : ℕ) (s s1 s3 : Sys)
    → CanPrompt p prompt s
    → IsTyped s1 len
    → CanReport p n s3
    → let s2 = command_ready p.buf len s1 in
      let run = shell_loop (suc rounds) p s in
      AsksAfter p.prompt prompt p.buf s run
      × IsCommand p.buf len s1 s2
      × Obeys p n (shell_loop rounds p) len rval s3 (answered run s1) s2
unfolding shell_loop answered
shell_loop-Obeys rounds p n prompt len rval s s1 s3 c h can =
    let asked = shown s p.prompt prompt in
    let rest = shell_loop rounds p in
    let s2 = command_ready p.buf len s1 in
    let command = ready-IsCommand p.buf len s1 h in
    let wait = read_waits p.frame p.buf 1023 asked c.input c.there (omega arith) in
    let (count, all, bytes) = line_taken-all p.buf 1023 len s1 h (omega arith) (omega arith) in
    let good : ((line_taken p.buf 1023 s1).0 == minus_one) ≡ false =
      ground (arith, count, h.inside) in
    let run : answered (shell_loop (suc rounds) p s) s1
        ≡ obey_command p (shell_loop rounds p) (command_ready p.buf len s1) =
      rw
        (
          shell_loop,
          puts_done p.prompt s asked (fdputs-shown s p.prompt prompt c.terminal c.prompt),
          read_asks p.frame 0 p.buf 1023 asked (awaits asked) wait,
          answered,
          good,
        )
        (obey_line p (shell_loop rounds p) len s1 h) in
    (
      asks_after p.prompt prompt p.frame p.buf s _ c.terminal c.input c.prompt c.there,
      command,
      subst (λ r. Obeys p n rest len rval s3 r s2) (sym run)
          (obey_command-Obeys p n rest len rval s1 s2 s3 command can),
    )
