-- ===== src/User/Hello/Greets.antt =====
-- What syscalls/ece391hello.c prints.
use ece391os.Prelude.{ℕ, ◌+◌, ◌≤◌, ◌<◌, ◌≡◌, ◌≢◌, ◌⊎◌, refl, ap, ◌∙◌, arith, false, ◌==◌, minus_one}
use native.Mathlib.Decide.{dec_lt}
use ece391os.Memory.{store}
use ece391os.Console.{putc_from}
use ece391os.Console.Sequence.{putc_from_same}
use ece391os.Descriptor.{stdin_table}
use ece391os.Keyboard.{cur_shell}
use ece391os.Process.{Sys}
use ece391os.User.Library.Prints.{HasTerminal, IsText, shown, fdputs-shown}
use ece391os.User.Program.{done, line_taken, answered}
use ece391os.User.Program.Calls.{AsksAfter, asks_after, awaits, puts_done, read_asks, read_waits}
use ece391os.User.Program.Line.{IsTyped, line_taken-all}
use ece391os.User.Hello.{Layout, hello}

-- A process of the program that can ask.
pub record CanAsk (p : Layout) (len : ℕ) (s : Sys) : Type 0 where
  pub terminal : HasTerminal s
  pub input : ((s.pcb.fdt 0).jump_ptr ≡ stdin_table) × ((s.pcb.fdt 0).flags ≡ 1)
  pub question : IsText s.mem p.question len
  pub there : p.buf ≢ 0

-- When the name has been read, the greeting lies in memory apart from the buffer.
pub record CanGreet (p : Layout) (len : ℕ) (s : Sys) : Type 0 where
  pub terminal : HasTerminal s
  pub greeting : IsText s.mem p.greeting len
  pub apart : (p.greeting + (len + 1) ≤ p.buf) ⊎ (p.buf + 1024 ≤ p.greeting)

-- The state when the name is ended by a NUL.
abbrev name_ready : Layout → ℕ → Sys → Sys
name_ready p len s =
    let s1 = (line_taken p.buf 1023 s).1 in record s1 { mem = store s1.mem (p.buf + (len + 1)) 0 }

module _ (p : Layout) (len : ℕ) (s : Sys) (h : IsTyped s len) where
  name_at :
      (i : ℕ)
      → i < len + 1
      → (name_ready p len s).mem (p.buf + i) ≡ (cur_shell s.machine.console).kb_buf i
  name_at i lt =
      let (count, all, bytes) = line_taken-all p.buf 1023 len s h (omega arith) (omega arith) in
      ground (arith, all i lt)

  name_byte : (i : ℕ) → i < len + 1 → (cur_shell s.machine.console).kb_buf i ≢ 0
  name_byte i lt e = elim (dec_lt i len) [
    | yes below ↦ h.text i below e
    | no past ↦
        let last : i ≡ len = omega arith in
        absurd (omega (arith, h.ends, ap (cur_shell s.machine.console).kb_buf last, e))
  ]

  name-IsText : p.buf ≢ 0 → IsText (name_ready p len s).mem p.buf (len + 1)
  name-IsText there = record {
    string = record {
      inside = λ i lt. rw (name_at i lt) (name_byte i lt);
      ends = ground arith;
      fits = omega (arith, h.inside);
    };
    small = omega (arith, h.inside);
    there = there;
  }

greeting-IsText :
    (p : Layout) (len greeting : ℕ) (s : Sys)
    → len < 1023
    → CanGreet p greeting (line_taken p.buf 1023 s).1
    → IsText (name_ready p len s).mem p.greeting greeting
greeting-IsText p len greeting s short c =
    let s1 = (line_taken p.buf 1023 s).1 in
    let kept : (i : ℕ)
        → i ≤ greeting
        → (name_ready p len s).mem (p.greeting + i) ≡ s1.mem (p.greeting + i) =
      λ i le. ground (arith, c.apart) in
    record {
      string = record {
        inside = λ i lt. rw (kept i (omega arith)) (c.greeting.string.inside i lt);
        ends = kept greeting (omega arith) ∙ c.greeting.string.ends;
        fits = c.greeting.string.fits;
      };
      small = c.greeting.small;
      there = c.greeting.there;
    }

-- For a process with descriptors 0 and 1 on the terminal, `hello` prints its question, and
-- nothing else, and then waits for a line of at most 1023 bytes. Answered by a line without a
-- NUL, it ends with the result 0 and has then printed, after the line was read, the greeting and
-- the line as it was typed with its line feed, and nothing else. Descriptor 1 is still the
-- terminal then, and the greeting lies in memory apart from the buffer.
pub hello-greets :
    (p : Layout) (question greeting len : ℕ) (s s1 : Sys)
    → CanAsk p question s
    → IsTyped s1 len
    → CanGreet p greeting (line_taken p.buf 1023 s1).1
    → let s2 = (line_taken p.buf 1023 s1).1 in
      AsksAfter p.question question p.buf s (hello p s)
      × (s' : Sys) × (answered (hello p s) s1 ≡ done 0 s')
      × (s'.machine.console
          ≡ putc_from
              (len + 1)
              (cur_shell s1.machine.console).kb_buf
              0
              (putc_from greeting s2.mem p.greeting s2.machine.console))
unfolding hello answered
hello-greets p question greeting len s s1 q h c =
    let asked = shown s p.question question in
    let wait = read_waits p.frame p.buf 1023 asked q.input q.there (omega arith) in
    let (count, all, bytes) = line_taken-all p.buf 1023 len s1 h (omega arith) (omega arith) in
    let good : (len + 1 == minus_one) ≡ false = ground (arith, h.inside) in
    let s2 = (line_taken p.buf 1023 s1).1 in
    let s3 = name_ready p len s1 in
    let s4 = shown s3 p.greeting greeting in
    let s5 = shown s4 p.buf (len + 1) in
    let text = greeting-IsText p len greeting s1 (omega (arith, h.inside)) c in
    let terminal3 : HasTerminal s3 = record { table = c.terminal.table; used = c.terminal.used } in
    let terminal4 : HasTerminal s4 = record { table = c.terminal.table; used = c.terminal.used } in
    let greets : putc_from greeting s3.mem p.greeting s2.machine.console
        ≡ putc_from greeting s2.mem p.greeting s2.machine.console =
      putc_from_same greeting s3.mem s2.mem p.greeting p.greeting s2.machine.console
        (λ i lt. ground (arith, c.apart, h.inside)) in
    let question_done =
      puts_done p.question s asked (fdputs-shown s p.question question q.terminal q.question) in
    (
      asks_after p.question question p.frame p.buf s _ q.terminal q.input q.question q.there,
      s5,
      rw
          (
            hello,
            question_done,
            read_asks p.frame 0 p.buf 1023 asked (awaits asked) wait,
            answered,
            count,
            good,
            puts_done p.greeting s3 s4 (fdputs-shown s3 p.greeting greeting terminal3 text),
            puts_done p.buf s4 s5
                (fdputs-shown s4 p.buf (len + 1) terminal4 (name-IsText p len s1 h q.there)),
          )
          refl,
      putc_from_same (len + 1) s3.mem (cur_shell s1.machine.console).kb_buf p.buf 0 _ (λ i lt.
            name_at p len s1 h i lt ∙ ap (cur_shell s1.machine.console).kb_buf (omega arith))
          ∙ ap (putc_from (len + 1) (cur_shell s1.machine.console).kb_buf 0) greets,
    )
