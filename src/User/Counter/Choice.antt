-- ===== src/User/Counter/Choice.antt =====
-- syscalls/ece391counter.c from its question on.
use ece391os.Prelude.{ℕ, ◌+◌, ◌<◌, ◌≡◌, ◌≢◌, ◌⊎◌, inl, inr, refl, sym, ap, ◌∙◌, arith, false, some}
use native.Mathlib.Decide.{ℕ_discrete}
use ece391os.Memory.{store}
use ece391os.Text.{strlen}
use ece391os.Text.Length.{IsString, strlen_of_string}
use ece391os.Descriptor.{stdin_table}
use ece391os.Keyboard.{cur_shell}
use ece391os.Process.{Sys}
use ece391os.User.Library.Equal.{strlen_equal}
use ece391os.User.Library.Prints.{HasTerminal, IsText, shown, fdputs-shown}
use ece391os.User.Program.{done, line_taken, answered}
use ece391os.User.Program.Calls.{AsksAfter, asks_after, awaits, puts_done, read_asks, read_waits}
use ece391os.User.Program.Line.{IsTyped, line_taken-all}
use ece391os.User.Counter.{Layout, length_of, count_from, max_of, wrong_choice, counter}
use ece391os.User.Counter.Counts.{Counts, CanCount, count_from-Counts}

-- The numbers that the three digits stand for.
abbrev pub Chosen : ℕ → ℕ → Type 0
Chosen digit n =
    ((digit ≡ b'0') × (n ≡ 100)) ⊎ ((digit ≡ b'1') × (n ≡ 10000)) ⊎ ((digit ≡ b'2') × (n ≡ 100000))

Chosen-max :
    (digit n : ℕ)
    → Chosen digit n
    → (max_of digit ≡ n) × (wrong_choice 2 digit ≡ false) × (n < 100001) × (digit ≢ 0)
unfolding max_of wrong_choice
Chosen-max digit n (inl (d, e)) = (ground arith, ground arith, omega arith, omega arith)
Chosen-max digit n (inr (inl (d, e))) = (ground arith, ground arith, omega arith, omega arith)
Chosen-max digit n (inr (inr (d, e))) = (ground arith, ground arith, omega arith, omega arith)

-- A process of the program that can ask.
pub record CanAsk (p : Layout) (len : ℕ) (s : Sys) : Type 0 where
  pub terminal : HasTerminal s
  pub input : ((s.pcb.fdt 0).jump_ptr ≡ stdin_table) × ((s.pcb.fdt 0).flags ≡ 1)
  pub question : IsText s.mem p.enter len

-- The line of one digit with its line feed, ended by a NUL.
ended :
    (p : Layout) (s : Sys)
    → CanCount p (line_taken p.buf 1023 s).1
    → IsTyped s 1
    → let s1 = (line_taken p.buf 1023 s).1 in
      let s2 = record s1 { mem = store s1.mem (p.buf + 2) 0 } in
      CanCount p s2
      × (strlen s2.mem p.buf ≡ some 2)
      × (s2.mem p.buf ≡ (cur_shell s.machine.console).kb_buf 0)
ended p s c h =
    let s1 = (line_taken p.buf 1023 s).1 in
    let s2 = record s1 { mem = store s1.mem (p.buf + 2) 0 } in
    let (count, all, bytes) = line_taken-all p.buf 1023 1 s h (omega arith) (omega arith) in
    let byte : (i : ℕ) → i < 2 → s2.mem (p.buf + i) ≡ (cur_shell s.machine.console).kb_buf i =
      λ i lt. ground (arith, all i (omega arith)) in
    let text : IsString s2.mem p.buf 2 = record {
      inside = λ i lt e. elim (ℕ_discrete i 0) [
        | yes z ↦ h.text i (omega (arith, z)) (sym (byte i lt) ∙ e)
        | no nz ↦
            let one : i ≡ 1 = omega (arith, nz) in
            absurd (
              omega (
                arith,
                h.ends,
                sym (ap (cur_shell s.machine.console).kb_buf one) ∙ sym (byte i lt) ∙ e,
              ))
      ];
      ends = ground arith;
      fits = omega arith;
    } in
    let kept : (a : ℕ) → a < 2 → s2.mem (p.newline + a) ≡ s1.mem (p.newline + a) =
      λ a lt. ground (arith, c.apart) in
    (
      record {
        terminal = record { table = c.terminal.table; used = c.terminal.used };
        newline = record {
          string = record {
            inside = λ i lt. rw (kept i (omega arith)) (c.newline.string.inside i lt);
            ends = kept 1 (omega arith) ∙ c.newline.string.ends;
            fits = omega arith;
          };
          small = omega arith;
          there = c.newline.there;
        };
        feed = ap s2.mem (omega arith) ∙ kept 0 (omega arith) ∙ ap s1.mem (omega arith) ∙ c.feed;
        apart = c.apart;
        there = c.there;
      },
      strlen_of_string s2.mem p.buf 2 text,
      ap s2.mem (omega arith) ∙ byte 0 (omega arith),
    )

length_done : (text n : ℕ) (s : Sys) → strlen s.mem text ≡ some n → length_of text s ≡ done n s
unfolding length_of
length_done text n s e = rw (length_of, strlen_equal s.mem text, e) refl

-- For a process with descriptors 0 and 1 on the terminal, the program prints its question, and
-- nothing else, and then waits for a line of at most 1023 bytes. Answered by a line of one of the
-- digits 0, 1 and 2, it ends with the result 0 and has then printed the decimal numerals of 1 to
-- 100, to 10000 or to 100000, in order, in digits from '0' to '9' without leading zeros, each
-- followed by a line feed, and nothing else since the line was read. When the line has been read,
-- descriptor 1 is the terminal, and the line feed that is printed lies in memory apart from the
-- buffer.
pub counter-Counts :
    (p : Layout) (len n : ℕ) (s s1 : Sys)
    → CanAsk p len s
    → IsTyped s1 1
    → Chosen ((cur_shell s1.machine.console).kb_buf 0) n
    → CanCount p (line_taken p.buf 1023 s1).1
    → let s2 = (line_taken p.buf 1023 s1).1 in
      AsksAfter p.enter len p.buf s (counter p s)
      × (s' : Sys) × (answered (counter p s) s1 ≡ done 0 s')
      × Counts p 0 n s2.machine.console s'.machine.console
unfolding counter answered
counter-Counts p len n s s1 q h chosen c =
    let asked = shown s p.enter len in
    let wait = read_waits p.frame p.buf 1023 asked q.input c.there (omega arith) in
    let (count, all, bytes) = line_taken-all p.buf 1023 1 s1 h (omega arith) (omega arith) in
    let (most, right, small, ne) = Chosen-max ((cur_shell s1.machine.console).kb_buf 0) n chosen in
    let (c2, two, digit) = ended p s1 c h in
    let s2 = (line_taken p.buf 1023 s1).1 in
    let s3 = record s2 { mem = store s2.mem (p.buf + 2) 0 } in
    let goes : answered (counter p s) s1 ≡ count_from p n 0 s3 =
      rw
        (
          counter,
          puts_done p.enter s asked (fdputs-shown s p.enter len q.terminal q.question),
          read_asks p.frame 0 p.buf 1023 asked (awaits asked) wait,
          answered,
          count,
          length_done p.buf 2 s3 two,
          digit,
          right,
          most,
        )
        refl in
    let (s', run, counts) = count_from-Counts p n 0 s3 c2 (omega (arith, small)) in
    (
      asks_after p.enter len p.frame p.buf s _ q.terminal q.input q.question c.there,
      s',
      goes ∙ run,
      counts,
    )
