-- ===== src/Keyboard/Line.antt =====
-- What holds of the terminals of student-distrib/kb.c between two keys: the line buffer is within
-- its array, the cursor is on the screen, and what was typed stands before the cursor.
use ece391os.Prelude.{
  ℕ, ◌≤◌, ◌<◌, ◌≡◌, ◌≢◌, ◌⊎◌, inl, inr, refl, sym, ◌∙◌, arith, true, false, if◌then◌else◌, ==_refl,
  Bool-cases, update, signed_lt, sub32,
}
use mathlib.Core.Path.{subst}
use native.Mathlib.Decide.{ℕ_discrete}
use ece391os.Console.{Shell, Console, shell_num, move_cursor, putc, back_space, step_back}
use ece391os.Console.Position.{putc-position}
use ece391os.Console.Screen.{
  IsOnScreen, position, putc-IsConfined, is_break, after_newline, after_char,
}
use ece391os.Console.Switch.{step_back_lem}
use ece391os.Keyboard.{
  buf_length, kbdus, refuses, print_scancode, cur_shell, set_cur_shell, erase, end_line,
}

-- A line that is not ended holds at most 127 bytes, and an ended one at most 128.
pub record IsLine (s : Shell) : Type 0 where
  pub ended : s.buf_index ≤ buf_length
  pub running : s.line_buffer_flag ≡ 0 → s.buf_index < buf_length
  pub on_screen : IsOnScreen s
  pub typed : s.buf_index ≤ position s

pub record IsReady (c : Console) : Type 0 where
  pub lines : (t : ℕ) → t < shell_num → IsLine (c.terminals t)
  pub viewed : c.cur_terminal < shell_num

pub IsReady-step :
    (c c' : Console)
    → IsReady c
    → c'.cur_terminal ≡ c.cur_terminal
    → ((j : ℕ) → j ≢ c.cur_terminal → c'.terminals j ≡ c.terminals j)
    → IsLine (c'.terminals c.cur_terminal)
    → IsReady c'
IsReady-step c c' r e others line = record {
  lines = λ t lt. elim (ℕ_discrete t c.cur_terminal) [
    | yes p ↦ rw p line
    | no ne ↦ rw (others t ne) (r.lines t lt)
  ];
  viewed = rw e r.viewed;
}

-- A printed character takes the cursor at least one cell on, up to the last row.
advance_on_screen :
    (ch k k' : ℕ)
    → k < 2000
    → k' ≡ (if is_break ch then after_newline k else after_char k)
    → (1920 ≤ k') ⊎ (k < k')
advance_on_screen ch k k' h e = ground arith

-- What printing to terminal `t` does.
pub record Printed (c : Console) (t : ℕ) (c' : Console) : Type 0 where
  pub on_screen : IsOnScreen (c'.terminals t)
  pub keys : (c'.terminals t).buf_index ≡ (c.terminals t).buf_index
  pub flag : (c'.terminals t).line_buffer_flag ≡ (c.terminals t).line_buffer_flag
  pub moved :
      (1920 ≤ position (c'.terminals t)) ⊎ (position (c.terminals t) < position (c'.terminals t))
  pub viewed : c'.cur_terminal ≡ c.cur_terminal
  pub printed : c'.print_terminal ≡ c.print_terminal
  pub others : (j : ℕ) → j ≢ t → c'.terminals j ≡ c.terminals j

pub putc-Printed :
    (ch : ℕ) (c : Console) (t : ℕ)
    → c.print_terminal ≡ t
    → IsOnScreen (c.terminals t)
    → Printed c t (putc ch c)
putc-Printed ch c t e on =
    subst (λ u. IsOnScreen (c.terminals u) → Printed c u (putc ch c)) e here on
  where
    here : IsOnScreen (c.terminals c.print_terminal) → Printed c c.print_terminal (putc ch c)
    here on' =
        let f = putc-IsConfined ch c on' in
        let (at, moved, memory) = putc-position ch c on' in
        record {
          on_screen = at;
          keys = f.keys;
          flag = f.flag;
          moved =
              advance_on_screen ch (position (c.terminals c.print_terminal)) _
                (omega (arith, on'.column, on'.row)) moved;
          viewed = f.viewed;
          printed = f.printed;
          others = f.others;
        }

-- The guard refuses a key on an ended line, and any but a line break on a full one.
refuses_lem :
    (s : Shell) (scan_code : ℕ)
    → s.buf_index ≤ buf_length
    → refuses s scan_code ≡ false
    → (s.line_buffer_flag ≡ 0) × ((s.buf_index < 127) ⊎ (scan_code ≡ 28))
unfolding refuses
refuses_lem s scan_code h e = ground arith

-- A key that is echoed: the line grows by one byte, inside the array.
print_scancode_line :
    (scan_code : ℕ) (c : Console)
    → IsReady c
    → c.print_terminal ≡ c.cur_terminal
    → let c' = print_scancode scan_code c in
      let s = cur_shell c in
      let s' = c'.terminals c.cur_terminal in
      (c'.cur_terminal ≡ c.cur_terminal)
      × ((j : ℕ) → j ≢ c.cur_terminal → c'.terminals j ≡ c.terminals j)
      × IsOnScreen s'
      × (s'.buf_index ≤ position s')
      × (s'.buf_index ≤ buf_length)
      × (s'.line_buffer_flag ≡ s.line_buffer_flag)
      × ((s.line_buffer_flag ≡ 0) → (scan_code ≢ 28) → s'.buf_index < buf_length)
      × ((s'.buf_index ≡ s.buf_index) ⊎ (s.buf_index < buf_length))
unfolding print_scancode
print_scancode_line scan_code c r e = elim (Bool-cases (refuses (cur_shell c) scan_code)) [
  | inl no_room ↦ rw no_room (
    refl,
    λ j ne. refl,
    line.on_screen,
    line.typed,
    line.ended,
    refl,
    λ f _. line.running f,
    inl refl,
  )
  | inr room ↦
      let free = refuses_lem (cur_shell c) scan_code line.ended room in
      rw (room, p.viewed, ==_refl c.cur_terminal)
        (
          refl,
          λ j ne. ground (arith, p.others j ne),
          record { column = p.on_screen.column; row = p.on_screen.row },
          ground (arith, p.keys, p.moved, free, line.running, line.typed),
          ground (arith, p.keys, free, line.running),
          p.flag,
          λ f ne. ground (arith, p.keys, free),
          inr (line.running free.0),
        )
]
  where
    line : IsLine (cur_shell c)
    line = r.lines c.cur_terminal r.viewed

    p : Printed c c.cur_terminal (putc (kbdus scan_code) c)
    p = putc-Printed (kbdus scan_code) c c.cur_terminal e line.on_screen

-- A step that works on the terminal that is viewed, and leaves its line in order.
pub record Kept (c : Console) (c' : Console) : Type 0 where
  pub viewed : c'.cur_terminal ≡ c.cur_terminal
  pub others : (j : ℕ) → j ≢ c.cur_terminal → c'.terminals j ≡ c.terminals j
  pub line : IsLine (c'.terminals c.cur_terminal)

pub Kept-IsReady : (c c' : Console) → IsReady c → Kept c c' → IsReady c'
Kept-IsReady c c' r k = IsReady-step c c' r k.viewed k.others k.line

-- A key of the line that is not its end.
pub print_scancode-Kept :
    (scan_code : ℕ) (c : Console)
    → IsReady c
    → c.print_terminal ≡ c.cur_terminal
    → scan_code ≢ 28
    → Kept c (print_scancode scan_code c)
print_scancode-Kept scan_code c r e ne =
    let (viewed, others, on, typed, ended, flag, running, grown) =
      print_scancode_line scan_code c r e in
    record {
      viewed = viewed;
      others = others;
      line = record {
        ended = ended;
        running = λ f. running (sym flag ∙ f) ne;
        on_screen = on;
        typed = typed;
      };
    }

-- A shell that is put in place of the one that is viewed.
pub set_shell-Kept :
    (c c' : Console) (s : Shell)
    → c'.cur_terminal ≡ c.cur_terminal
    → ((j : ℕ) → j ≢ c.cur_terminal → c'.terminals j ≡ c.terminals j)
    → IsLine s
    → Kept c (set_cur_shell c' s)
set_shell-Kept c c' s viewed others line = record {
  viewed = viewed;
  others = λ j ne. ground (arith, viewed, others j ne);
  line = rw (at c'.cur_terminal viewed) line;
}
  where
    at : (t : ℕ) → t ≡ c.cur_terminal → update c'.terminals t s c.cur_terminal ≡ s
    at t e = rw (e, ==_refl c.cur_terminal) refl

ended_shell : Shell → Shell
ended_shell s = record s { line_buffer_flag = 1 }

pub end_line-Kept :
    (scan_code : ℕ) (c : Console)
    → IsReady c
    → c.print_terminal ≡ c.cur_terminal
    → Kept c (end_line scan_code c)
unfolding end_line ended_shell
end_line-Kept scan_code c r e =
    let (viewed, others, on, typed, ended, flag, running, grown) =
      print_scancode_line scan_code c r e in
    let line : IsLine (ended_shell ((print_scancode scan_code c).terminals c.cur_terminal)) =
      record {
        ended = ended;
        running = λ f. ground arith;
        on_screen = record { column = on.column; row = on.row };
        typed = typed;
      } in
    set_shell-Kept c (print_scancode scan_code c) _ viewed others (
      subst (λ t. IsLine (ended_shell ((print_scancode scan_code c).terminals t))) (sym viewed)
        line)

fewer : Shell → Shell
fewer s = record s { buf_index = sub32 s.buf_index 1 }

fewer-IsLine :
    (s : Shell) → IsLine s → signed_lt 0 s.buf_index ≡ true → IsLine (step_back (fewer s))
unfolding fewer step_back
fewer-IsLine s line some_typed =
    let (on, moved) =
      step_back_lem (fewer s) (record { column = line.on_screen.column; row = line.on_screen.row })
        (ground (arith, line.typed, some_typed)) in
    record {
      ended = ground (arith, line.ended);
      running = λ f. ground (arith, line.ended, some_typed);
      on_screen = on;
      typed = ground (arith, line.ended, some_typed, line.typed, moved);
    }

-- A backspace stays on the screen: before the cursor stands at least what was typed.
pub erase-Kept : (c : Console) → IsReady c → Kept c (erase c)
unfolding erase fewer back_space move_cursor
erase-Kept c r = elim (Bool-cases (signed_lt 0 (cur_shell c).buf_index)) [
  | inl some_typed ↦
      rw (some_typed, ==_refl c.cur_terminal)
        (record {
          viewed = refl;
          others = λ j ne. ground arith;
          line = rw (==_refl c.cur_terminal) (fewer-IsLine (cur_shell c) line some_typed);
        })
  | inr empty ↦ rw empty (record { viewed = refl; others = λ j ne. refl; line = line })
]
  where
    line : IsLine (cur_shell c)
    line = r.lines c.cur_terminal r.viewed
