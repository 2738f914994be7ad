-- ===== src/Keyboard/Keys.antt =====
-- The keys of student-distrib/kb.c, each on any terminals that are in order.
use ece391os.Prelude.{
  ℕ, zero, suc, ◌+◌, ◌-◌, ◌≤◌, ◌<◌, ◌≡◌, ◌≢◌, ◌⊎◌, inl, inr, refl, ap, ◌∙◌, arith, Bool, true,
  false, ◌&&◌, ◌||◌, not, if◌then◌else◌, ltb, ◌==◌, ==_refl, Bool-cases, ltb→lt, signed_lt,
}
use ece391os.Memory.{Mem}
use ece391os.Pic.{Pic}
use ece391os.Paging.{video_mem_addr, set_page_table1_entry}
use ece391os.Console.{
  Shell, Console, shell_num, move_cursor, putc, putc_from, clear, reset_screen, change_shell,
}
use ece391os.Console.Screen.{IsOnScreen, position}
use ece391os.Keyboard.{
  buf_length, cur_shell, set_cur_shell, redraw, rounds_to, recent_release_exec, after_release_exec,
  shifted_code, is_function_key, handle_key, restore_video, is_ignored, keyboard_interrupt_handler,
  recent_release,
}
use ece391os.Keyboard.Line.{
  IsLine, IsReady, Kept, Kept-IsReady, putc-Printed, print_scancode-Kept, end_line-Kept, erase-Kept,
  set_shell-Kept,
}

-- Printing `k` bytes to terminal `t`.
record Reprinted (c : Console) (t : ℕ) (k : ℕ) (c' : Console) : Type 0 where
  on_screen : IsOnScreen (c'.terminals t)
  keys : (c'.terminals t).buf_index ≡ (c.terminals t).buf_index
  flag : (c'.terminals t).line_buffer_flag ≡ (c.terminals t).line_buffer_flag
  moved :
      (1920 ≤ position (c'.terminals t))
      ⊎ (position (c.terminals t) + k ≤ position (c'.terminals t))
  viewed : c'.cur_terminal ≡ c.cur_terminal
  others : (j : ℕ) → j ≢ t → c'.terminals j ≡ c.terminals j

putc_from-Reprinted :
    (n : ℕ) (view : Mem) (a : ℕ) (c : Console) (t : ℕ)
    → c.print_terminal ≡ t
    → IsOnScreen (c.terminals t)
    → Reprinted c t n (putc_from n view a c)
unfolding putc_from
putc_from-Reprinted zero view a c t e on = record {
  on_screen = on;
  keys = refl;
  flag = refl;
  moved = inr (omega arith);
  viewed = refl;
  others = λ j ne. refl;
}
putc_from-Reprinted (suc n) view a c t e on =
    let p = putc-Printed (view a) c t e on in
    let q = putc_from-Reprinted n view (a + 1) (putc (view a) c) t (p.printed ∙ e) p.on_screen in
    record {
      on_screen = q.on_screen;
      keys = q.keys ∙ p.keys;
      flag = q.flag ∙ p.flag;
      moved = again n (position (c.terminals t)) _ _ p.moved q.moved q.on_screen;
      viewed = q.viewed ∙ p.viewed;
      others = λ j ne. q.others j ne ∙ p.others j ne;
    }
  where
    again :
        (n k k1 : ℕ) (s : Shell)
        → (1920 ≤ k1) ⊎ (k < k1)
        → (1920 ≤ position s) ⊎ (k1 + n ≤ position s)
        → IsOnScreen s
        → (1920 ≤ position s) ⊎ (k + suc n ≤ position s)
    again n k k1 s first rest on' = ground arith

record Cleared (c : Console) (c' : Console) : Type 0 where
  column : (c'.terminals c.cur_terminal).x ≡ 0
  row : (c'.terminals c.cur_terminal).y ≡ 0
  keys : (c'.terminals c.cur_terminal).buf_index ≡ (cur_shell c).buf_index
  flag : (c'.terminals c.cur_terminal).line_buffer_flag ≡ (cur_shell c).line_buffer_flag
  viewed : c'.cur_terminal ≡ c.cur_terminal
  printed : c'.print_terminal ≡ c.print_terminal
  others : (j : ℕ) → j ≢ c.cur_terminal → c'.terminals j ≡ c.terminals j

reset_screen-clear : (c : Console) → Cleared c (reset_screen (clear c))
unfolding reset_screen clear move_cursor
reset_screen-clear c = record {
  column = rw (==_refl c.cur_terminal) refl;
  row = rw (==_refl c.cur_terminal) refl;
  keys = rw (==_refl c.cur_terminal) refl;
  flag = rw (==_refl c.cur_terminal) refl;
  viewed = refl;
  printed = refl;
  others = λ j ne. ground arith;
}

reprinted_typed :
    (i i1 i2 p p' : ℕ)
    → i ≤ buf_length
    → i1 ≡ i
    → i2 ≡ i
    → (1920 ≤ p') ⊎ (p + rounds_to i1 ≤ p')
    → i2 ≤ p'
reprinted_typed i i1 i2 p p' h e1 e2 moved = ground arith

-- Control-L leaves the line as it was, printed again from the top of a blank screen.
redraw-Kept : (c : Console) → IsReady c → c.print_terminal ≡ c.cur_terminal → Kept c (redraw c)
unfolding redraw
redraw-Kept c r e = record {
  viewed = q.viewed ∙ top.viewed;
  others = λ j ne. q.others j ne ∙ top.others j ne;
  line = record {
    ended = ground (arith, line.ended, q.keys, top.keys);
    running = λ f. ground (arith, line.running, q.keys, q.flag, top.keys, top.flag);
    on_screen = q.on_screen;
    typed =
        reprinted_typed (cur_shell c).buf_index _ _ _ _ line.ended
          (ap cur_index top.viewed ∙ top.keys) (q.keys ∙ top.keys) q.moved;
  };
}
  where
    line : IsLine (cur_shell c)
    line = r.lines c.cur_terminal r.viewed

    c1 : Console
    c1 = reset_screen (clear c)

    top : Cleared c c1
    top = reset_screen-clear c

    cur_index : ℕ → ℕ
    cur_index t = (c1.terminals t).buf_index

    n : ℕ
    n = rounds_to (cur_shell c1).buf_index

    q : Reprinted c1 c.cur_terminal n (putc_from n (cur_shell c1).kb_buf 0 c1)
    q =
        putc_from-Reprinted n (cur_shell c1).kb_buf 0 c1 c.cur_terminal (top.printed ∙ e)
          (record { column = ground (arith, top.column); row = ground (arith, top.row) })

-- A key that only changes the flags of shift, control, alternate or caps lock.
abbrev SameLine : Shell → Shell → Type 0
SameLine s s' =
    (s'.buf_index ≡ s.buf_index)
    × (s'.line_buffer_flag ≡ s.line_buffer_flag)
    × (s'.x ≡ s.x)
    × (s'.y ≡ s.y)

flag-Kept :
    (c : Console) (s : Shell) → IsReady c → SameLine (cur_shell c) s → Kept c (set_cur_shell c s)
flag-Kept c s r (keys, flag, column, row) =
    set_shell-Kept c c s refl (λ j ne. refl)
      (record {
        ended = ground (arith, line.ended);
        running = λ f. ground (arith, line.running);
        on_screen = record {
          column = ground (arith, line.on_screen.column);
          row = ground (arith, line.on_screen.row);
        };
        typed = ground (arith, line.typed);
      })
  where
    line : IsLine (cur_shell c)
    line = r.lines c.cur_terminal r.viewed

-- The alternate and function keys.
change_shell-IsReady :
    (next : ℕ) (c : Console) → IsReady c → next < shell_num → IsReady (change_shell next c).1
unfolding change_shell move_cursor
change_shell-IsReady next c r h =
    let guard : signed_lt next 0 || not (signed_lt next shell_num) ≡ false = ground arith in
    rw guard (record { lines = r.lines; viewed = h })

shifted_code_ne :
    (s : Shell) (scan_code : ℕ)
    → scan_code < recent_release
    → scan_code ≢ 28
    → shifted_code s scan_code ≢ 28
unfolding shifted_code
shifted_code_ne s scan_code h ne = ground arith

if-IsReady :
    (b : Bool) (x y : Console)
    → (b ≡ true → IsReady x)
    → (b ≡ false → IsReady y)
    → IsReady (if b then x else y)
if-IsReady true x y first second = first refl
if-IsReady false x y first second = second refl

shell_of :
    (s : Shell) (scan_code : ℕ)
    → (s.alt_pressed == 1) && is_function_key scan_code ≡ true
    → scan_code - 59 < shell_num
shell_of s scan_code h = ground arith

-- A key that is pressed keeps every line in order.
pub recent_release_exec-IsReady :
    (scan_code : ℕ) (c : Console)
    → IsReady c
    → c.print_terminal ≡ c.cur_terminal
    → scan_code < recent_release
    → IsReady (recent_release_exec scan_code c)
unfolding recent_release_exec
recent_release_exec-IsReady scan_code c r e h =
    if-IsReady (scan_code == 29) _ _ (λ p. flag _ (refl, refl, refl, refl))
      (λ p.
        if-IsReady ((s.alt_pressed == 1) && is_function_key scan_code) _ _
          (λ q. change_shell-IsReady (scan_code - 59) c r (shell_of s scan_code q))
          (λ q.
            if-IsReady ((scan_code == 38) && (s.ctrl_pressed == 1)) _ _
              (λ p. kept _ (redraw-Kept c r e))
              (λ p.
                if-IsReady (scan_code == 14) _ _ (λ p. kept _ (erase-Kept c r))
                  (λ p.
                    if-IsReady (scan_code == 56) _ _ (λ p. flag _ (refl, refl, refl, refl))
                      (λ p.
                        if-IsReady (scan_code == 28) _ _
                          (λ p. kept _ (end_line-Kept scan_code c r e))
                          (λ other.
                            if-IsReady ((scan_code == 42) || (scan_code == 54)) _ _
                              (λ p. flag _ (refl, refl, refl, refl))
                              (λ p.
                                if-IsReady (scan_code == 58) _ _
                                  (λ p. flag _ (refl, refl, refl, refl))
                                  (λ p. kept _ (
                                    print_scancode-Kept (shifted_code s scan_code) c r e (
                                      shifted_code_ne s scan_code h
                                        (ground (arith, other))))))))))))
  where
    s : Shell
    s = cur_shell c

    kept : (c' : Console) → Kept c c' → IsReady c'
    kept c' k = Kept-IsReady c c' r k

    flag : (s' : Shell) → SameLine s s' → IsReady (set_cur_shell c s')
    flag s' same = kept _ (flag-Kept c s' r same)

after_release_exec-IsReady :
    (scan_code : ℕ) (c : Console) → IsReady c → IsReady (after_release_exec scan_code c)
unfolding after_release_exec
after_release_exec-IsReady scan_code c r =
    if-IsReady ((scan_code == 42 + recent_release) || (scan_code == 54 + recent_release)) _ _
      (λ p. flag _ (refl, refl, refl, refl))
      (λ p.
        if-IsReady (scan_code == 29 + recent_release) _ _ (λ p. flag _ (refl, refl, refl, refl))
          (λ p. if-IsReady (scan_code == 184) _ _ (λ p. flag _ (refl, refl, refl, refl)) (λ p. r)))
  where
    flag : (s' : Shell) → SameLine (cur_shell c) s' → IsReady (set_cur_shell c s')
    flag s' same = Kept-IsReady c _ r (flag-Kept c s' r same)

pub handle_key-IsReady :
    (scan_code : ℕ) (c : Console) → IsReady c → IsReady (handle_key scan_code c)
unfolding handle_key
handle_key-IsReady scan_code c r =
    let c1 = record c {
      print_terminal = c.cur_terminal;
      paging = set_page_table1_entry c.paging video_mem_addr video_mem_addr;
    } in
    let r1 : IsReady c1 = record { lines = r.lines; viewed = r.viewed } in
    if-IsReady (ltb scan_code recent_release) _ _
      (λ p. recent_release_exec-IsReady scan_code c1 r1 refl (ltb→lt _ _ p))
      (λ p. after_release_exec-IsReady scan_code c1 r1)

-- The keyboard interrupt, on terminals in order, leaves them in order, whatever key it brings
-- and whichever terminal is scheduled: no line outgrows its buffer, no cursor leaves the screen,
-- and the cursor stays behind what was typed.
pub keyboard_interrupt_handler-IsReady :
    (cur_sched_term video_buffer scan_code : ℕ) (pic : Pic) (c : Console)
    → IsReady c
    → IsReady (keyboard_interrupt_handler cur_sched_term video_buffer scan_code (pic, c)).1
unfolding keyboard_interrupt_handler restore_video
keyboard_interrupt_handler-IsReady cur_sched_term video_buffer scan_code pic c r =
    elim (Bool-cases (is_ignored scan_code)) [
      | inl p ↦ rw p r
      | inr p ↦
          let r1 = handle_key-IsReady scan_code c r in
          rw p (record { lines = r1.lines; viewed = r1.viewed })
    ]
