-- ===== src/Console/Screen.antt =====
-- `putc`, `new_line` and `back_space` of student-distrib/lib.c: where the cursor goes, and which
-- memory they change.
use ece391os.Prelude.{
  ℕ, ◌+◌, ◌*◌, ◌/◌, ◌≤◌, ◌<◌, ◌≡◌, ◌≢◌, inl, inr, refl, ap, ◌∙◌, arith, Bool, false, ◌||◌,
  if◌then◌else◌, leb, ◌==◌, Bool-cases, u32,
}
use ece391os.Memory.{in_block}
use ece391os.Paging.{Paging, video_mem_addr}
use ece391os.Console.{
  Shell, Console, physical, cell, num_cols, num_rows, move_cursor, show_cursor, scroll_up,
  set_shell, new_line, put_cell, wrap_line, putc,
}
use ece391os.Console.Scroll.{frame, physical_video, scroll_up-scrolled}

-- The cursor of a terminal is a cell of the screen.
pub record IsOnScreen (s : Shell) : Type 0 where
  pub column : s.x < num_cols
  pub row : s.y < num_rows

-- The number of the cell.
abbrev pub position : Shell → ℕ
position s = num_cols * s.y + s.x

pub cell_lem :
    (x y : ℕ) → x < num_cols → y < num_rows → cell x y ≡ video_mem_addr + 2 * (num_cols * y + x)
cell_lem x y hx hy = omega arith

-- All that printing to terminal `t` may touch: its own cursor, and the screen behind the video
-- page.
pub record IsConfined (c : Console) (t : ℕ) (c' : Console) : Type 0 where
  pub others : (j : ℕ) → j ≢ t → c'.terminals j ≡ c.terminals j
  pub keys : (c'.terminals t).buf_index ≡ (c.terminals t).buf_index
  pub flag : (c'.terminals t).line_buffer_flag ≡ (c.terminals t).line_buffer_flag
  pub saved : (c'.terminals t).vid_mem ≡ (c.terminals t).vid_mem
  pub viewed : c'.cur_terminal ≡ c.cur_terminal
  pub printed : c'.print_terminal ≡ c.print_terminal
  pub pages : c'.paging ≡ c.paging
  pub memory : (a : ℕ) → in_block (frame c.paging) 4000 a ≡ false → c'.mem a ≡ c.mem a

scroll_up_keeps :
    (c : Console)
    → ((scroll_up c).terminals ≡ c.terminals)
      × ((scroll_up c).cur_terminal ≡ c.cur_terminal)
      × ((scroll_up c).print_terminal ≡ c.print_terminal)
      × ((scroll_up c).paging ≡ c.paging)
unfolding scroll_up
scroll_up_keeps c = (refl, refl, refl, refl)

-- Where printing a character leaves the cursor.
abbrev pub after_newline : ℕ → ℕ
after_newline k = if leb 1920 k then 1920 else (k / num_cols + 1) * num_cols

abbrev pub after_char : ℕ → ℕ
after_char k = if k == 1999 then 1920 else k + 1

new_line-IsConfined : (c : Console) → IsConfined c c.print_terminal (new_line c)
unfolding new_line move_cursor
new_line-IsConfined c = record {
  others = λ j ne. ground (arith, scroll_up_keeps c);
  keys = ground (arith, scroll_up_keeps c);
  flag = ground (arith, scroll_up_keeps c);
  saved = ground (arith, scroll_up_keeps c);
  viewed = ground (arith, scroll_up_keeps c);
  printed = ground (arith, scroll_up_keeps c);
  pages = ground (arith, scroll_up_keeps c);
  memory = λ a h. ground (arith, scroll_up-scrolled c a);
}

-- The cursor of the printing terminal after a line break, from an on-screen row or one past a full
-- line.
pub new_line_cursor :
    (c : Console)
    → (c.terminals c.print_terminal).y < num_rows
    → let s' = (new_line c).terminals c.print_terminal in
      (s'.x ≡ 0)
      × (s'.y ≡ (
          if (c.terminals c.print_terminal).y == 24
          then 24
          else (c.terminals c.print_terminal).y + 1))
unfolding new_line move_cursor
new_line_cursor c h = (ground (arith, scroll_up_keeps c), ground (arith, scroll_up_keeps c))

-- The cell that a character goes to lies in the video page.
pub cell-physical :
    (p : Paging) (x y : ℕ)
    → x < num_cols
    → y < num_rows
    → (physical p (cell x y) ≡ frame p + 2 * (num_cols * y + x))
      × (physical p (u32 (cell x y + 1)) ≡ frame p + (2 * (num_cols * y + x) + 1))
cell-physical p x y hx hy = (
  ap (physical p) (cell_lem x y hx hy) ∙ physical_video p (2 * (num_cols * y + x)) (omega arith),
  ap (physical p) next ∙ physical_video p (2 * (num_cols * y + x) + 1) (omega arith),
)
  where
    next : u32 (cell x y + 1) ≡ video_mem_addr + (2 * (num_cols * y + x) + 1)
    next = omega (arith, cell_lem x y hx hy)

-- Two steps in a row.
IsConfined-trans :
    (c c1 c2 : Console) (t : ℕ) → IsConfined c t c1 → IsConfined c1 t c2 → IsConfined c t c2
IsConfined-trans c c1 c2 t f g = record {
  others = λ j ne. g.others j ne ∙ f.others j ne;
  keys = g.keys ∙ f.keys;
  flag = g.flag ∙ f.flag;
  saved = g.saved ∙ f.saved;
  viewed = g.viewed ∙ f.viewed;
  printed = g.printed ∙ f.printed;
  pages = g.pages ∙ f.pages;
  memory = λ a h. g.memory a (rw f.pages h) ∙ f.memory a h;
}

pub put_cell-IsConfined :
    (c : Console) (ch : ℕ)
    → IsOnScreen (c.terminals c.print_terminal)
    → IsConfined c c.print_terminal (put_cell ch c)
unfolding put_cell
put_cell-IsConfined c ch s = record {
  others = λ j ne. ground arith;
  keys = ground arith;
  flag = ground arith;
  saved = ground arith;
  viewed = refl;
  printed = refl;
  pages = refl;
  memory = λ a h. ground (
    arith,
    cell-physical c.paging (c.terminals c.print_terminal).x (c.terminals c.print_terminal).y,
  );
}

set_row-IsConfined :
    (c : Console) (t v : ℕ)
    → c.print_terminal ≡ t
    → IsConfined c t
        (set_shell c c.print_terminal (let s = c.terminals c.print_terminal in record s { y = v }))
set_row-IsConfined c t v e = record {
  others = λ j ne. ground arith;
  keys = ground arith;
  flag = ground arith;
  saved = ground arith;
  viewed = refl;
  printed = refl;
  pages = refl;
  memory = λ a h. refl;
}

pub wrap_line-IsConfined : (c : Console) → IsConfined c c.print_terminal (wrap_line c)
unfolding wrap_line
wrap_line-IsConfined c = elim (Bool-cases ((c.terminals c.print_terminal).x == num_cols)) [
  | inl full ↦ rw full (
      IsConfined-trans c (new_line c) _ c.print_terminal (new_line-IsConfined c)
        (set_row-IsConfined (new_line c) c.print_terminal _ (new_line-IsConfined c).printed))
  | inr room ↦ rw room (set_row-IsConfined c c.print_terminal _ refl)
]

pub wrap_line_cursor :
    (c : Console)
    → let s = c.terminals c.print_terminal in
      s.x ≤ num_cols
      → s.y < num_rows
      → let s' = (wrap_line c).terminals c.print_terminal in
        (s'.x ≡ (if s.x == num_cols then 0 else s.x))
        × (s'.y ≡ (if s.x == num_cols then (if s.y == 24 then 24 else s.y + 1) else s.y))
unfolding wrap_line
wrap_line_cursor c hx hy = (
  ground (arith, new_line_cursor c, new_line-IsConfined c),
  ground (arith, new_line_cursor c, new_line-IsConfined c),
)

abbrev pub is_break : ℕ → Bool
is_break ch = (ch == 0x0a) || (ch == 0x0d)

-- What `show_cursor` and the assignment of `current_line` leave alone.
IsConfined-shown :
    (c c1 : Console) (t line : ℕ)
    → IsConfined c t c1
    → IsConfined c t (show_cursor c1)
      × IsConfined c t (show_cursor (record c1 { current_line = line }))
unfolding move_cursor
IsConfined-shown c c1 t line f = (assumption f, assumption f)

-- Printing a character to a terminal whose cursor is on the screen leaves the other terminals as
-- they are, and of this one the length of its line, its flag and its saved page; which terminal
-- is viewed, which one prints and the page tables stay, and no memory outside the screen behind
-- the video page changes.
pub putc-IsConfined :
    (ch : ℕ) (c : Console)
    → IsOnScreen (c.terminals c.print_terminal)
    → IsConfined c c.print_terminal (putc ch c)
unfolding putc put_cell wrap_line
putc-IsConfined ch c s = elim (Bool-cases (is_break ch)) [
  | inl break ↦
      rw break (IsConfined-shown c (new_line c) c.print_terminal _ (new_line-IsConfined c)).1
  | inr char ↦
      rw char
        (IsConfined-shown c (wrap_line (put_cell ch c)) c.print_terminal 0 (
          IsConfined-trans c (put_cell ch c) _ c.print_terminal (put_cell-IsConfined c ch s)
            (wrap_line-IsConfined (put_cell ch c)))).0
]
