-- ===== src/Console/Position.antt =====
-- `putc` of student-distrib/lib.c: where it leaves the cursor, and what it writes.
use ece391os.Prelude.{
  ℕ, ◌+◌, ◌*◌, ◌<◌, ◌≡◌, inl, inr, ap, ◌∙◌, arith, ◌&&◌, if◌then◌else◌, leb, ◌==◌, Bool-cases, u32,
}
use mathlib.Core.Path.{fun_ext}
use ece391os.Memory.{Mem}
use ece391os.Paging.{Paging}
use ece391os.Console.{
  Shell, Console, attrib, num_cols, num_rows, move_cursor, new_line, put_cell, wrap_line, putc,
}
use ece391os.Console.Scroll.{frame, scrolled, scroll_up-scrolled}
use ece391os.Console.Screen.{
  IsOnScreen, position, after_newline, after_char, is_break, cell-physical, new_line_cursor,
  wrap_line_cursor, put_cell-IsConfined,
}

IsOnScreen-position :
    (s : Shell) (k : ℕ)
    → (s.x < num_cols) × (s.y < num_rows) × (position s ≡ k)
    → IsOnScreen s × (position s ≡ k)
IsOnScreen-position s k h = (record { column = h.0; row = h.1 }, h.2)

break_numbers :
    (x y x' y' : ℕ)
    → x < num_cols
    → y < num_rows
    → x' ≡ 0
    → y' ≡ (if y == 24 then 24 else y + 1)
    → (x' < num_cols) × (y' < num_rows) × (num_cols * y' + x' ≡ after_newline (num_cols * y + x))
break_numbers x y x' y' hx hy ex ey = ground arith

char_numbers :
    (x y x' y' : ℕ)
    → x < num_cols
    → y < num_rows
    → x' ≡ (if u32 (x + 1) == num_cols then 0 else u32 (x + 1))
    → y' ≡ (if u32 (x + 1) == num_cols then (if y == 24 then 24 else y + 1) else y)
    → (x' < num_cols) × (y' < num_rows) × (num_cols * y' + x' ≡ after_char (num_cols * y + x))
char_numbers x y x' y' hx hy ex ey = ground arith

put_cell_cursor :
    (ch : ℕ) (c : Console)
    → let s = c.terminals c.print_terminal in
      let s' = (put_cell ch c).terminals c.print_terminal in (s'.x ≡ u32 (s.x + 1)) × (s'.y ≡ s.y)
unfolding put_cell
put_cell_cursor ch c = (ground arith, ground arith)

char_cursor :
    (ch : ℕ) (c : Console)
    → let s = c.terminals c.print_terminal in
      IsOnScreen s
      → let s' = (wrap_line (put_cell ch c)).terminals c.print_terminal in
        (s'.x ≡ (if u32 (s.x + 1) == num_cols then 0 else u32 (s.x + 1)))
        × (s'.y ≡ (if u32 (s.x + 1) == num_cols then (if s.y == 24 then 24 else s.y + 1) else s.y))
char_cursor ch c s = (
  ground
      (arith, wrap_line_cursor (put_cell ch c), put_cell_cursor ch c, put_cell-IsConfined c ch s),
  ground
      (arith, wrap_line_cursor (put_cell ch c), put_cell_cursor ch c, put_cell-IsConfined c ch s),
)

putc_cursor :
    (ch : ℕ) (c : Console)
    → let s = c.terminals c.print_terminal in
      IsOnScreen s
      → let s' = (putc ch c).terminals c.print_terminal in
        IsOnScreen s'
        × (position s'
            ≡ (if is_break ch then after_newline (position s) else after_char (position s)))
unfolding putc move_cursor
putc_cursor ch c s = elim (Bool-cases (is_break ch)) [
  | inl break ↦
      let (ex, ey) = new_line_cursor c s.row in
      rw break (IsOnScreen-position _ _ (break_numbers _ _ _ _ s.column s.row ex ey))
  | inr char ↦
      let (ex, ey) = char_cursor ch c s in
      rw char (IsOnScreen-position _ _ (char_numbers _ _ _ _ s.column s.row ex ey))
]

-- Memory when a character is in cell `k`: the character, and after it the attribute.
abbrev pub written : Paging → Mem → ℕ → ℕ → Mem
written p m k ch a =
    if a == frame p + 2 * k then ch else if a == frame p + 2 * k + 1 then attrib else m a

-- The screen when `ch` is printed at cell `k`: from the last row a line break, and from the last
-- cell a character, moves it up a row.
abbrev pub printed_mem : Paging → Mem → ℕ → ℕ → Mem
printed_mem p m k ch a =
    if is_break ch
    then (if leb 1920 k then scrolled p m a else m a)
    else if k == 1999
    then scrolled p (written p m k ch) a
    else written p m k ch a

new_line_mem :
    (c : Console) (a : ℕ)
    → (new_line c).mem a
      ≡ (if (c.terminals c.print_terminal).y == 24 then scrolled c.paging c.mem a else c.mem a)
unfolding new_line move_cursor
new_line_mem c a = ground (arith, scroll_up-scrolled c a)

put_cell_mem :
    (ch : ℕ) (c : Console)
    → let s = c.terminals c.print_terminal in
      IsOnScreen s → (put_cell ch c).mem ≡ written c.paging c.mem (position s) ch
unfolding put_cell
put_cell_mem ch c h = fun_ext λ a. ground (
  arith,
  cell-physical c.paging (c.terminals c.print_terminal).x (c.terminals c.print_terminal).y h.column
      h.row,
)

wrap_line_mem :
    (c : Console) (a : ℕ)
    → let s = c.terminals c.print_terminal in
      (wrap_line c).mem a
      ≡ (if (s.x == num_cols) && (s.y == 24) then scrolled c.paging c.mem a else c.mem a)
unfolding wrap_line
wrap_line_mem c a = ground (arith, new_line_mem c a)

last_cell :
    (x y : ℕ)
    → x < num_cols
    → y < num_rows
    → ((u32 (x + 1) == num_cols) && (y == 24)) ≡ (num_cols * y + x == 1999)
last_cell x y hx hy = ground arith

last_row : (x y : ℕ) → x < num_cols → y < num_rows → (y == 24) ≡ leb 1920 (num_cols * y + x)
last_row x y hx hy = ground arith

char_last :
    (ch : ℕ) (c : Console)
    → let s = c.terminals c.print_terminal in
      IsOnScreen s
      → let s' = (put_cell ch c).terminals c.print_terminal in
        ((s'.x == num_cols) && (s'.y == 24)) ≡ (position s == 1999)
char_last ch c h = let (ex, ey) = put_cell_cursor ch c in rw (ex, ey) (last_cell _ _ h.column h.row)

putc_mem :
    (ch : ℕ) (c : Console) (a : ℕ)
    → let s = c.terminals c.print_terminal in
      IsOnScreen s → (putc ch c).mem a ≡ printed_mem c.paging c.mem (position s) ch a
unfolding putc move_cursor put_cell
putc_mem ch c a h = elim (Bool-cases (is_break ch)) [
  | inl break ↦ rw break (
      new_line_mem c a
      ∙ ap (λ b. if b then scrolled c.paging c.mem a else c.mem a) (last_row _ _ h.column h.row))
  | inr char ↦
      let m = (put_cell ch c).mem in
      rw char (
        wrap_line_mem (put_cell ch c) a
        ∙ ap (λ b. if b then scrolled c.paging m a else m a) (char_last ch c h)
        ∙ ap (λ x. if position s == 1999 then scrolled c.paging x a else x a) (put_cell_mem ch c h))
]
  where
    s : Shell
    s = c.terminals c.print_terminal

-- Printing keeps the cursor on the screen: a character takes it to the next cell, a line break to
-- the start of the next row, and from the last row to the start of that row. A character is put
-- with the attribute in the cell of the cursor, and no other byte of memory changes, except that
-- a line break in the last row, and a character in the last cell, then moves the screen up a row
-- and makes the last row blank.
pub putc-position :
    (ch : ℕ) (c : Console)
    → let s = c.terminals c.print_terminal in
      IsOnScreen s
      → let c' = putc ch c in
        let s' = c'.terminals c.print_terminal in
        IsOnScreen s'
        × (position s'
            ≡ (if is_break ch then after_newline (position s) else after_char (position s)))
        × ((a : ℕ) → c'.mem a ≡ printed_mem c.paging c.mem (position s) ch a)
putc-position ch c s = let (on, at) = putc_cursor ch c s in (on, at, λ a. putc_mem ch c a s)
