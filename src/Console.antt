-- ===== src/Console.antt =====
-- The screen half of student-distrib/lib.c: three terminals that share the video page. A write to
-- video memory goes to the physical page that the first page table gives; what `outb` tells the
-- cursor controller is recorded, latest first.
pub mod Screen
pub mod Position
pub mod Scroll
pub mod Switch
pub mod Printf
pub mod Sequence
use ece391os.Prelude.{
  ℕ, zero, suc, ◌+◌, ◌-◌, ◌*◌, ◌/◌, ◌%◌, ◌^◌, ◌≤◌, ◌<◌, ◌≡◌, ◌≢◌, ◌↔◌, ◌⊎◌, inl, inr, refl, sym, ap,
  ◌∙◌, arith, Bool, true, false, ◌&&◌, ◌||◌, not, Option, none, some, if◌then◌else◌, ltb, leb, ◌==◌,
  ==_iff, Bool-cases, lt→ltb, le→ltb, ltb→lt, ltb→le, lt→leb, le→leb, leb→le, u8, u32, bit_and,
  bit_or, update, minus_one, signed_lt, sub32, length, get_or, set, List, [], ◌∷◌, ◌++◌,
}
use ece391os.Memory.{Mem, store, memcpy}
use ece391os.Paging.{Paging, page_size, video_mem_addr, first_shell, second_shell, third_shell}
use ece391os.Pic.{Ports, outb}

-- `shell_t`; the numbers of type `int32_t` are bit patterns.
pub record Shell : Type 0 where
  pub vid_mem : ℕ
  pub x : ℕ
  pub y : ℕ
  pub kb_buf : ℕ → ℕ
  pub line_buffer_flag : ℕ
  pub buf_index : ℕ
  pub shift_pressed : ℕ
  pub caps_lock : ℕ
  pub ctrl_pressed : ℕ
  pub alt_pressed : ℕ
  pub vid_map : ℕ

pub record Console : Type 0 where
  pub terminals : ℕ → Shell
  pub cur_terminal : ℕ
  pub print_terminal : ℕ
  pub current_line : ℕ
  pub paging : Paging
  pub mem : Mem
  pub out : Ports

abbrev pub num_cols : ℕ
num_cols = 80

abbrev pub num_rows : ℕ
num_rows = 25

abbrev pub shell_num : ℕ
shell_num = 3

abbrev pub attrib : ℕ
attrib = 0x7

abbrev pub space : ℕ
space = 0x20

-- The physical address of a virtual one in the first four megabytes, for a page that is present.
unfoldable pub physical : Paging → ℕ → ℕ
physical p a = p.first_page_table (a / page_size) / page_size * page_size + a % page_size

abbrev pub write_byte : Paging → Mem → ℕ → ℕ → Mem
write_byte p m a v = store m (physical p a) v

-- `video_mem + ((NUM_COLS * y + x) << 1)`.
abbrev pub cell : ℕ → ℕ → ℕ
cell x y = u32 (video_mem_addr + u32 (2 * u32 (num_cols * y + x)))

abbrev pub fresh_shell : ℕ → Shell → Shell
fresh_shell vid_mem s = record {
  vid_mem = vid_mem;
  x = 0;
  y = 0;
  kb_buf = s.kb_buf;
  line_buffer_flag = 0;
  buf_index = 0;
  shift_pressed = 0;
  caps_lock = 0;
  ctrl_pressed = 0;
  alt_pressed = 0;
  vid_map = 0;
}

unfoldable pub init_shell : Console → Console
init_shell c =
    let t0 = update c.terminals 0 (fresh_shell first_shell (c.terminals 0)) in
    let t1 = update t0 1 (fresh_shell second_shell (t0 1)) in
    record c { terminals = update t1 2 (fresh_shell third_shell (t1 2)) }

unfoldable pub move_cursor : ℕ → ℕ → Console → Console
move_cursor screen_x screen_y c =
    let pos = u32 (screen_y * num_cols + screen_x) in
    record c {
      out =
          outb (u8 (pos / 2 ^ 8)) 0x3d5
            (outb 0x0e 0x3d4 (outb (u8 pos) 0x3d5 (outb 0x0f 0x3d4 c.out)));
    }

-- The cursor of the terminal that is viewed.
abbrev pub show_cursor : Console → Console
show_cursor c = move_cursor (c.terminals c.cur_terminal).x (c.terminals c.cur_terminal).y c

-- One round of the loop of `clear`, and of the second loop of `scroll_up`.
abbrev pub blank_cell : Paging → Mem → ℕ → Mem
blank_cell p m i =
    write_byte p (write_byte p m (video_mem_addr + 2 * i) space) (video_mem_addr + 2 * i + 1) attrib

unfoldable pub blank_from : ℕ → ℕ → Paging → Mem → Mem
blank_from zero i p m = m
blank_from (suc n) i p m = blank_from n (i + 1) p (blank_cell p m i)

unfoldable pub clear : Console → Console
clear c = record c { mem = blank_from (num_rows * num_cols) 0 c.paging c.mem }

abbrev pub raise_cell : Paging → Mem → ℕ → Mem
raise_cell p m i =
    let m1 =
      write_byte p m (video_mem_addr + 2 * i)
        (m (physical p (video_mem_addr + 2 * (i + num_cols)))) in
    write_byte p m1 (video_mem_addr + 2 * i + 1) attrib

unfoldable pub raise_from : ℕ → ℕ → Paging → Mem → Mem
raise_from zero i p m = m
raise_from (suc n) i p m = raise_from n (i + 1) p (raise_cell p m i)

unfoldable pub scroll_up : Console → Console
scroll_up c =
    let m = raise_from (num_rows * num_cols - num_cols) 0 c.paging c.mem in
    record c { mem = blank_from num_cols (num_rows * num_cols - num_cols) c.paging m }

abbrev pub set_shell : Console → ℕ → Shell → Console
set_shell c t s = record c { terminals = update c.terminals t s }

unfoldable pub new_line : Console → Console
new_line c =
    let s = c.terminals c.print_terminal in
    show_cursor (
      if s.y == num_rows - 1
      then set_shell (scroll_up c) c.print_terminal (record s { x = 0 })
      else set_shell c c.print_terminal (record s { y = u32 (s.y + 1); x = 0 }))

unfoldable pub reset_screen : Console → Console
reset_screen c =
    let s = c.terminals c.cur_terminal in
    let c1 = set_shell c c.cur_terminal (record s { y = 0; x = 0 }) in
    show_cursor (record c1 { current_line = 0 })

-- `--x < 0` goes to the end of the row above.
unfoldable pub step_back : Shell → Shell
step_back s =
    let left = sub32 s.x 1 in
    if signed_lt left 0
    then record s { x = num_cols - 1; y = sub32 s.y 1 }
    else record s { x = left }

unfoldable pub back_space : Console → Console
back_space c =
    let s = step_back (c.terminals c.cur_terminal) in
    let c1 = set_shell c c.cur_terminal s in
    show_cursor (record c1 { mem = write_byte c.paging c.mem (cell s.x s.y) space })

-- C's `/` and `%` on `int32_t` by a positive constant: they round towards zero.
abbrev pub signed_div : ℕ → ℕ → ℕ
signed_div a d = if ltb a (2 ^ 31) then a / d else u32 (2 ^ 32 - (2 ^ 32 - a) / d)

abbrev pub signed_mod : ℕ → ℕ → ℕ
signed_mod a d = if ltb a (2 ^ 31) then a % d else u32 (2 ^ 32 - (2 ^ 32 - a) % d)

-- The character and its attribute go to the cell, and the column moves on.
unfoldable pub put_cell : ℕ → Console → Console
put_cell ch c =
    let s = c.terminals c.print_terminal in
    let a = cell s.x s.y in
    let m = write_byte c.paging (write_byte c.paging c.mem a ch) (u32 (a + 1)) attrib in
    record c {
      mem = m;
      terminals = update c.terminals c.print_terminal (record s { x = u32 (s.x + 1) });
    }

-- The last lines of `putc`: a full line is ended, and the row is brought into range.
unfoldable pub wrap_line : Console → Console
wrap_line c =
    let c1 = if (c.terminals c.print_terminal).x == num_cols then new_line c else c in
    let s = c1.terminals c1.print_terminal in
    set_shell c1 c1.print_terminal
      (record s { y = signed_mod (u32 (s.y + signed_div s.x num_cols)) num_rows })

unfoldable pub putc : ℕ → Console → Console
putc ch c =
    let line = new_line c in
    show_cursor (
      if (ch == 0x0a) || (ch == 0x0d)
      then record line { current_line = (line.terminals line.print_terminal).y }
      else wrap_line (put_cell ch c))

-- `change_shell`: both blocks are whole pages, so each `memcpy` works on two physical pages.
unfoldable pub change_shell : ℕ → Console → ℕ × Console
change_shell next c =
    let video = physical c.paging video_mem_addr in
    let save = physical c.paging (c.terminals c.cur_terminal).vid_mem in
    let m1 = memcpy c.mem save video page_size in
    let m2 = memcpy m1 video (physical c.paging (c.terminals next).vid_mem) page_size in
    let c1 = record c { cur_terminal = next; mem = m2 } in
    if signed_lt next 0 || not (signed_lt next shell_num)
    then (minus_one, c)
    else (0, move_cursor (c.terminals next).x (c.terminals next).y c1)

-- `puts` and the loop of `terminal_write`: a string, or `n` bytes, of the caller's memory `view`.
unfoldable pub putc_from : ℕ → Mem → ℕ → Console → Console
putc_from zero view a c = c
putc_from (suc n) view a c = putc_from n view (a + 1) (putc (view a) c)
