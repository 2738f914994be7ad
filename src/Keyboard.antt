-- ===== src/Keyboard.antt =====
-- student-distrib/kb.c: the keyboard handler, the line buffers of the terminals, and the terminal
-- driver's open, close, read and write.
pub mod Line
pub mod Pages
pub mod Keys
pub mod Read
use ece391os.Prelude.{
  ℕ, zero, suc, ◌+◌, ◌-◌, ◌*◌, ◌/◌, ◌%◌, ◌^◌, ◌≤◌, ◌<◌, ◌≡◌, ◌≢◌, ◌↔◌, ◌⊎◌, inl, inr, refl, sym, ap,
  ◌∙◌, arith, Bool, true, false, ◌&&◌, ◌||◌, not, Option, none, some, if◌then◌else◌, ltb, leb, ◌==◌,
  ==_iff, Bool-cases, lt→ltb, le→ltb, ltb→lt, ltb→le, lt→leb, le→leb, leb→le, u8, u32, bit_and,
  bit_or, update, minus_one, signed_lt, sub32, length, get_or, set, List, [], ◌∷◌, ◌++◌,
}
use ece391os.Memory.{Mem, memcpy}
use ece391os.Paging.{Paging, video_mem_addr, set_page_table1_entry}
use ece391os.Pic.{Pic, enable_irq, disable_irq, send_eoi}
use ece391os.Console.{
  Shell, Console, set_shell, clear, reset_screen, back_space, change_shell, putc, putc_from,
}

abbrev pub buf_length : ℕ
buf_length = 128

abbrev pub cap_offset : ℕ
cap_offset = 90

abbrev pub recent_release : ℕ
recent_release = 0x80

-- The table by scan code, and from 90 on by scan code with shift. The entries that the initialiser
-- leaves out are 0.
abbrev pub kbdus_entries : List ℕ
kbdus_entries =
    0 ∷ 27 ∷ 49 ∷ 50 ∷ 51 ∷ 52 ∷ 53 ∷ 54 ∷ 55 ∷ 56 ∷ 57 ∷ 48 ∷ 45 ∷ 61 ∷ 8 ∷ 9 ∷ 113 ∷ 119 ∷ 101
    ∷ 114 ∷ 116 ∷ 121 ∷ 117 ∷ 105 ∷ 111 ∷ 112 ∷ 91 ∷ 93 ∷ 10 ∷ 0 ∷ 97 ∷ 115 ∷ 100 ∷ 102 ∷ 103 ∷ 104
    ∷ 106 ∷ 107 ∷ 108 ∷ 59 ∷ 39 ∷ 96 ∷ 0 ∷ 92 ∷ 122 ∷ 120 ∷ 99 ∷ 118 ∷ 98 ∷ 110 ∷ 109 ∷ 44 ∷ 46 ∷ 47
    ∷ 0 ∷ 42 ∷ 0 ∷ 32 ∷ 0 ∷ 0 ∷ 0 ∷ 0 ∷ 0 ∷ 0 ∷ 0 ∷ 0 ∷ 0 ∷ 0 ∷ 0 ∷ 0 ∷ 0 ∷ 0 ∷ 0 ∷ 0 ∷ 45 ∷ 0 ∷ 0
    ∷ 0 ∷ 43 ∷ 0 ∷ 0 ∷ 0 ∷ 0 ∷ 0 ∷ 0 ∷ 0 ∷ 0 ∷ 0 ∷ 0 ∷ 0 ∷ 0 ∷ 27 ∷ 33 ∷ 64 ∷ 35 ∷ 36 ∷ 37 ∷ 94 ∷ 38
    ∷ 42 ∷ 40 ∷ 41 ∷ 95 ∷ 43 ∷ 8 ∷ 9 ∷ 81 ∷ 87 ∷ 69 ∷ 82 ∷ 84 ∷ 89 ∷ 85 ∷ 73 ∷ 79 ∷ 80 ∷ 123 ∷ 125
    ∷ 10 ∷ 0 ∷ 65 ∷ 83 ∷ 68 ∷ 70 ∷ 71 ∷ 72 ∷ 74 ∷ 75 ∷ 76 ∷ 58 ∷ 34 ∷ 126 ∷ 0 ∷ 124 ∷ 90 ∷ 88 ∷ 67
    ∷ 86 ∷ 66 ∷ 78 ∷ 77 ∷ 60 ∷ 62 ∷ 63 ∷ 0 ∷ 42 ∷ 0 ∷ 32 ∷ 0 ∷ 0 ∷ 0 ∷ 0 ∷ 0 ∷ 0 ∷ 0 ∷ 0 ∷ 0 ∷ 0 ∷ 0
    ∷ 0 ∷ 0 ∷ 0 ∷ 0 ∷ 0 ∷ 45 ∷ 0 ∷ 0 ∷ 0 ∷ 43 ∷ 0 ∷ 0 ∷ 0 ∷ 0 ∷ 0 ∷ 0 ∷ 0 ∷ 0 ∷ 0 ∷ 0 ∷ 0 ∷ []

unfoldable pub kbdus : ℕ → ℕ
kbdus scan_code = get_or kbdus_entries scan_code 0

abbrev pub cur_shell : Console → Shell
cur_shell c = c.terminals c.cur_terminal

abbrev pub set_cur_shell : Console → Shell → Console
set_cur_shell c s = set_shell c c.cur_terminal s

unfoldable pub terminal_open : Console → ℕ × Console
terminal_open c = (0, set_cur_shell c (let s = cur_shell c in record s { buf_index = 0 }))

unfoldable pub terminal_close : Console → ℕ × Console
terminal_close c = (0, set_cur_shell c (let s = cur_shell c in record s { buf_index = 0 }))

-- `view` is memory as the caller sees it.
unfoldable pub terminal_write : Mem → ℕ → ℕ → ℕ → Console → ℕ × Console
terminal_write view fd buf nbytes c =
    if (buf == 0) || signed_lt nbytes 0
    then (minus_one, c)
    else (nbytes, putc_from nbytes view buf c)

-- `terminal_read` up to its wait: the guard, and the flag that is cleared.
unfoldable pub terminal_read_start : ℕ → ℕ → ℕ → Console → Option Console
terminal_read_start cur_sched_term buf nbytes c =
    if (buf == 0) || signed_lt nbytes 0
    then none
    else some (
        set_shell c cur_sched_term
          (let s = c.terminals cur_sched_term in record s { line_buffer_flag = 0 }))

abbrev pub terminal_read_ready : ℕ → Console → Bool
terminal_read_ready cur_sched_term c = not ((c.terminals cur_sched_term).line_buffer_flag == 0)

-- The bytes that `memcpy` moves out of the line buffer.
unfoldable pub buffer_bytes : ℕ → ℕ → (ℕ → ℕ) → List ℕ
buffer_bytes zero i f = []
buffer_bytes (suc n) i f = f i ∷ buffer_bytes n (i + 1) f

-- After the wait: the result, the bytes that go to the caller's buffer, and the console.
unfoldable pub terminal_read_finish : ℕ → Console → ℕ × List ℕ × Console
terminal_read_finish nbytes c =
    let s = cur_shell c in
    let bytes_read = if signed_lt nbytes s.buf_index then nbytes else s.buf_index in
    (bytes_read, buffer_bytes bytes_read 0 s.kb_buf, set_cur_shell c (record s { buf_index = 0 }))

unfoldable pub caps_and_shift : Shell → Bool
caps_and_shift s = (s.caps_lock == 1) && (s.shift_pressed == 1)

unfoldable pub caps_no_shift : Shell → Bool
caps_no_shift s = (s.caps_lock == 1) && not (s.shift_pressed == 1)

abbrev pub between : ℕ → ℕ → ℕ → Bool
between lo hi k = leb lo k && leb k hi

unfoldable pub in_char_range : ℕ → Bool
in_char_range scan_code =
    between 16 25 scan_code || between 30 38 scan_code || between 44 50 scan_code

-- The guard of `print_scancode`.
unfoldable pub refuses : Shell → ℕ → Bool
refuses s scan_code =
    (not (signed_lt s.buf_index (buf_length - 1)) && not (scan_code == 28))
    || not (s.line_buffer_flag == 0)

unfoldable pub print_scancode : ℕ → Console → Console
print_scancode scan_code c =
    let c1 = putc (kbdus scan_code) c in
    let s = cur_shell c1 in
    if refuses (cur_shell c) scan_code
    then c
    else set_cur_shell c1 (record s {
      kb_buf = update s.kb_buf s.buf_index (kbdus scan_code);
      buf_index = u32 (s.buf_index + 1);
    })

abbrev pub is_function_key : ℕ → Bool
is_function_key scan_code = (scan_code == 59) || (scan_code == 60) || (scan_code == 61)

-- The rounds of a loop up to a signed bound.
abbrev pub rounds_to : ℕ → ℕ
rounds_to n = if signed_lt 0 n then n else 0

-- Control-L: the screen is cleared, and the line buffer is printed again.
unfoldable pub redraw : Console → Console
redraw c =
    let c1 = reset_screen (clear c) in
    putc_from (rounds_to (cur_shell c1).buf_index) (cur_shell c1).kb_buf 0 c1

unfoldable pub erase : Console → Console
erase c =
    let s = cur_shell c in
    if not (signed_lt 0 s.buf_index)
    then c
    else back_space (set_cur_shell c (record s { buf_index = sub32 s.buf_index 1 }))

unfoldable pub end_line : ℕ → Console → Console
end_line scan_code c =
    let c1 = print_scancode scan_code c in
    set_cur_shell c1 (let s = cur_shell c1 in record s { line_buffer_flag = 1 })

-- The last four branches of `recent_release_exec`: which entry of the table a key stands for.
unfoldable pub shifted_code : Shell → ℕ → ℕ
shifted_code s scan_code =
    if caps_and_shift s && in_char_range scan_code
    then scan_code
    else if caps_no_shift s && in_char_range scan_code
    then u8 (scan_code + cap_offset)
    else if s.shift_pressed == 1
    then u8 (scan_code + cap_offset)
    else scan_code

unfoldable pub recent_release_exec : ℕ → Console → Console
recent_release_exec scan_code c =
    let s = cur_shell c in
    if scan_code == 29
    then set_cur_shell c (record s { ctrl_pressed = 1 })
    else if (s.alt_pressed == 1) && is_function_key scan_code
    then (change_shell (scan_code - 59) c).1
    else if (scan_code == 38) && (s.ctrl_pressed == 1)
    then redraw c
    else if scan_code == 14
    then erase c
    else if scan_code == 56
    then set_cur_shell c (record s { alt_pressed = 1 })
    else if scan_code == 28
    then end_line scan_code c
    else if (scan_code == 42) || (scan_code == 54)
    then set_cur_shell c (record s { shift_pressed = 1 })
    else if scan_code == 58
    then set_cur_shell c (record s { caps_lock = u8 ((s.caps_lock + 1) % 2) })
    else print_scancode (shifted_code s scan_code) c

unfoldable pub after_release_exec : ℕ → Console → Console
after_release_exec scan_code c =
    let s = cur_shell c in
    if (scan_code == 42 + recent_release) || (scan_code == 54 + recent_release)
    then set_cur_shell c (record s { shift_pressed = 0 })
    else if scan_code == 29 + recent_release
    then set_cur_shell c (record s { ctrl_pressed = 0 })
    else if scan_code == 184
    then set_cur_shell c (record s { alt_pressed = 0 })
    else c

abbrev pub irq_num : ℕ
irq_num = 1

unfoldable pub keyboard_init : Pic → Pic
keyboard_init p = enable_irq irq_num p

abbrev pub is_ignored : ℕ → Bool
is_ignored scan_code = between cap_offset 128 scan_code || leb (cap_offset + 128) scan_code

-- The middle of the handler, in the address space where video memory is the viewed screen.
unfoldable pub handle_key : ℕ → Console → Console
handle_key scan_code c =
    let p = set_page_table1_entry c.paging video_mem_addr video_mem_addr in
    let c1 = record c { print_terminal = c.cur_terminal; paging = p } in
    if ltb scan_code recent_release
    then recent_release_exec scan_code c1
    else after_release_exec scan_code c1

-- Video memory and printing go back to the terminal that is scheduled.
unfoldable pub restore_video : ℕ → ℕ → Console → Console
restore_video cur_sched_term video_buffer c =
    let p = set_page_table1_entry c.paging video_mem_addr video_buffer in
    record c {
      print_terminal = cur_sched_term;
      paging = if cur_sched_term == c.cur_terminal then c.paging else p;
    }

-- `video_buffer` is that of the scheduled terminal, and `scan_code` what port 0x60 gives.
unfoldable pub keyboard_interrupt_handler : ℕ → ℕ → ℕ → Pic × Console → Pic × Console
keyboard_interrupt_handler cur_sched_term video_buffer scan_code (p, c) =
    let p1 = enable_irq irq_num (send_eoi irq_num (disable_irq irq_num p)) in
    if is_ignored scan_code
    then (p1, c)
    else (p1, restore_video cur_sched_term video_buffer (handle_key scan_code c))
