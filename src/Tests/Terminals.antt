-- ===== src/Tests/Terminals.antt =====
-- Three terminals, the first one viewed and printing.
use ece391os.Prelude.{ℕ, ◌+◌, ◌*◌, ◌%◌, ◌≡◌, arith, []}
use ece391os.Paging.{Paging, page_size}
use ece391os.Pic.{Pic}
use ece391os.Console.{Shell, Console, physical, scroll_up, putc, change_shell}
use ece391os.Console.Scroll.{frame, scrolled, scroll_up-scrolled}
use ece391os.Console.Screen.{IsOnScreen, position, IsConfined, putc-IsConfined}
use ece391os.Console.Position.{printed_mem, putc-position}
use ece391os.Console.Switch.{HasPages, switched, save_page, change_shell-switched}
use ece391os.Keyboard.{keyboard_interrupt_handler, terminal_read_finish}
use ece391os.Keyboard.Read.{IsDelivered, terminal_read_finish-IsDelivered}
use ece391os.Paging.{init_page_table}
use ece391os.Paging.Init.{init_page_table_lem}
use ece391os.Keyboard.Line.{IsReady}
use ece391os.Keyboard.Keys.{keyboard_interrupt_handler-IsReady}

abbrev pub flat : Paging
flat = record {
  page_directory = λ i. 0;
  first_page_table = λ i. i * page_size + 7;
  second_page_table = λ i. i * page_size + 7;
}

abbrev pub shell_at : ℕ → Shell
shell_at t = record {
  vid_mem = 0xb9000 + t * page_size;
  x = 3;
  y = 24;
  kb_buf = λ i. 97;
  line_buffer_flag = 0;
  buf_index = 2;
  shift_pressed = 0;
  caps_lock = 0;
  ctrl_pressed = 0;
  alt_pressed = 0;
  vid_map = 0;
}

abbrev pub console : Console
console = record {
  terminals = shell_at;
  cur_terminal = 0;
  print_terminal = 0;
  current_line = 0;
  paging = flat;
  mem = λ a. a % 256;
  out = [];
}

abbrev pub pic : Pic
pic = record { master_mask = 0xf9; slave_mask = 0xff; out = [] }

shell-IsOnScreen : (t : ℕ) → IsOnScreen (shell_at t)
shell-IsOnScreen t = record { column = omega arith; row = omega arith }

console-HasPages : HasPages console
unfolding frame physical
console-HasPages = record { video = λ t h. omega arith; saves = λ t u ht hu ne. omega arith }

console-IsReady : IsReady console
console-IsReady = record {
  lines = λ t h. record {
    ended = omega arith;
    running = λ f. omega arith;
    on_screen = shell-IsOnScreen t;
    typed = omega arith;
  };
  viewed = omega arith;
}

-- Line feed in the last row.
putc-position_example :
    let s' = (putc 10 console).terminals 0 in
    IsOnScreen s'
    × (position s' ≡ 1920)
    × ((a : ℕ) → (putc 10 console).mem a ≡ printed_mem flat console.mem 1999 10 a)
putc-position_example = putc-position 10 console (shell-IsOnScreen 0)

putc-IsConfined_example : IsConfined console 0 (putc 65 console)
putc-IsConfined_example = putc-IsConfined 65 console (shell-IsOnScreen 0)

scroll_up-scrolled_example : (scroll_up console).mem 0xb8000 ≡ scrolled flat (λ a. a % 256) 0xb8000
scroll_up-scrolled_example = scroll_up-scrolled console 0xb8000

change_shell-switched_example :
    let c' = (change_shell 2 console).1 in
    ((change_shell 2 console).0 ≡ 0)
    × (c'.cur_terminal ≡ 2)
    × (c'.terminals ≡ shell_at)
    × (c'.paging ≡ flat)
    × ((a : ℕ)
        → c'.mem a
          ≡ switched (λ a. a % 256) (frame flat) (save_page console 0) (save_page console 2) a)
change_shell-switched_example =
    change_shell-switched console 2 console-HasPages (omega arith) (omega arith)

-- The key `a` is pressed while terminal 1 is scheduled.
keyboard_interrupt_handler-IsReady_example :
    IsReady (keyboard_interrupt_handler 1 0xba000 30 (pic, console)).1
keyboard_interrupt_handler-IsReady_example =
    keyboard_interrupt_handler-IsReady 1 0xba000 30 pic console console-IsReady

terminal_read_finish-IsDelivered_example :
    let (n, bytes, c') = terminal_read_finish 100 console in
    (n ≡ 2) × IsDelivered console n bytes c'
terminal_read_finish-IsDelivered_example =
    terminal_read_finish-IsDelivered 100 console console-IsReady (omega arith)

init_page_table_lem_example :
    ((init_page_table flat).first_page_table 184 ≡ 0xb8003)
    × ((init_page_table flat).second_page_table 184 ≡ 0xb8002)
init_page_table_lem_example = init_page_table_lem flat 184 (omega arith)
