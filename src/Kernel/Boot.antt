-- ===== src/Kernel/Boot.antt =====
-- What `entry` of student-distrib/kernel.c sets up.
use ece391os.Prelude.{
  ℕ, ◌*◌, ◌/◌, ◌<◌, ◌≡◌, ◌≢◌, sym, ap, ◌∙◌, arith, Bool, ◌&&◌, ◌||◌, not, ◌==◌, minus_one, [],
}
use ece391os.Pic.{Pic, outb, i8259_init, enable_irq}
use ece391os.Pic.Mask.{is_masked, IsSynced, Pic-IsSynced, irq_lines}
use ece391os.Paging.{Paging, video_mem_addr, page_size, init_page_directory, init_paging}
use ece391os.Paging.Init.{init_page_table_lem}
use ece391os.Rtc.{rtc_init}
use ece391os.Console.{Shell, Console, init_shell, move_cursor, clear, reset_screen}
use ece391os.Console.Scroll.{frame}
use ece391os.Keyboard.{keyboard_init}
use ece391os.Keyboard.Line.{IsLine, IsReady}
use ece391os.Sched.{Machine, sched_size, pit_init}
use ece391os.Sched.RoundRobin.{IsLaidOut, screen_of}
use ece391os.Kernel.{Board, initialize}

-- The lines that the kernel uses: timer, keyboard, second controller and clock.
abbrev pub is_used : ℕ → Bool
is_used line = (line == 0) || (line == 1) || (line == 2) || (line == 8)

abbrev pub HasLines : Pic → Type 0
HasLines p = IsSynced p 0 × ((line : ℕ) → line < 16 → is_masked p line ≡ not (is_used line))

-- The kernel in order: the lines of the terminals, the schedule, the output that goes to the
-- scheduled terminal, on the screen exactly if that one is viewed, and the interrupts that are let
-- through.
pub record IsUp (m : Machine) : Type 0 where
  pub ready : IsReady m.console
  pub turn : m.sched.cur_sched_term < sched_size
  pub laid : IsLaidOut m.sched
  pub prints : m.console.print_terminal ≡ m.sched.cur_sched_term
  pub shows : frame m.console.paging ≡ screen_of m.sched.cur_sched_term m.console.cur_terminal
  pub lines : HasLines m.pic

-- The kernel in order, once the schedule has started.
pub record IsRunning (m : Machine) : Type 0 where
  pub up : IsUp m
  pub started : m.sched.prev_sched_term ≢ minus_one

-- The static initial values that `entry` relies on.
pub record IsPoweredOn (m : Machine) : Type 0 where
  pub viewed : m.console.cur_terminal ≡ 0
  pub printed : m.console.print_terminal ≡ 0
  pub scheduled : m.sched.cur_sched_term ≡ 0
  pub masks : (m.pic.master_mask ≡ 0) × (m.pic.slave_mask ≡ 0)
  pub silent : m.pic.out ≡ []

-- Line `irq` is let through, the others stay as they were.
abbrev Opens : Pic → ℕ → Pic → Type 0
Opens p irq q =
    IsSynced q 0
    × ((line : ℕ) → line < 16 → is_masked q line ≡ (not (line == irq) && is_masked p line))

enable_irq-Opens : (p : Pic) (irq : ℕ) → irq < 16 → IsSynced p 0 → Opens p irq (enable_irq irq p)
enable_irq-Opens p irq h s =
    ((Pic-IsSynced p 0 irq h s).2, λ line hl. (irq_lines p irq line s.bytes h hl).1)

-- What other devices are told leaves the controllers as they are.
pub told :
    (p : Pic) (v port : ℕ)
    → port ≢ 0x21
    → port ≢ 0xa1
    → IsSynced p 0
    → IsSynced (record p { out = outb v port p.out }) 0
told p v port h1 h2 s = record {
  bytes = s.bytes;
  master = ground (arith, s.master);
  slave = ground (arith, s.slave);
}

rtc_init-Opens : (a b : ℕ) (p : Pic) → IsSynced p 0 → Opens p 8 (rtc_init a b p)
unfolding rtc_init
rtc_init-Opens a b p s = enable_irq-Opens _ 8 (omega arith) (
    told _ _ 0x71 (omega arith) (omega arith) (
      told _ _ 0x70 (omega arith) (omega arith) (
        told _ _ 0x70 (omega arith) (omega arith) (
          told _ _ 0x71 (omega arith) (omega arith) (
            told _ _ 0x70 (omega arith) (omega arith)
              (told p 0x8b 0x70 (omega arith) (omega arith) s))))))

pit_init-Opens : (m : Machine) → IsSynced m.pic 0 → Opens m.pic 0 (pit_init m).pic
unfolding pit_init
pit_init-Opens m s = enable_irq-Opens _ 0 (omega arith) (
    told _ _ 0x40 (omega arith) (omega arith) (
      told _ _ 0x40 (omega arith) (omega arith)
        (told m.pic 0x36 0x43 (omega arith) (omega arith) s)))

initialize-HasLines : (b : Board) (m : Machine) → IsSynced m.pic 0 → HasLines (initialize b m).pic
unfolding initialize keyboard_init
initialize-HasLines b m s =
    let all = Pic-IsSynced m.pic 0 0 (omega arith) s in
    let slave = enable_irq-Opens (i8259_init m.pic) 2 (omega arith) all.0 in
    let clock = rtc_init-Opens b.prev_a b.prev_b _ slave.0 in
    let p1 = rtc_init b.prev_a b.prev_b (enable_irq 2 (i8259_init m.pic)) in
    let c = m.console in
    let c1 = record c { paging = init_paging b.first_table b.second_table c.paging } in
    let timer = pit_init-Opens (record m { pic = p1; console = c1 }) clock.0 in
    let keys =
      enable_irq-Opens (pit_init (record m { pic = p1; console = c1 })).pic 1 (omega arith)
        timer.0 in
    (
      keys.0,
      λ line h.
          ground
            (arith, keys.1 line h, timer.1 line h, clock.1 line h, slave.1 line h, all.1 line h),
    )

-- A terminal with nothing typed and the cursor at the start.
record IsFresh (s : Shell) : Type 0 where
  column : s.x ≡ 0
  row : s.y ≡ 0
  keys : s.buf_index ≡ 0
  flag : s.line_buffer_flag ≡ 0

IsFresh-IsLine : (s : Shell) → IsFresh s → IsLine s
IsFresh-IsLine s f = record {
  ended = omega (arith, f.keys);
  running = λ e. omega (arith, f.keys);
  on_screen = record { column = omega (arith, f.column); row = omega (arith, f.row) };
  typed = omega (arith, f.keys);
}

fresh : (c : Console) (t : ℕ) → t < 3 → IsFresh ((reset_screen (clear (init_shell c))).terminals t)
unfolding reset_screen clear init_shell move_cursor
fresh c t h = record {
  column = ground arith;
  row = ground arith;
  keys = ground arith;
  flag = ground arith;
}

init_paging-frame : (a b : ℕ) (p : Paging) → frame (init_paging a b p) ≡ video_mem_addr
unfolding init_paging frame
init_paging-frame a b p =
    let page = (init_page_table_lem (init_page_directory a b p) 184 (omega arith)).0 in
    ap (λ e. e / page_size * page_size) page

pub initialize-IsUp : (b : Board) (m : Machine) → IsPoweredOn m → IsUp (initialize b m)
unfolding initialize pit_init reset_screen clear init_shell move_cursor
initialize-IsUp b m on =
    let c = m.console in
    let c1 = record c { paging = init_paging b.first_table b.second_table c.paging } in
    record {
      ready = record {
        lines = λ t h. IsFresh-IsLine _ (fresh c1 t h);
        viewed = omega (arith, on.viewed);
      };
      turn = omega (arith, on.scheduled);
      laid = λ t h. ground arith;
      prints = on.printed ∙ sym on.scheduled;
      shows =
          init_paging-frame b.first_table b.second_table c.paging
          ∙ ground (arith, on.viewed, on.scheduled);
      lines = initialize-HasLines b m (record {
        bytes = omega (arith, on.masks);
        master = rw on.silent (sym on.masks.0);
        slave = rw on.silent (sym on.masks.1);
      });
    }
