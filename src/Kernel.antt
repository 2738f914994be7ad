-- ===== src/Kernel.antt =====
-- student-distrib/kernel.c from the call of `init_paging` up to `launch`, and the events that the
-- running kernel meets: interrupts of the timer, the keyboard and the clock, and the calls of
-- programs on their terminal.
pub mod Boot
pub mod Lines
pub mod Interrupts
pub mod Calls
pub mod Launch
pub mod Run
use ece391os.Prelude.{
  ℕ, zero, suc, ◌+◌, ◌-◌, ◌*◌, ◌/◌, ◌%◌, ◌^◌, ◌≤◌, ◌<◌, ◌≡◌, ◌≢◌, ◌↔◌, ◌⊎◌, inl, inr, refl, sym, ap,
  ◌∙◌, arith, Bool, true, false, ◌&&◌, ◌||◌, not, Option, none, some, if◌then◌else◌, ltb, leb, ◌==◌,
  ==_iff, ==_refl, Bool-cases, lt→ltb, le→ltb, ltb→lt, ltb→le, lt→leb, le→leb, leb→le, u8, u32,
  bit_and, bit_or, update, minus_one, signed_lt, sub32, length, get_or, set, List, [], ◌∷◌, ◌++◌,
}
use ece391os.Memory.{Mem}
use ece391os.Pic.{Pic, i8259_init, enable_irq}
use ece391os.Paging.{init_paging}
use ece391os.Rtc.{Rtc, rtc_init, rtc_interrupt_handler}
use ece391os.Console.{Console, init_shell, clear, reset_screen}
use ece391os.Keyboard.{
  buf_length, keyboard_init, keyboard_interrupt_handler, terminal_write, terminal_read_start,
  terminal_read_finish,
}
use ece391os.Sched.{Machine, Sched, current, pit_init, pit_interrupt_handler}
use ece391os.Process.{Sys}
use ece391os.Syscalls.Execute.{Frame, enters, launch}

-- The linker's addresses of the two page tables, and what the clock's registers A and B gave.
pub record Board : Type 0 where
  pub first_table : ℕ
  pub second_table : ℕ
  pub prev_a : ℕ
  pub prev_b : ℕ

abbrev pub slave_line : ℕ
slave_line = 2

-- `entry` from `init_paging` to `reset_screen`.
unfoldable pub initialize : Board → Machine → Machine
initialize b m =
    let c = m.console in
    let c1 = record c { paging = init_paging b.first_table b.second_table c.paging } in
    let p1 = rtc_init b.prev_a b.prev_b (enable_irq slave_line (i8259_init m.pic)) in
    let m1 = pit_init (record m { pic = p1; console = c1 }) in
    record m1 { pic = keyboard_init m1.pic; console = reset_screen (clear (init_shell m1.console)) }

-- The keyboard's interrupt, for the terminal that is scheduled.
unfoldable pub keyboard_event : ℕ → Machine → Machine
keyboard_event scan_code m =
    let s = m.sched in
    let r =
      keyboard_interrupt_handler s.cur_sched_term (current s).video_buffer scan_code
        (m.pic, m.console) in
    record m { pic = r.0; console = r.1 }

-- One step of the kernel; `esp` and `ebp` are the registers that the timer's interrupt saves. A
-- read is one that starts on a line that is not full: on a full one, which has ended, it clears
-- the flag, and the next end of a line would pass the buffer.
pub data Step : Machine → Machine → Type 0 where
  timer : (m : Machine) (esp ebp : ℕ) → Step m (pit_interrupt_handler esp ebp m).1
  key : (m : Machine) (scan_code : ℕ) → Step m (keyboard_event scan_code m)
  clock : (m : Machine) (r : Rtc) → Step m (record m { pic = (rtc_interrupt_handler (m.pic, r)).0 })
  writes :
      (m : Machine) (view : Mem) (fd buf nbytes : ℕ)
      → Step m (record m { console = (terminal_write view fd buf nbytes m.console).1 })
  reads :
      (m : Machine) (buf nbytes : ℕ) (c : Console)
      → (m.console.terminals m.sched.cur_sched_term).buf_index < buf_length
      → terminal_read_start m.sched.cur_sched_term buf nbytes m.console ≡ some c
      → Step m (record m { console = c })
  takes :
      (m : Machine) (nbytes : ℕ)
      → Step m (record m { console = (terminal_read_finish nbytes m.console).2 })

-- The states from the first program's start on.
pub data Reached (b : Board) (m0 : Machine) (f : Frame) : Machine → Type 0 where
  launched :
      (s s' : Sys) (addr : ℕ)
      → s.machine ≡ initialize b m0
      → launch f s ≡ some (enters addr, s')
      → Reached b m0 f s'.machine
  steps : (m m' : Machine) → Reached b m0 f m → Step m m' → Reached b m0 f m'
