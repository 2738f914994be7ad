-- ===== src/Tests/Devices.antt =====
-- The interrupt controllers, the clock and the schedule.
use ece391os.Prelude.{
  ℕ, ◌+◌, ◌*◌, ◌/◌, ◌<◌, ◌≡◌, refl, arith, true, ◌&&◌, not, if◌then◌else◌, ◌==◌, update, minus_one,
  [], ◌∷◌,
}
use ece391os.Memory.{Mem, load32}
use ece391os.Pic.{Pic, i8259_init, enable_irq, disable_irq, send_eoi}
use ece391os.Pic.Mask.{is_masked, IsSynced, Pic-IsSynced}
use ece391os.Rtc.{Rtc, max_freq, rtc_write, rtc_read_start, rtc_read_wait}
use ece391os.Rtc.Rate.{IsClock, Served, rtc_read_wait-Served, is_rate, rtc_write_lem}
use ece391os.Paging.{video_mem_addr, page_size}
use ece391os.Console.Scroll.{frame}
use ece391os.Sched.{SchedNode, Machine, resumes, pit_interrupt_handler}
use ece391os.Sched.RoundRobin.{
  turn, IsLaidOut, screen_of, user_frame, three_turns, pit_interrupt_handler-frame,
}
use ece391os.Tests.Terminals.{console, flat, pic}

abbrev synced : Pic
synced = record { master_mask = 0xf9; slave_mask = 0xff; out = (0xff, 0xa1) ∷ (0xf9, 0x21) ∷ [] }

synced-IsSynced : IsSynced synced 0
synced-IsSynced = record { bytes = (omega arith, omega arith); master = refl; slave = refl }

Pic-IsSynced_example :
    IsSynced (i8259_init synced) 0
    × ((line : ℕ) → line < 16 → is_masked (i8259_init synced) line ≡ true)
    × IsSynced (enable_irq 8 synced) 0
    × IsSynced (disable_irq 8 synced) 0
    × IsSynced (send_eoi 8 synced) 0
Pic-IsSynced_example = Pic-IsSynced synced 0 8 (omega arith) synced-IsSynced

-- Terminal 1 at 2 Hz, and 100 of its 512 interrupts past.
abbrev pub clock : Rtc
clock = record { interrupt_flags = λ t. 1; count = λ t. 100; frequencies = λ t. 512 }

clock-IsClock : IsClock clock 1
clock-IsClock = (omega arith, omega arith, omega arith)

rtc_read_wait-Served_example : Served clock 1 412 (rtc_read_wait 1000 1 (rtc_read_start 1 clock))
rtc_read_wait-Served_example =
    rtc_read_wait-Served 1000 clock 1 (omega arith) clock-IsClock (omega arith) (omega arith)

-- 512 Hz: 0x200 at address 100.
abbrev request : Mem
request a = if a == 101 then 2 else 0

rtc_write_lem_example : rtc_write request 1 2 100 4 clock ≡ (
    if (4 == 4) && not (100 == 0) && is_rate (load32 request 100)
    then (
      0,
      record clock { frequencies = update clock.frequencies 1 (max_freq / load32 request 100) },
    )
    else (minus_one, clock))
unfolding load32
rtc_write_lem_example = rtc_write_lem request 1 2 100 4 clock (omega arith)

abbrev pub node : ℕ → SchedNode
node t = record {
  process_num = t + 1;
  video_buffer = video_mem_addr + (t + 1) * page_size;
  vid_map = 1;
  esp = 0x7f_0000 + t;
  ebp = 0x7f_8000 + t;
}

abbrev pub machine : Machine
machine = record {
  pic = pic;
  console = console;
  sched = record { prev_sched_term = 1; cur_sched_term = 2; sched_arr = node; esp0 = 0x80_0000 };
}

machine-IsLaidOut : IsLaidOut machine.sched
machine-IsLaidOut t h = refl

three_turns_example :
    let last = pit_interrupt_handler 9 10 (turn (7, 8) (turn (5, 6) machine)) in
    (last.0 ≡ resumes 5 6) × (last.1.sched.cur_sched_term ≡ 2)
three_turns_example =
    three_turns machine (5, 6) (7, 8) (9, 10) (omega arith) (omega arith) (omega arith)

pit_interrupt_handler-frame_example :
    let m' = (pit_interrupt_handler 5 6 machine).1 in
    let t = m'.sched.cur_sched_term in
    (frame m'.console.paging ≡ screen_of t m'.console.cur_terminal)
    × (user_frame m'.console.paging
        ≡ (if (node t).vid_map == 1 then screen_of t m'.console.cur_terminal else user_frame flat))
    × IsLaidOut m'.sched
    × (t < 3)
pit_interrupt_handler-frame_example =
    pit_interrupt_handler-frame 5 6 machine (omega arith) (omega arith) machine-IsLaidOut
