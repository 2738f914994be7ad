-- ===== src/Rtc.antt =====
-- student-distrib/rtc.c: the real-time clock at 1024 Hz, shared by three terminals that each see
-- interrupts at their own rate. The print under `rtc_test_flag`, which only tests.c sets, is left
-- out.
pub mod Rate
use ece391os.Prelude.{
  ℕ, zero, suc, ◌+◌, ◌-◌, ◌*◌, ◌/◌, ◌%◌, ◌^◌, ◌≤◌, ◌<◌, ◌≡◌, ◌≢◌, ◌↔◌, ◌⊎◌, inl, inr, refl, sym, ap,
  ◌∙◌, arith, Bool, true, false, ◌&&◌, ◌||◌, not, Option, none, some, if◌then◌else◌, ltb, leb, ◌==◌,
  ==_iff, Bool-cases, lt→ltb, le→ltb, ltb→lt, ltb→le, lt→leb, le→leb, leb→le, u8, u32, bit_and,
  bit_or, update, minus_one, signed_lt, sub32, length, get_or, set, List, [], ◌∷◌, ◌++◌,
}
use ece391os.Memory.{Mem, load32}
use ece391os.Pic.{Pic, Ports, outb, enable_irq, disable_irq, send_eoi}

-- The three arrays, by terminal; `count` and `frequencies` hold `int32_t`.
pub record Rtc : Type 0 where
  pub interrupt_flags : ℕ → ℕ
  pub count : ℕ → ℕ
  pub frequencies : ℕ → ℕ

abbrev pub max_freq : ℕ
max_freq = 1024

abbrev pub rtc_irq_num : ℕ
rtc_irq_num = 8

-- `prev_a` and `prev_b` are what the clock's registers A and B gave; 6 stands for 1024 Hz.
unfoldable pub rtc_init : ℕ → ℕ → Pic → Pic
rtc_init prev_a prev_b p =
    let p1 = record p {
      out = outb (bit_or (bit_and prev_a 0xf0) 0x06) 0x71 (
          outb 0x8a 0x70 (
            outb 0x8a 0x70
              (outb (bit_or prev_b 0x40) 0x71 (outb 0x8b 0x70 (outb 0x8b 0x70 p.out)))));
    } in
    enable_irq rtc_irq_num p1

-- One round of the loop: `count[i]++ >= frequencies[i] - 1`, on signed words.
unfoldable pub tick : Rtc → ℕ → Rtc
tick r i =
    if signed_lt (r.count i) (sub32 (r.frequencies i) 1)
    then record r { count = update r.count i (u32 (r.count i + 1)) }
    else record r { interrupt_flags = update r.interrupt_flags i 1; count = update r.count i 0 }

unfoldable pub tick_from : ℕ → ℕ → Rtc → Rtc
unfolding tick
tick_from zero i r = r
tick_from (suc n) i r = tick_from n (i + 1) (tick r i)

-- What the handler does to the controllers and to the ports: mask, end of interrupt, the read of
-- register C that lets the clock go on, unmask.
unfoldable pub rtc_interrupt_handler : Pic × Rtc → Pic × Rtc
unfolding tick_from
rtc_interrupt_handler (p, r) =
    let p1 = send_eoi rtc_irq_num (disable_irq rtc_irq_num p) in
    (enable_irq rtc_irq_num (record p1 { out = outb 0x8c 0x70 p1.out }), tick_from 3 0 r)

-- The descriptor calls, for the terminal `cur_sched_term`.
unfoldable pub rtc_open : ℕ → Rtc → ℕ × Rtc
rtc_open cur_sched_term r =
    (0, record r { frequencies = update r.frequencies cur_sched_term (max_freq / 2) })

unfoldable pub rtc_close : ℕ → ℕ
rtc_close fd = 0

-- The `switch`: the rate for a frequency, `none` for the default case.
unfoldable pub rate_of : ℕ → Option ℕ
rate_of freq =
    if freq == 2
    then some (max_freq / 2)
    else if freq == 4
    then some (max_freq / 4)
    else if freq == 8
    then some (max_freq / 8)
    else if freq == 16
    then some (max_freq / 16)
    else if freq == 32
    then some (max_freq / 32)
    else if freq == 64
    then some (max_freq / 64)
    else if freq == 128
    then some (max_freq / 128)
    else if freq == 512
    then some (max_freq / 512)
    else if freq == 1024
    then some (max_freq / 1024)
    else none

unfoldable pub rtc_write : Mem → ℕ → ℕ → ℕ → ℕ → Rtc → ℕ × Rtc
rtc_write m cur_sched_term fd buf nbytes r =
    if not (nbytes == 4) || (buf == 0) then (minus_one, r) else elim (rate_of (load32 m buf)) [
      | none ↦ (minus_one, r)
      | some rate ↦ (0, record r { frequencies = update r.frequencies cur_sched_term rate })
    ]

-- `rtc_read` clears the flag of the caller's terminal, and then waits: it is over at the first
-- interrupt after which the flag is set.
unfoldable pub rtc_read_start : ℕ → Rtc → Rtc
rtc_read_start cur_sched_term r = record r {
  interrupt_flags = update r.interrupt_flags cur_sched_term 0;
}

abbrev pub rtc_read_done : ℕ → Rtc → Bool
rtc_read_done cur_sched_term r = not (r.interrupt_flags cur_sched_term == 0)

-- The wait, by the interrupts that arrive: how many of them it takes, or none within `n`.
unfoldable pub rtc_read_wait : ℕ → ℕ → Rtc → Option (ℕ × Rtc)
rtc_read_wait zero term r = if rtc_read_done term r then some (0, r) else none
rtc_read_wait (suc n) term r =
    let later : Option (ℕ × Rtc) = elim (rtc_read_wait n term (tick_from 3 0 r)) [
      | none ↦ none
      | some (k, r') ↦ some (k + 1, r')
    ] in
    if rtc_read_done term r then some (0, r) else later
