-- ===== src/Rtc/Rate.antt =====
-- The virtual clocks of student-distrib/rtc.c: each terminal sees an interrupt once in so many
-- interrupts of the device.
use ece391os.Prelude.{
  ℕ, zero, suc, ◌+◌, ◌-◌, ◌/◌, ◌%◌, ◌^◌, ◌≤◌, ◌<◌, ◌≡◌, ◌≢◌, refl, ◌∙◌, arith, Bool, true, false,
  ◌&&◌, not, Option, none, some, if◌then◌else◌, leb, ◌==◌, update, minus_one,
}
use ece391os.Prelude.Bits.{every, every_lem}
use native.Mathlib.Decide.{dec_lt}
use ece391os.Memory.{Mem, load32}
use ece391os.Rtc.{Rtc, tick, tick_from, max_freq, rate_of, rtc_write, rtc_read_start, rtc_read_wait}

-- What one interrupt of the device does to terminal `i`, which was served every `f` interrupts.
tick_other :
    (r : Rtc) (i j : ℕ)
    → j ≢ i
    → ((tick r i).count j ≡ r.count j)
      × ((tick r i).interrupt_flags j ≡ r.interrupt_flags j)
      × ((tick r i).frequencies j ≡ r.frequencies j)
unfolding tick
tick_other r i j ne = ground arith

-- The state of terminal `j` after one interrupt, from its own count and rate.
pub record Ticked (r : Rtc) (j : ℕ) (r' : Rtc) : Type 0 where
  pub rate : r'.frequencies j ≡ r.frequencies j
  pub fired : (r.frequencies j ≤ r.count j + 1) → (r'.interrupt_flags j ≡ 1) × (r'.count j ≡ 0)
  pub waited :
      (r.count j + 1 < r.frequencies j)
      → (r'.interrupt_flags j ≡ r.interrupt_flags j) × (r'.count j ≡ r.count j + 1)

-- Counts and rates are non-negative `int32_t`, and the rate is not 0.
abbrev pub IsClock : Rtc → ℕ → Type 0
IsClock r j = (r.count j < 2 ^ 31 - 1) × (0 < r.frequencies j) × (r.frequencies j < 2 ^ 31)

tick-Ticked : (r : Rtc) (j : ℕ) → IsClock r j → Ticked r j (tick r j)
unfolding tick
tick-Ticked r j c = ground arith

-- One interrupt of the device, for each of the three terminals with a positive rate: it sets the
-- terminal's flag and takes its count back to 0 if the count reaches the rate, else it adds one
-- to the count; the rate stays.
pub tick_from-Ticked : (r : Rtc) (j : ℕ) → j < 3 → IsClock r j → Ticked r j (tick_from 3 0 r)
unfolding tick_from
tick_from-Ticked r zero h c =
    ground (arith, tick-Ticked r 0 c, tick_other (tick r 0) 1 0, tick_other (tick (tick r 0) 1) 2 0)
tick_from-Ticked r (suc zero) h c =
    ground (arith, tick_other r 0 1, tick-Ticked (tick r 0) 1, tick_other (tick (tick r 0) 1) 2 1)
tick_from-Ticked r (suc (suc zero)) h c =
    ground (arith, tick_other r 0 2, tick_other (tick r 0) 1 2, tick-Ticked (tick (tick r 0) 1) 2)
tick_from-Ticked r (suc (suc (suc j))) h c = absurd (omega arith)

-- How a wait ends: after `n` interrupts, with the count of the terminal back at 0 and the same
-- rate.
abbrev pub Served : Rtc → ℕ → ℕ → Option (ℕ × Rtc) → Type 0
Served r j n out =
    (r' : Rtc) × (out ≡ some (n, r')) × (r'.count j ≡ 0) × (r'.frequencies j ≡ r.frequencies j)

wait_ready : (n : ℕ) (r : Rtc) (j : ℕ) → r.interrupt_flags j ≡ 1 → rtc_read_wait n j r ≡ some (0, r)
unfolding rtc_read_wait
wait_ready zero r j e = rw e
wait_ready (suc n) r j e = rw e

wait_lem :
    (n : ℕ) (r : Rtc) (j : ℕ)
    → j < 3
    → IsClock r j
    → r.interrupt_flags j ≡ 0
    → r.count j < r.frequencies j
    → r.frequencies j - r.count j ≤ n
    → Served r j (r.frequencies j - r.count j) (rtc_read_wait n j r)
unfolding rtc_read_wait
wait_lem zero r j h c e lt le = absurd (omega arith)
wait_lem (suc n) r j h c e lt le = elim (dec_lt (r.count j + 1) (r.frequencies j)) [
  | yes more ↦
      let (r', run, reset, kept) =
        wait_lem n r1 j h (ground (arith, ticked)) (ground (arith, ticked)) (ground (arith, ticked))
          (ground (arith, ticked)) in
      (r', ground (arith, run, ticked), reset, kept ∙ ticked.rate)
  | no last ↦
      let fires : r.frequencies j ≤ r.count j + 1 = omega arith in
      (
        r1,
        ground (arith, wait_ready n r1 j, ticked.fired fires),
        (ticked.fired fires).1,
        ticked.rate,
      )
]
  where
    r1 : Rtc
    r1 = tick_from 3 0 r

    ticked : Ticked r j r1
    ticked = tick_from-Ticked r j h c

-- `rtc_read` of a terminal whose count is below its rate returns after exactly as many
-- interrupts of the device as are missing to the rate, with the count back at 0 and the rate
-- kept.
pub rtc_read_wait-Served :
    (n : ℕ) (r : Rtc) (j : ℕ)
    → j < 3
    → IsClock r j
    → r.count j < r.frequencies j
    → r.frequencies j - r.count j ≤ n
    → Served r j (r.frequencies j - r.count j) (rtc_read_wait n j (rtc_read_start j r))
unfolding rtc_read_start
rtc_read_wait-Served n r j h c lt le =
    wait_lem n (record r { interrupt_flags = update r.interrupt_flags j 0 }) j h c (ground arith) lt
      le

-- The frequencies that the clock is meant to have: the powers of two from 2 to 1024.
unfoldable pub is_rate : ℕ → Bool
is_rate f = leb 2 f && leb f max_freq && (max_freq % f == 0)

-- `rtc_write` has no case for 256, which is left out here.
abbrev expected_rate : ℕ → Option ℕ
expected_rate f = if is_rate f && not (f == 256) then some (max_freq / f) else none

same_rate : Option ℕ → Option ℕ → Bool
same_rate none none = true
same_rate (some a) (some b) = a == b
same_rate _ _ = false

same_rate_sound : (a b : Option ℕ) → same_rate a b ≡ true → a ≡ b
unfolding same_rate
same_rate_sound none none h = refl
same_rate_sound (some a) (some b) h = ground arith
same_rate_sound none (some b) h = cc
same_rate_sound (some a) none h = cc

rate_table : every 1025 (λ f. same_rate (rate_of f) (expected_rate f)) ≡ true
unfolding every same_rate rate_of is_rate
rate_table = refl

rate_above : (f : ℕ) → 1024 < f → rate_of f ≡ expected_rate f
unfolding rate_of is_rate
rate_above f h = ground arith

rate_of_lem : (f : ℕ) → rate_of f ≡ expected_rate f
rate_of_lem f = elim (dec_lt f 1025) [
  | yes small ↦
      same_rate_sound (rate_of f) (expected_rate f)
        (every_lem 1025 (λ g. same_rate (rate_of g) (expected_rate g)) f rate_table small)
  | no large ↦ rate_above f (omega arith)
]

-- A request for any other frequency than 256 sets the rate of the caller's terminal to 1024 divided
-- by the frequency, and returns 0, if the frequency is a power of two from 2 to 1024 in a non-null
-- buffer of four bytes; on any other call `rtc_write` returns -1 and changes nothing, so that the
-- frequency 1 is refused too.
pub rtc_write_lem :
    (m : Mem) (term fd buf nbytes : ℕ) (r : Rtc)
    → load32 m buf ≢ 256
    → rtc_write m term fd buf nbytes r ≡ (
        if (nbytes == 4) && not (buf == 0) && is_rate (load32 m buf)
        then (0, record r { frequencies = update r.frequencies term (max_freq / load32 m buf) })
        else (minus_one, r))
unfolding rtc_write
rtc_write_lem m term fd buf nbytes r ne = ground (arith, rate_of_lem (load32 m buf), ne)

-- The frequency 256 is refused, although it is a power of two from 2 to 1024.
rtc_write-refuses_256 :
    (m : Mem) (term fd buf nbytes : ℕ) (r : Rtc)
    → load32 m buf ≡ 256
    → rtc_write m term fd buf nbytes r ≡ (minus_one, r)
unfolding rtc_write
rtc_write-refuses_256 m term fd buf nbytes r e = ground (arith, rate_of_lem (load32 m buf), e)
