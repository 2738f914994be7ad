-- ===== src/Process/Pages.antt =====
-- The frames of the programs: what the directory entry that `set_page_dir_entry` writes for a
-- process shows.
use ece391os.Prelude.{
  ℕ, ◌+◌, ◌/◌, ◌≤◌, ◌<◌, ◌≡◌, ◌≢◌, refl, sym, ap, ◌∙◌, arith, Bool, true, false, ◌||◌,
  if◌then◌else◌, ◌==◌, ==_iff, bit_or,
}
use ece391os.Prelude.Bits.{every, every_lem}
use ece391os.Paging.{Paging, user_prog, set_page_dir_entry}
use ece391os.Sched.{program_of}
use ece391os.Process.{Sys, in_program, shown_frame, map_program}

-- The numbers of processes whose programs have frames of their own in the four gigabytes.
abbrev pub IsProcess : ℕ → Type 0
IsProcess n = (1 ≤ n) × (n < 1023)

-- The program of process 1 is in the frame at 8 MB, and each of the others in the next one.
abbrev pub frame_of : ℕ → ℕ
frame_of n = n + 1

entry_of : ℕ → Bool
entry_of n = (n == 0) || (bit_or (program_of n) 0x087 / 0x40_0000 == frame_of n)

entry_table : every 1023 entry_of ≡ true
unfolding every entry_of program_of
entry_table = refl

pub shown_frame-set :
    (p : Paging) (n : ℕ)
    → IsProcess n
    → shown_frame (set_page_dir_entry p user_prog (program_of n)) ≡ frame_of n
unfolding shown_frame set_page_dir_entry entry_of
shown_frame-set p n (lo, hi) =
    let zero_not : (n == 0) ≡ false = ground arith in
    let row : entry_of n ≡ true = every_lem 1023 entry_of n entry_table hi in
    (==_iff _ _).0
      (ap (λ b. b || (bit_or (program_of n) 0x087 / 0x40_0000 == frame_of n)) (sym zero_not) ∙ row)

-- The pages show the program of `n`.
pub map_program-mapped : (n : ℕ) (s : Sys) → IsProcess n → (map_program n s).mapped ≡ frame_of n
unfolding map_program
map_program-mapped n s h = shown_frame-set _ n h

pub map_program-mem :
    (n : ℕ) (s : Sys)
    → IsProcess n
    → s.mapped ≢ frame_of n
    → (a : ℕ)
    → (map_program n s).mem a ≡ (if in_program a then s.frames (frame_of n) a else s.mem a)
unfolding map_program
map_program-mem n s h ne a =
    let other : (frame_of n == s.mapped) ≡ false = ground arith in
    rw (shown_frame-set _ n h, other) refl
