-- ===== src/Syscalls/Table.antt =====
-- `open` and `close` of student-distrib/syscalls.c on the descriptor table of a process.
use ece391os.Prelude.{
  ℕ, zero, suc, ◌+◌, ◌≤◌, ◌<◌, ◌≡◌, ◌≢◌, ◌⊎◌, inl, inr, refl, sym, ap, arith, false, ◌||◌, none,
  some, ◌==◌, ==_iff, ==_refl, Bool-cases, minus_one, signed_lt,
}
use mathlib.Core.Path.{subst}
use native.Mathlib.Decide.{ℕ_discrete}
use ece391os.Descriptor.{
  JumpTable, rtc_table, file_table, dir_table, stdin_table, stdout_table, Fdt, max_fd_num,
}
use ece391os.Process.{Sys}
use ece391os.Syscalls.{finished, in_use, bad_fd, find_free, jump_close, close, read, write}

-- `i` is the lowest descriptor from `lo` on that is free.
pub record IsLowest (t : Fdt) (lo i : ℕ) : Type 0 where
  pub from : lo ≤ i
  pub to : i ≤ max_fd_num
  pub free : (t i).flags ≡ minus_one
  pub lowest : (j : ℕ) → lo ≤ j → j < i → (t j).flags ≢ minus_one

from_first :
    (t : Fdt) (i j : ℕ)
    → (t i).flags == minus_one ≡ false
    → i ≤ j
    → (i + 1 ≤ j → j ≤ max_fd_num → (t j).flags ≢ minus_one)
    → j ≤ max_fd_num
    → (t j).flags ≢ minus_one
from_first t i j used l rest h e = elim (ℕ_discrete i j) [
  | yes p ↦ absurd (ground (arith, subst (λ k. (t k).flags ≡ minus_one) (sym p) e))
  | no ne ↦ rest (omega arith) h e
]

pub find_free_lem :
    (n i : ℕ) (t : Fdt)
    → i + n ≡ 8
    → ((find_free n i t ≡ none) × ((j : ℕ) → i ≤ j → j ≤ max_fd_num → (t j).flags ≢ minus_one))
      ⊎ ((k : ℕ) × (find_free n i t ≡ some k) × IsLowest t i k)
unfolding find_free
find_free_lem zero i t e = inl (refl, λ j l h. absurd (omega arith))
find_free_lem (suc n) i t e = elim (Bool-cases ((t i).flags == minus_one)) [
  | inl free ↦ rw free (
      inr (
        i,
        refl,
        record {
          from = omega arith;
          to = omega arith;
          free = (==_iff _ _).0 free;
          lowest = λ j l h. absurd (omega arith);
        },
      ))
  | inr used ↦ rw used (elim (find_free_lem n (i + 1) t (omega arith)) [
    | inl (e', all) ↦ inl (e', λ j l h. from_first t i j used l (all j) h)
    | inr (k, e', low) ↦ inr (
      k,
      e',
      record {
        from = omega (arith, low.from);
        to = low.to;
        free = low.free;
        lowest =
            λ j l h. from_first t i j used l (λ l' _. low.lowest j l' h) (omega (arith, low.to));
      },
    )
  ])
]

jump_close_keeps :
    (table : JumpTable) (fd : ℕ) (s : Sys) → (jump_close table fd s).1.pcb.fdt ≡ s.pcb.fdt
unfolding jump_close
jump_close_keeps rtc_table fd s = refl
jump_close_keeps file_table fd s = refl
jump_close_keeps dir_table fd s = refl
jump_close_keeps stdin_table fd s = refl
jump_close_keeps stdout_table fd s = refl

-- What `close` does to the table.
record Closed (t : Fdt) (fd : ℕ) (t' : Fdt) : Type 0 where
  free : (t' fd).flags ≡ minus_one
  others : (j : ℕ) → j ≢ fd → t' j ≡ t j

close-Closed :
    (fd : ℕ) (s : Sys)
    → 2 ≤ fd
    → fd ≤ max_fd_num
    → (s.pcb.fdt fd).flags ≡ in_use
    → ((close fd s).0 ≡ 0) × Closed s.pcb.fdt fd (close fd s).1.pcb.fdt
unfolding close
close-Closed fd s lo hi used =
    let s1 = (jump_close (s.pcb.fdt fd).jump_ptr fd s).1 in
    let keeps : s1.pcb.fdt ≡ s.pcb.fdt = jump_close_keeps (s.pcb.fdt fd).jump_ptr fd s in
    let good : signed_lt fd 2 || signed_lt max_fd_num fd ≡ false = ground arith in
    rw (good, used)
      (
        refl,
        record {
          free = rw (==_refl fd) refl;
          others = λ j ne. ground (arith, ap (λ f. f j) keeps);
        },
      )

pub refused :
    (frame fd buf nbytes : ℕ) (s : Sys)
    → (s.pcb.fdt fd).flags ≡ minus_one
    → (read frame fd buf nbytes s ≡ finished minus_one s)
      × (write fd buf nbytes s ≡ (minus_one, s))
      × (close fd s ≡ (minus_one, s))
unfolding read write close
refused frame fd buf nbytes s free = (
  elim (Bool-cases (bad_fd fd)) [ inl p ↦ rw p refl | inr p ↦ rw (p, free) refl ],
  elim (Bool-cases (bad_fd fd)) [ inl p ↦ rw p refl | inr p ↦ rw (p, free) refl ],
  elim (Bool-cases (signed_lt fd 2 || signed_lt max_fd_num fd)) [
    | inl p ↦ rw p refl
    | inr p ↦ rw (p, free) refl
  ],
)

-- `close` of a descriptor from 2 to 7 that is in use returns 0; afterwards `read`, `write` and
-- `close` on it return -1 and change nothing, and no other descriptor changed.
pub close-refused :
    (frame fd buf nbytes j : ℕ) (s : Sys)
    → 2 ≤ fd
    → fd ≤ max_fd_num
    → (s.pcb.fdt fd).flags ≡ in_use
    → j ≢ fd
    → let s' = (close fd s).1 in
      ((close fd s).0 ≡ 0)
      × (read frame fd buf nbytes s' ≡ finished minus_one s')
      × (write fd buf nbytes s' ≡ (minus_one, s'))
      × (close fd s' ≡ (minus_one, s'))
      × (s'.pcb.fdt j ≡ s.pcb.fdt j)
close-refused frame fd buf nbytes j s lo hi used ne =
    let (ret, closed) = close-Closed fd s lo hi used in
    let (r, w, c) = refused frame fd buf nbytes (close fd s).1 closed.free in
    (ret, r, w, c, closed.others j ne)
