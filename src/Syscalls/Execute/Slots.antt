-- ===== src/Syscalls/Execute/Slots.antt =====
-- The choice of a process slot by `execute`.
use ece391os.Prelude.{
  ℕ, zero, suc, ◌+◌, ◌≤◌, ◌<◌, ◌≡◌, ◌≢◌, refl, sym, ap, arith, true, false, some, ◌==◌, ==_refl,
  update, minus_one,
}
use native.Mathlib.Decide.{ℕ_discrete}
use mathlib.Core.Path.{subst}
use ece391os.Process.{Sys}
use ece391os.Syscalls.Execute.{Frame, max_progs, find_slot, take_slot}

-- Slot `i` is the lowest free one of the six.
pub record IsFree (slots : ℕ → ℕ) (i : ℕ) : Type 0 where
  pub below : i < max_progs
  pub free : slots i ≡ minus_one
  pub lowest : (j : ℕ) → j < i → slots j ≢ minus_one

pub find_slot_lem :
    (n j i : ℕ) (slots : ℕ → ℕ) → IsFree slots i → j ≤ i → i < j + n → find_slot n j slots ≡ some i
unfolding find_slot
find_slot_lem zero j i slots f le lt = absurd (omega arith)
find_slot_lem (suc n) j i slots f le lt = elim (ℕ_discrete j i) [
  | yes p ↦
      rw (subst (λ k. (slots k == minus_one) ≡ true) (sym p) (rw f.free (==_refl minus_one)))
        (ap some p)
  | no ne ↦
      let used : (slots j == minus_one) ≡ false = ground (arith, f.lowest j (omega arith)) in
      rw used (find_slot_lem n (j + 1) i slots f (omega arith) (omega arith))
]

pub take_slot_lem :
    (f : Frame) (s : Sys) (i : ℕ)
    → IsFree s.process_array i
    → take_slot f s ≡ (i + 1, record s { process_array = update s.process_array i 1 })
unfolding take_slot
take_slot_lem f s i free =
    rw
      (
        take_slot,
        find_slot_lem max_progs 0 i s.process_array free (omega arith) (omega (arith, free.below)),
      )
      refl
