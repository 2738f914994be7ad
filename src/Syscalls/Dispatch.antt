-- ===== src/Syscalls/Dispatch.antt =====
-- `system_call_handler` of student-distrib/linkage.S: the choice of a system call by its number.
use ece391os.Prelude.{
  ℕ, ◌^◌, ◌<◌, ◌≡◌, ◌⊎◌, refl, arith, true, ◌||◌, Option, none, some, if◌then◌else◌, ltb, minus_one,
  sub32, get_or, List, [], ◌∷◌,
}
use ece391os.Process.{Sys}

-- The functions of `system_call_table`.
pub data Call : Type 0 where
  halt_call execute_call read_call write_call open_call close_call : Call
  getargs_call vidmap_call set_handler_call sigreturn_call : Call

unfoldable pub system_call_table : List Call
system_call_table =
    halt_call ∷ execute_call ∷ read_call ∷ write_call ∷ open_call ∷ close_call ∷ getargs_call
    ∷ vidmap_call ∷ set_handler_call ∷ sigreturn_call ∷ []

-- The choice of `system_call_handler` for the number in `eax`; both comparisons are on unsigned
-- words, and `none` is the way to SYSCALL_FAIL.
unfoldable pub system_call : ℕ → Option Call
unfolding system_call_table
system_call eax =
    let index = sub32 eax 1 in
    if ltb 9 index || ltb index 0 then none else some (get_or system_call_table index halt_call)

-- The handler, where `perform` is what the chosen function does with the other registers.
unfoldable pub system_call_handler : (Call → Sys → ℕ × Sys) → ℕ → Sys → ℕ × Sys
system_call_handler perform eax s = elim (system_call eax) [
  | none ↦ (minus_one, s)
  | some c ↦ perform c s
]

system_call_refused : (eax : ℕ) → eax < 2 ^ 32 → (eax ≡ 0) ⊎ (10 < eax) → system_call eax ≡ none
unfolding system_call
system_call_refused eax word bad =
    let high : ltb 9 (sub32 eax 1) ≡ true = ground (arith, bad) in rw high refl

pub system_call_handler-refused :
    (perform : Call → Sys → ℕ × Sys) (eax : ℕ) (s : Sys)
    → eax < 2 ^ 32
    → (eax ≡ 0) ⊎ (10 < eax)
    → system_call_handler perform eax s ≡ (minus_one, s)
unfolding system_call_handler
system_call_handler-refused perform eax s word bad =
    rw (system_call_handler, system_call_refused eax word bad) refl
