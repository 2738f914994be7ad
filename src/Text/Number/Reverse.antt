-- ===== src/Text/Number/Reverse.antt =====
-- `strrev`.
use ece391os.Prelude.{
  ℕ, zero, suc, ◌+◌, ◌-◌, ◌*◌, ◌^◌, ◌<◌, ◌≡◌, inl, inr, refl, ◌∙◌, arith, true, false, ◌&&◌, some,
  if◌then◌else◌, ltb, leb, Bool-cases, u32, signed_lt, sub32,
}
use native.Mathlib.Decide.{ℕ_discrete}
use ece391os.Memory.{Mem, store}
use ece391os.Text.Length.{IsString, strlen_of_string}
use ece391os.Text.Number.{swap_ends, strrev}

-- Memory with the bytes from `s` + `beg` to `s` + `end` in reverse.
abbrev pub reversed : Mem → ℕ → ℕ → ℕ → Mem
reversed m s beg end a =
    if leb (s + beg) a && leb a (s + end) then m (s + beg + (s + end) - a) else m a

swap_ends-reversed :
    (fuel : ℕ) (m : Mem) (s beg end a : ℕ)
    → beg + end < 2 ^ 31
    → end < beg + 2 * fuel
    → swap_ends fuel m s beg end a ≡ reversed m s beg end a
unfolding swap_ends
swap_ends-reversed zero m s beg end a small enough = ground arith
swap_ends-reversed (suc fuel) m s beg end a small enough = elim (Bool-cases (ltb beg end)) [
  | inl more ↦
      let goes : signed_lt beg end ≡ true = ground arith in
      let next : u32 (beg + 1) ≡ beg + 1 = ground arith in
      let prev : sub32 end 1 ≡ end - 1 = ground arith in
      let m1 = store (store m (s + end) (m (s + beg))) (s + beg) (m (s + end)) in
      rw (goes, next, prev)
        (swap_ends-reversed fuel m1 s (beg + 1) (end - 1) a (omega arith) (omega arith)
          ∙ ground arith)
  | inr met ↦ let stops : signed_lt beg end ≡ false = ground arith in rw stops (ground arith)
]

pub strrev-reversed :
    (m : Mem) (s n : ℕ)
    → IsString m s n
    → n < 2 ^ 31
    → (m' : Mem) × (strrev m s ≡ some m')
      × ((a : ℕ) → m' a ≡ (if leb s a && ltb a (s + n) then m (s + n - 1 - (a - s)) else m a))
unfolding strrev swap_ends
strrev-reversed m s n str small = elim (ℕ_discrete n 0) [
  | yes p ↦ (m, rw (strrev, strlen_of_string m s n str, p) refl, λ a. ground arith)
  | no ne ↦
      let end : sub32 n 1 ≡ n - 1 = ground arith in
      (
        swap_ends n m s 0 (sub32 n 1),
        rw (strrev, strlen_of_string m s n str) refl,
        λ a.
            rw end
              (swap_ends-reversed n m s 0 (n - 1) a (omega arith) (omega arith) ∙ ground arith),
      )
]
