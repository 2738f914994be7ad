-- ===== src/Text/Compare.antt =====
-- `strncmp`.
use ece391os.Prelude.{
  ℕ, zero, suc, ◌+◌, ◌<◌, ◌≡◌, ◌≢◌, ◌↔◌, inl, inr, refl, arith, ◌==◌, Bool-cases, sub32,
}
use native.Mathlib.Nat.{add-zero}
use ece391os.Memory.{Mem}
use ece391os.Text.{strncmp, sign_extend}

abbrev pub IsBytes : Mem → Type 0
IsBytes m = (a : ℕ) → m a < 256

-- The two strings agree in their first `n` bytes, as far as the first one goes.
abbrev pub Agree : Mem → ℕ → ℕ → ℕ → Type 0
Agree m s1 s2 n = (i : ℕ) → i < n → ((j : ℕ) → j < i → m (s1 + j) ≢ 0) → m (s1 + i) ≡ m (s2 + i)

difference_zero : (a b : ℕ) → a < 256 → b < 256 → sub32 (sign_extend a) (sign_extend b) ≡ 0 → a ≡ b
difference_zero a b ha hb h = ground arith

difference_self : (a : ℕ) → a < 256 → sub32 (sign_extend a) (sign_extend a) ≡ 0
difference_self a ha = ground arith

add_succ : (s i : ℕ) → s + suc i ≡ s + 1 + i
add_succ s i = omega arith

Agree-tail :
    (m : Mem) (s1 s2 n : ℕ) → m s1 ≢ 0 → Agree m s1 s2 (suc n) → Agree m (s1 + 1) (s2 + 1) n
Agree-tail m s1 s2 n ne h i lt before =
    rw (← add_succ s1 i, ← add_succ s2 i) (h (suc i) (omega arith) earlier)
  where
    earlier : (j : ℕ) → j < suc i → m (s1 + j) ≢ 0
    earlier zero lt' = rw add-zero ne
    earlier (suc j) lt' = rw (add_succ s1 j) (before j (omega arith))

Agree-cons :
    (m : Mem) (s1 s2 n : ℕ)
    → m s1 ≡ m s2
    → (m s1 ≢ 0 → Agree m (s1 + 1) (s2 + 1) n)
    → Agree m s1 s2 (suc n)
Agree-cons m s1 s2 n e rest zero lt before = simp add-zero e
Agree-cons m s1 s2 n e rest (suc i) lt before =
    rw (add_succ s1 i, add_succ s2 i)
      (rest (rw add-zero at (before 0 (omega arith))) i (omega arith)
        (λ j lt'. rw (← add_succ s1 j) (before (suc j) (omega arith))))

strncmp-zero : (n : ℕ) (m : Mem) (s1 s2 : ℕ) → IsBytes m → strncmp m s1 s2 n ≡ 0 → Agree m s1 s2 n
unfolding strncmp
strncmp-zero zero m s1 s2 b h = λ i lt. absurd (omega arith)
strncmp-zero (suc n) m s1 s2 b h =
    Agree-cons m s1 s2 n (ground (arith, difference_zero (m s1) (m s2), b s1, b s2)) (λ ne.
      strncmp-zero n m (s1 + 1) (s2 + 1) b
        (ground (arith, difference_zero (m s1) (m s2), b s1, b s2)))

Agree-strncmp : (n : ℕ) (m : Mem) (s1 s2 : ℕ) → IsBytes m → Agree m s1 s2 n → strncmp m s1 s2 n ≡ 0
unfolding strncmp
Agree-strncmp zero m s1 s2 b h = refl
Agree-strncmp (suc n) m s1 s2 b h =
    let first : m s1 ≡ m s2 = simp add-zero at (h 0 (omega arith) (λ j lt. absurd (omega arith))) in
    elim (Bool-cases (m s1 == 0)) [
      | inl z ↦ ground (arith, difference_self (m s1), b s1)
      | inr nz ↦
          ground
            (arith, Agree-strncmp n m (s1 + 1) (s2 + 1) b (Agree-tail m s1 s2 n (ground arith) h))
    ]

-- `strncmp` returns 0 exactly when the strings agree in their first `n` bytes up to the end of the
-- first one.
pub strncmp-Agree :
    (n : ℕ) (m : Mem) (s1 s2 : ℕ) → IsBytes m → (strncmp m s1 s2 n ≡ 0) ↔ Agree m s1 s2 n
strncmp-Agree n m s1 s2 b = (strncmp-zero n m s1 s2 b, Agree-strncmp n m s1 s2 b)
