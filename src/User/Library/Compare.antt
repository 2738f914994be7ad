-- ===== src/User/Library/Compare.antt =====
-- `ece391_strcmp` of syscalls/ece391support.c decides whether two strings are equal.
use ece391os.Prelude.{
  ℕ, zero, suc, ◌+◌, ◌≤◌, ◌<◌, ◌≡◌, ◌≢◌, ◌⊎◌, inl, inr, refl, ap, ◌∙◌, arith, true, false, some,
  ◌==◌, ==_iff, Bool-cases, sub32,
}
use ece391os.Memory.{Mem}
use ece391os.Text.{address_space}
use ece391os.Text.Length.{IsString}
use ece391os.Text.Compare.{IsBytes}
use ece391os.User.Library.{ece391_strcmp_from, ece391_strcmp}

-- The string of `n` bytes at `s1` and its NUL stand at `s2` too.
abbrev pub Equal : Mem → ℕ → ℕ → ℕ → Type 0
Equal m s1 s2 n = (i : ℕ) → i ≤ n → m (s1 + i) ≡ m (s2 + i)

Equal-cons :
    (m : Mem) (s1 s2 n : ℕ) → m s1 ≡ m s2 → Equal m (s1 + 1) (s2 + 1) n → Equal m s1 s2 (suc n)
Equal-cons m s1 s2 n e rest zero le = ap m (omega arith) ∙ e ∙ ap m (omega arith)
Equal-cons m s1 s2 n e rest (suc i) le =
    ap m (omega arith) ∙ rest i (omega arith) ∙ ap m (omega arith)

Equal-head : (m : Mem) (s1 s2 n : ℕ) → Equal m s1 s2 n → m s1 ≡ m s2
Equal-head m s1 s2 n h = ap m (omega arith) ∙ h 0 (omega arith) ∙ ap m (omega arith)

Equal-tail : (m : Mem) (s1 s2 n : ℕ) → Equal m s1 s2 (suc n) → Equal m (s1 + 1) (s2 + 1) n
Equal-tail m s1 s2 n h i le = ap m (omega arith) ∙ h (suc i) (omega arith) ∙ ap m (omega arith)

-- What a comparison says.
abbrev pub Tells : Mem → ℕ → ℕ → ℕ → ℕ → Type 0
Tells m s1 s2 n r = ((r ≡ 0) × Equal m s1 s2 n) ⊎ ((r ≢ 0) × ¬ Equal m s1 s2 n)

tail-IsString : (m : Mem) (s n : ℕ) → IsString m s (suc n) → IsString m (s + 1) n
tail-IsString m s n str = record {
  inside = λ i lt e. str.inside (suc i) (omega arith) (ap m (omega arith) ∙ e);
  ends = ap m (omega arith) ∙ str.ends;
  fits = omega (arith, str.fits);
}

-- The first bytes differ.
differ-Tells :
    (fuel n : ℕ) (m : Mem) (s1 s2 : ℕ)
    → IsBytes m
    → (m s1 == m s2) ≡ false
    → (r : ℕ) × (ece391_strcmp_from (suc fuel) m s1 s2 ≡ some r) × Tells m s1 s2 n r
unfolding ece391_strcmp_from
differ-Tells fuel n m s1 s2 b differ =
    let ne : m s1 ≢ m s2 = ground arith in
    (
      sub32 (m s1) (m s2),
      rw (ece391_strcmp_from, differ) refl,
      inr (ground (arith, b s1, b s2), λ same. ne (Equal-head m s1 s2 n same)),
    )

strcmp_from-Tells :
    (fuel n : ℕ) (m : Mem) (s1 s2 : ℕ)
    → IsBytes m
    → IsString m s1 n
    → n < fuel
    → (r : ℕ) × (ece391_strcmp_from fuel m s1 s2 ≡ some r) × Tells m s1 s2 n r
unfolding ece391_strcmp_from
strcmp_from-Tells zero n m s1 s2 b str lt = absurd (omega arith)
strcmp_from-Tells (suc fuel) zero m s1 s2 b str lt = elim (Bool-cases (m s1 == m s2)) [
  | inr differ ↦ differ-Tells fuel zero m s1 s2 b differ
  | inl agree ↦
      let ends : (m s1 == 0) ≡ true = (==_iff _ _).1 (ap m (omega arith) ∙ str.ends) in
      let e : m s1 ≡ m s2 = (==_iff _ _).0 agree in
      (
        0,
        rw (ece391_strcmp_from, agree, ends) refl,
        inl (refl, λ i le. ap m (omega arith) ∙ e ∙ ap m (omega arith)),
      )
]
strcmp_from-Tells (suc fuel) (suc n) m s1 s2 b str lt = elim (Bool-cases (m s1 == m s2)) [
  | inr differ ↦ differ-Tells fuel (suc n) m s1 s2 b differ
  | inl agree ↦
      let e : m s1 ≡ m s2 = (==_iff _ _).0 agree in
      let some_byte : m s1 ≢ 0 = λ z. str.inside 0 (omega arith) (ap m (omega arith) ∙ z) in
      let goes : (m s1 == 0) ≡ false = ground arith in
      let (r, run, tells) =
        strcmp_from-Tells fuel n m (s1 + 1) (s2 + 1) b (tail-IsString m s1 n str) (omega arith) in
      (
        r,
        rw (ece391_strcmp_from, agree, goes) run,
        elim tells [
          | inl (z, same) ↦ inl (z, Equal-cons m s1 s2 n e same)
          | inr (nz, other) ↦ inr (nz, λ same. other (Equal-tail m s1 s2 n same))
        ],
      )
]

-- `ece391_strcmp` returns for every string, and returns 0 exactly when the other string is the same,
-- its NUL included.
pub ece391_strcmp-Tells :
    (n : ℕ) (m : Mem) (s1 s2 : ℕ)
    → IsBytes m
    → IsString m s1 n
    → (r : ℕ) × (ece391_strcmp m s1 s2 ≡ some r) × Tells m s1 s2 n r
unfolding ece391_strcmp
ece391_strcmp-Tells n m s1 s2 b str = strcmp_from-Tells address_space n m s1 s2 b str str.fits
