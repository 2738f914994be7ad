-- ===== src/Text/Number/Digits.antt =====
-- The loop of `itoa`, and the number that a string of digits denotes.
use ece391os.Prelude.{
  ℕ, zero, suc, ◌+◌, ◌-◌, ◌*◌, ◌/◌, ◌%◌, ◌^◌, ◌≤◌, ◌<◌, ◌≡◌, ◌≢◌, ◌⊎◌, inl, refl, sym, ap, ◌∙◌,
  arith, false, some, if◌then◌else◌, ltb, ◌==◌,
}
use native.Mathlib.Decide.{ℕ_discrete}
use mathlib.Core.Path.{subst}
use native.Mathlib.Omega.{div_any}
use native.Mathlib.Nat.{mod-lt, mul-le-mul_right}
use ece391os.Memory.{Mem, store}
use ece391os.Text.Number.{lookup, put_digits}

-- The value of a digit, and the number that the `n` digits at `s` denote, the highest first.
abbrev pub digit_value : ℕ → ℕ
digit_value c = if ltb c 0x3a then c - 0x30 else c - 0x41 + 10

-- The digits of a radix: those from '0' to '9', and from there the letters 'A' to 'Z'.
pub record IsDigit (radix c : ℕ) : Type 0 where
  pub symbol : ((0x30 ≤ c) × (c ≤ 0x39)) ⊎ ((0x41 ≤ c) × (c ≤ 0x5a))
  pub below : digit_value c < radix

pub lookup-IsDigit : (d radix : ℕ) → d < radix → radix ≤ 36 → IsDigit radix (lookup d)
lookup-IsDigit d radix lt hi = record { symbol = ground arith; below = ground arith }

unfoldable pub number_at : Mem → ℕ → ℕ → ℕ → ℕ
number_at m s radix zero = 0
number_at m s radix (suc n) = number_at m s radix n * radix + digit_value (m (s + n))

-- The same with the lowest digit first.
unfoldable pub upward : Mem → ℕ → ℕ → ℕ → ℕ
upward m s radix zero = 0
upward m s radix (suc n) = digit_value (m s) + radix * upward m (s + 1) radix n

-- What the loop of `itoa` leaves at `b` for `v`, in `n` digits.
pub record IsWritten (m m' : Mem) (b radix v n : ℕ) : Type 0 where
  pub value : upward m' b radix n ≡ v
  pub digits : (k : ℕ) → k < n → IsDigit radix (m' (b + k))
  pub outside : (a : ℕ) → (a < b) ⊎ (b + n ≤ a) → m' a ≡ m a
  pub leading : n ≢ 0 → m' (b + n - 1) ≢ 0x30

lowest_digit :
    (v radix : ℕ)
    → 2 ≤ radix
    → (v % radix < radix) × (v % radix + radix * (v / radix) ≡ v) × (2 * (v / radix) ≤ v)
lowest_digit v radix lo = (
  mod-lt v (omega arith),
  omega (arith, div_any v radix),
  omega (arith, div_any v radix, mul-le-mul_right (v / radix) lo),
)

put_digits-round :
    (fuel : ℕ) (m : Mem) (b v radix : ℕ)
    → 2 ≤ radix
    → radix ≤ 36
    → v ≢ 0
    → put_digits (suc fuel) m b v radix
      ≡ put_digits fuel (store m b (lookup (v % radix))) (b + 1) (v / radix) radix
unfolding put_digits
put_digits-round fuel m b v radix lo hi ne =
    let more : (v == 0) ≡ false = ground arith in
    let good : (radix == 0) ≡ false = ground arith in
    let inside : ltb 36 (v % radix) ≡ false = ground (arith, (lowest_digit v radix lo).0) in
    rw (more, good, inside) refl

put_digits-done :
    (fuel : ℕ) (m : Mem) (b radix : ℕ) → put_digits (suc fuel) m b 0 radix ≡ some (m, b)
unfolding put_digits
put_digits-done fuel m b radix = refl

IsWritten-round :
    (m m' : Mem) (b v radix n : ℕ)
    → 2 ≤ radix
    → radix ≤ 36
    → v ≢ 0
    → (v / radix ≡ 0 → n ≡ 0)
    → IsWritten (store m b (lookup (v % radix))) m' (b + 1) radix (v / radix) n
    → IsWritten m m' b radix v (suc n)
unfolding upward
IsWritten-round m m' b v radix n lo hi ne none_left w =
    let (small, whole, half) = lowest_digit v radix lo in
    let first : m' b ≡ lookup (v % radix) = w.outside b (inl (omega arith)) ∙ ground arith in
    record {
      value = rw (first, w.value) (ap (λ d. d + radix * (v / radix)) (ground arith) ∙ whole);
      digits = λ k lt. elim (ℕ_discrete k 0) [
        | yes z ↦
            let at : b ≡ b + k = omega arith in
            subst (IsDigit radix) (sym first ∙ ap m' at) (lookup-IsDigit (v % radix) radix small hi)
        | no up ↦
            let at : b + 1 + (k - 1) ≡ b + k = omega arith in
            subst (λ a. IsDigit radix (m' a)) at (w.digits (k - 1) (omega arith))
      ];
      outside = λ a h. w.outside a (omega (arith, h)) ∙ ground (arith, h);
      leading = λ some_left. elim (ℕ_discrete n 0) [
        | yes z ↦ λ e.
            let all : v / radix ≡ 0 = sym w.value ∙ ap (upward m' (b + 1) radix) z in
            let at : b + suc n - 1 ≡ b = omega arith in
            ground (arith, first, small, whole, all, ap m' at, ap (λ q. radix * q) all)
        | no up ↦
            let at : b + 1 + n - 1 ≡ b + suc n - 1 = omega arith in
            subst (λ a. m' a ≢ 0x30) at (w.leading up)
      ];
    }

-- What the loop does from `fuel` + 1 rounds on.
abbrev pub Written : ℕ → Mem → ℕ → ℕ → ℕ → Type 0
Written fuel m b v radix =
    (n : ℕ) × (m' : Mem) × (put_digits (suc fuel) m b v radix ≡ some (m', b + n))
    × (n ≤ fuel)
    × (v ≡ 0 → n ≡ 0)
    × IsWritten m m' b radix v n

put_digits-nothing : (fuel : ℕ) (m : Mem) (b v radix : ℕ) → v ≡ 0 → Written fuel m b v radix
unfolding upward
put_digits-nothing fuel m b v radix z = (
  0,
  m,
  rw z (put_digits-done fuel m b radix ∙ ap (λ k. some (m, k)) (omega arith)),
  omega arith,
  λ e. refl,
  record {
    value = sym z;
    digits = λ k lt. absurd (omega arith);
    outside = λ a h. refl;
    leading = λ ne. absurd (ne refl);
  },
)

pub put_digits-IsWritten :
    (fuel : ℕ) (m : Mem) (b v radix : ℕ)
    → 2 ≤ radix
    → radix ≤ 36
    → v < 2 ^ fuel
    → Written fuel m b v radix
put_digits-IsWritten zero m b v radix lo hi small =
    put_digits-nothing zero m b v radix (omega arith)
put_digits-IsWritten (suc fuel) m b v radix lo hi small = elim (ℕ_discrete v 0) [
  | yes z ↦ put_digits-nothing (suc fuel) m b v radix z
  | no ne ↦
      let half = (lowest_digit v radix lo).2 in
      let (n, m', run, short, none_left, w) =
        put_digits-IsWritten fuel (store m b (lookup (v % radix))) (b + 1) (v / radix) radix lo hi
          (omega (arith, half)) in
      (
        suc n,
        m',
        put_digits-round (suc fuel) m b v radix lo hi ne
            ∙ run
            ∙ ap (λ k. some (m', k)) (omega arith),
        omega (arith, short),
        λ z. absurd (ne z),
        IsWritten-round m m' b v radix n lo hi ne none_left w,
      )
]

-- Read from the other end, reversed digits denote the same number.
pub number_at-upward :
    (m m' : Mem) (s s' radix n : ℕ)
    → ((k : ℕ) → k < n → m' (s' + k) ≡ m (s + (n - 1 - k)))
    → number_at m' s' radix n ≡ upward m s radix n
unfolding number_at upward
number_at-upward m m' s s' radix zero same = refl
number_at-upward m m' s s' radix (suc n) same =
    let last : m' (s' + n) ≡ m s = same n (omega arith) ∙ ap m (omega arith) in
    let rest =
      number_at-upward m m' (s + 1) s' radix n
        (λ k lt. same k (omega arith) ∙ ap m (omega arith)) in
    rw (last, rest) (omega arith)
