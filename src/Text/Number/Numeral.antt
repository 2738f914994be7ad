-- ===== src/Text/Number/Numeral.antt =====
-- `itoa`.
use ece391os.Prelude.{
  ℕ, zero, suc, ◌+◌, ◌-◌, ◌^◌, ◌≤◌, ◌<◌, ◌≡◌, ◌≢◌, ◌⊎◌, refl, sym, ap, ◌∙◌, arith, false, ◌&&◌,
  some, if◌then◌else◌, ltb, leb, ◌==◌,
}
use native.Mathlib.Decide.{ℕ_discrete}
use mathlib.Core.Path.{subst}
use ece391os.Memory.{Mem, store}
use ece391os.Text.Length.{IsString}
use ece391os.Text.Number.{itoa}
use ece391os.Text.Number.Reverse.{strrev-reversed}
use ece391os.Text.Number.Digits.{
  number_at, upward, IsDigit, lookup-IsDigit, IsWritten, put_digits-IsWritten, number_at-upward,
}

-- What `itoa` leaves at `buf`: the digits of `value`, and nothing else changed.
pub record IsNumeral (m m' : Mem) (buf radix value n : ℕ) : Type 0 where
  pub string : IsString m' buf n
  pub positive : 0 < n
  pub short : n ≤ 32
  pub digits : (i : ℕ) → i < n → IsDigit radix (m' (buf + i))
  pub denotes : number_at m' buf radix n ≡ value
  pub leading : 1 < n → m' buf ≢ 0x30
  pub outside : (a : ℕ) → (a < buf) ⊎ (buf + n < a) → m' a ≡ m a

digit_nonzero : (radix c : ℕ) → IsDigit radix c → c ≢ 0
digit_nonzero radix c h e = ground (arith, h.symbol)

-- The string of the digits in reverse.
numeral :
    (m m1 m' : Mem) (buf radix value n : ℕ)
    → IsWritten m m1 buf radix value n
    → 0 < n
    → n ≤ 32
    → ((a : ℕ)
        → m' a ≡ (
            if leb buf a && ltb a (buf + n)
            then store m1 (buf + n) 0 (buf + n - 1 - (a - buf))
            else store m1 (buf + n) 0 a))
    → IsNumeral m m' buf radix value n
numeral m m1 m' buf radix value n w pos short at = record {
  string = record {
    inside = λ i lt e.
        digit_nonzero radix _ (w.digits (n - 1 - i) (omega arith)) (sym (mirrored i lt) ∙ e);
    ends = at (buf + n) ∙ ground arith;
    fits = omega arith;
  };
  positive = pos;
  short = short;
  digits = λ i lt. subst (IsDigit radix) (sym (mirrored i lt)) (w.digits (n - 1 - i) (omega arith));
  denotes = number_at-upward m1 m' buf buf radix n mirrored ∙ w.value;
  leading = λ more e.
      let first : buf + 0 ≡ buf = omega arith in
      let last : buf + (n - 1 - 0) ≡ buf + n - 1 = omega arith in
      w.leading (omega arith) (ap m1 (sym last) ∙ sym (mirrored 0 pos) ∙ ap m' first ∙ e);
  outside = λ a h. at a ∙ ground (arith, w.outside a (omega (arith, h)), h);
}
  where
    mirrored : (k : ℕ) → k < n → m' (buf + k) ≡ m1 (buf + (n - 1 - k))
    mirrored k lt =
        let back : buf + n - 1 - (buf + k - buf) ≡ buf + (n - 1 - k) = omega arith in
        at (buf + k) ∙ ground (arith, ap m1 back)

-- For a radix from 2 to 36 and a number of 32 bits, `itoa` ends and leaves a string of at most 32
-- characters at the buffer, all of them digits of the radix, from '0' to '9' and from 'A' to 'Z',
-- without leading zeros, that denotes the number; no byte but those of
-- the string and its NUL has changed.
pub itoa-IsNumeral :
    (value buf radix : ℕ) (m : Mem)
    → 2 ≤ radix
    → radix ≤ 36
    → value < 2 ^ 32
    → (n : ℕ) × (m' : Mem) × (itoa value buf radix m ≡ some m') × IsNumeral m m' buf radix value n
unfolding itoa number_at upward
itoa-IsNumeral value buf radix m lo hi small = elim (ℕ_discrete value 0) [
  | yes z ↦ (1, store (store m buf 0x30) (buf + 1) 0, rw z refl, zero_text z)
  | no ne ↦
      let (n, m1, run, short, none_left, w) =
        put_digits-IsWritten 32 m buf value radix lo hi small in
      let pos : 0 < n = positive n m1 w ne in
      let (m', rev, at) =
        strrev-reversed (store m1 (buf + n) 0) buf n (ended n m1 w short) (omega (arith, short)) in
      let more : (value == 0) ≡ false = ground arith in
      (n, m', rw (itoa, more, run) rev, numeral m m1 m' buf radix value n w pos short at)
]
  where
    zero_text : value ≡ 0 → IsNumeral m (store (store m buf 0x30) (buf + 1) 0) buf radix value 1
    zero_text z = record {
      string = record { inside = λ i lt. ground arith; ends = ground arith; fits = omega arith };
      positive = omega arith;
      short = omega arith;
      digits = λ i lt.
          let at : buf + i ≡ buf = omega arith in
          let zero_digit : store (store m buf 0x30) (buf + 1) 0 (buf + i) ≡ 0x30 = ground arith in
          subst (IsDigit radix) (sym zero_digit) (lookup-IsDigit 0 radix (omega arith) hi);
      denotes = ground (arith, z);
      leading = λ more. absurd (omega arith);
      outside = λ a h. ground (arith, h);
    }

    positive : (n : ℕ) (m1 : Mem) → IsWritten m m1 buf radix value n → value ≢ 0 → 0 < n
    positive zero m1 w ne = absurd (ne (sym w.value))
    positive (suc n) m1 w ne = omega arith

    ended :
        (n : ℕ) (m1 : Mem)
        → IsWritten m m1 buf radix value n
        → n ≤ 32
        → IsString (store m1 (buf + n) 0) buf n
    ended n m1 w short = record {
      inside = λ i lt. ground (arith, digit_nonzero radix _ (w.digits i lt));
      ends = ground arith;
      fits = omega (arith, short);
    }
