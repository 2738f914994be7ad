-- ===== src/Console/Sequence.antt =====
-- Sequences of characters on the screen.
use ece391os.Prelude.{ℕ, zero, suc, ◌+◌, ◌<◌, ◌≡◌, refl, ap, ◌∙◌, arith}
use ece391os.Memory.{Mem}
use ece391os.Console.{Console, putc, putc_from}

-- Printing goes on where it stopped, and depends on the bytes alone.
pub putc_from_split :
    (n k : ℕ) (view : Mem) (a : ℕ) (c : Console)
    → putc_from (n + k) view a c ≡ putc_from k view (a + n) (putc_from n view a c)
unfolding putc_from
putc_from_split zero k view a c =
    let all : 0 + k ≡ k = omega arith in
    let here : a ≡ a + 0 = omega arith in rw all (ap (λ b. putc_from k view b c) here)
putc_from_split (suc n) k view a c =
    let more : suc n + k ≡ suc (n + k) = omega arith in
    let here : a + 1 + n ≡ a + suc n = omega arith in
    rw more (
      putc_from_split n k view (a + 1) (putc (view a) c)
      ∙ ap (λ b. putc_from k view b (putc_from n view (a + 1) (putc (view a) c))) here)

pub putc_from_same :
    (n : ℕ) (v w : Mem) (a b : ℕ) (c : Console)
    → ((i : ℕ) → i < n → v (a + i) ≡ w (b + i))
    → putc_from n v a c ≡ putc_from n w b c
unfolding putc_from
putc_from_same zero v w a b c same = refl
putc_from_same (suc n) v w a b c same =
    let first : v a ≡ w b = ap v (omega arith) ∙ same 0 (omega arith) ∙ ap w (omega arith) in
    rw first (
      putc_from_same n v w (a + 1) (b + 1) (putc (w b) c)
        (λ i lt. ap v (omega arith) ∙ same (suc i) (omega arith) ∙ ap w (omega arith)))

pub putc_from_none : (view : Mem) (a : ℕ) (c : Console) → putc_from 0 view a c ≡ c
unfolding putc_from
putc_from_none view a c = refl
