-- ===== src/Console/Printf/Plain.antt =====
-- `printf` of a format without conversions.
use ece391os.Prelude.{
  ℕ, zero, suc, ◌+◌, ◌<◌, ◌≡◌, ◌≢◌, refl, ap, ◌∙◌, arith, true, false, some, ◌==◌,
}
use mathlib.Core.Path.{subst}
use ece391os.Memory.{Mem}
use ece391os.Console.{Console, putc, putc_from}
use ece391os.Console.Printf.{Buffers, printf_from}

pub printf_from_lem :
    (fuel : ℕ) (b : Buffers) (esp : ℕ) (m : Mem) (s n : ℕ) (c : Console)
    → ((k : ℕ) → k < n → (m (s + k) ≢ 0) × (m (s + k) ≢ 0x25))
    → m (s + n) ≡ 0
    → n < fuel
    → printf_from fuel b (record { buf = s; esp = esp; mem = m; console = c })
      ≡ some (record { buf = s + n; esp = esp; mem = m; console = putc_from n m s c })
unfolding printf_from putc_from
printf_from_lem zero b esp m s n c text ends lt = absurd (omega arith)
printf_from_lem (suc fuel) b esp m s zero c text ends lt =
    let start : s + 0 ≡ s = omega arith in
    let stops : (m s == 0) ≡ true = ground (arith, ap m start) in
    rw (printf_from, stops, start) refl
printf_from_lem (suc fuel) b esp m s (suc n) c text ends lt =
    let start : m (s + 0) ≡ m s = ap m (omega arith) in
    let goes : (m s == 0) ≡ false = ground (arith, start, text 0 (omega arith)) in
    let plain : (m s == 0x25) ≡ false = ground (arith, start, text 0 (omega arith)) in
    let next : s + 1 + n ≡ s + suc n = omega arith in
    rw (printf_from, goes, plain)
      (printf_from_lem fuel b esp m (s + 1) n (putc (m s) c)
          (λ k lt. subst (λ a. (m a ≢ 0) × (m a ≢ 0x25)) (omega arith) (text (suc k) (omega arith)))
          (ap m next ∙ ends) (omega arith)
        ∙ ap
            (λ a. some (record {
              buf = a;
              esp = esp;
              mem = m;
              console = putc_from n m (s + 1) (putc (m s) c);
            }))
            next)
