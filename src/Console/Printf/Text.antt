-- ===== src/Console/Printf/Text.antt =====
-- `printf` of a format with one `%s`.
use ece391os.Prelude.{
  ℕ, zero, suc, ◌+◌, ◌-◌, ◌^◌, ◌<◌, ◌≡◌, ◌≢◌, refl, ap, ◌∙◌, arith, true, false, some, ◌==◌,
}
use mathlib.Core.Path.{subst}
use ece391os.Memory.{Mem, load32}
use ece391os.Text.{address_space}
use ece391os.Text.Length.{IsString, strlen_of_string}
use ece391os.Console.{Console, putc, putc_from}
use ece391os.Console.Printf.{
  Buffers, Printing, convert, format_char, show_text, puts, printf_from, printf,
}
use ece391os.Console.Printf.Plain.{printf_from_lem}

-- `j` characters, `%s`, `k` characters and the NUL.
pub record HasText (m : Mem) (s j k : ℕ) : Type 0 where
  pub before : (i : ℕ) → i < j → (m (s + i) ≢ 0) × (m (s + i) ≢ 0x25)
  pub percent : m (s + j) ≡ 0x25
  pub letter : m (s + j + 1) ≡ 0x73
  pub after : (i : ℕ) → i < k → (m (s + j + 2 + i) ≢ 0) × (m (s + j + 2 + i) ≢ 0x25)
  pub ends : m (s + j + 2 + k) ≡ 0
  pub fits : s + j + k + 2 < 2 ^ 32

printf_from_before :
    (j fuel : ℕ) (b : Buffers) (esp : ℕ) (m : Mem) (s : ℕ) (c : Console)
    → ((i : ℕ) → i < j → (m (s + i) ≢ 0) × (m (s + i) ≢ 0x25))
    → printf_from (j + fuel) b (record { buf = s; esp = esp; mem = m; console = c })
      ≡ printf_from fuel b (record { buf = s + j; esp = esp; mem = m; console = putc_from j m s c })
unfolding printf_from putc_from
printf_from_before zero fuel b esp m s c text =
    let start : s ≡ s + 0 = omega arith in
    let all : 0 + fuel ≡ fuel = omega arith in
    rw all
      (ap (λ a. printf_from fuel b (record { buf = a; esp = esp; mem = m; console = c })) start)
printf_from_before (suc j) fuel b esp m s c text =
    let start : m (s + 0) ≡ m s = ap m (omega arith) in
    let goes : (m s == 0) ≡ false = ground (arith, start, text 0 (omega arith)) in
    let plain : (m s == 0x25) ≡ false = ground (arith, start, text 0 (omega arith)) in
    let more : suc j + fuel ≡ suc (j + fuel) = omega arith in
    let next : s + 1 + j ≡ s + suc j = omega arith in
    rw more (
      rw (printf_from, goes, plain)
        (printf_from_before j fuel b esp m (s + 1) (putc (m s) c) (λ k lt.
            subst (λ a. (m a ≢ 0) × (m a ≢ 0x25)) (omega arith) (text (suc k) (omega arith)))
          ∙ ap
              (λ a. printf_from fuel b (record {
                buf = a;
                esp = esp;
                mem = m;
                console = putc_from j m (s + 1) (putc (m s) c);
              }))
              next))

puts_lem :
    (m : Mem) (s n : ℕ) (c : Console) → IsString m s n → puts m s c ≡ some (n, putc_from n m s c)
unfolding puts
puts_lem m s n c str = rw (puts, strlen_of_string m s n str) refl

show_text_lem :
    (m : Mem) (s n : ℕ) (p : Printing)
    → IsString m s n
    → show_text (some m) s p
      ≡ some (record { buf = p.buf; esp = p.esp + 4; mem = m; console = putc_from n m s p.console })
unfolding show_text
show_text_lem m s n p str = rw (show_text, puts_lem m s n p.console str) refl

format_char_text :
    (fuel : ℕ) (b : Buffers) (esp : ℕ) (m : Mem) (s n : ℕ) (c : Console)
    → m s ≡ 0x73
    → IsString m (load32 m esp) n
    → format_char (suc fuel) b false (record { buf = s; esp = esp; mem = m; console = c })
      ≡ some (record { buf = s; esp = esp + 4; mem = m; console = putc_from n m (load32 m esp) c })
unfolding format_char convert
format_char_text fuel b esp m s n c letter str =
    rw (format_char, letter)
      (show_text_lem m (load32 m esp) n (record { buf = s; esp = esp; mem = m; console = c }) str)

-- From the sign `%` on.
printf_from_text :
    (fuel : ℕ) (b : Buffers) (esp : ℕ) (m : Mem) (s n : ℕ) (c : Console)
    → m s ≡ 0x25
    → format_char address_space b false (record { buf = s + 1; esp = esp; mem = m; console = c })
      ≡ some
          (record { buf = s + 1; esp = esp + 4; mem = m; console = putc_from n m (load32 m esp) c })
    → printf_from (suc fuel) b (record { buf = s; esp = esp; mem = m; console = c })
      ≡ printf_from fuel b (record {
        buf = s + 1 + 1;
        esp = esp + 4;
        mem = m;
        console = putc_from n m (load32 m esp) c;
      })
unfolding printf_from
printf_from_text fuel b esp m s n c percent run =
    let goes : (m s == 0) ≡ false = ground (arith, percent) in
    let sign : (m s == 0x25) ≡ true = ground (arith, percent) in
    rw (printf_from, goes, sign, run) refl

-- For a format of two plain parts with `%s` in between, and an argument that is the address of a
-- string, `printf` shows the first part, the string and the second part, in this order, keeps
-- memory, and returns the length of the format.
pub printf-putc_from :
    (b : Buffers) (frame format j k n : ℕ) (m : Mem) (c : Console)
    → HasText m format j k
    → IsString m (load32 m (frame + 4)) n
    → let msg = load32 m (frame + 4) in
      let shown = putc_from k m (format + j + 2) (putc_from n m msg (putc_from j m format c)) in
      printf b frame format m c ≡ some (j + 2 + k, m, shown)
unfolding printf
printf-putc_from b frame format j k n m c t str =
    rw (printf, run)
      (ap (λ a. some (a, m, putc_from k m (format + j + 2) c2)) (ground (arith, t.fits)))
  where
    c1 : Console
    c1 = putc_from j m format c

    c2 : Console
    c2 = putc_from n m (load32 m (frame + 4)) c1

    fuel : ℕ
    fuel = address_space - j - 1

    enough : address_space ≡ j + suc fuel
    enough = omega (arith, t.fits)

    run :
        printf_from address_space b (record { buf = format; esp = frame + 4; mem = m; console = c })
        ≡ some (record {
          buf = format + j + 2 + k;
          esp = frame + 4 + 4;
          mem = m;
          console = putc_from k m (format + j + 2) c2;
        })
    run =
        ap (λ f. printf_from f b (record { buf = format; esp = frame + 4; mem = m; console = c }))
          enough
        ∙ printf_from_before j (suc fuel) b (frame + 4) m format c t.before
        ∙ printf_from_text fuel b (frame + 4) m (format + j) n c1 t.percent
            (format_char_text 4294967295 b (frame + 4) m (format + j + 1) n c1 t.letter str)
        ∙ ap
            (λ a.
              printf_from fuel b (record { buf = a; esp = frame + 4 + 4; mem = m; console = c2 }))
            (omega arith)
        ∙ printf_from_lem fuel b (frame + 4 + 4) m (format + j + 2) k c2 t.after t.ends
            (omega (arith, t.fits))
