-- ===== src/User/Counter/Counts.antt =====
-- What syscalls/ece391counter.c prints.
use ece391os.Prelude.{
  ℕ, zero, suc, ◌+◌, ◌^◌, ◌≤◌, ◌<◌, ◌≡◌, ◌≢◌, ◌⊎◌, inl, inr, refl, ap, ◌∙◌, arith, u32,
}
use mathlib.Core.Path.{subst}
use ece391os.Memory.{Mem}
use ece391os.Text.Number.Numeral.{IsNumeral, itoa-IsNumeral}
use ece391os.Console.{Console, putc, putc_from}
use ece391os.Process.{Sys}
use ece391os.User.Library.Equal.{itoa_equal}
use ece391os.User.Library.Prints.{HasTerminal, IsText, shown, fdputs-shown}
use ece391os.User.Program.{done}
use ece391os.User.Program.Calls.{puts_done}
use ece391os.User.Counter.{Layout, put_number, count_from}

-- From the console `c`, the decimal numerals of the `n` numbers after `i` are printed, each with a
-- line feed.
abbrev pub Counts : Layout → ℕ → ℕ → Console → Console → Type 0
Counts p i zero c c' = c' ≡ c
Counts p i (suc n) c c' =
    (len : ℕ) × (m : Mem) × (m' : Mem) × IsNumeral m m' p.buf 10 (i + 1) len
    × Counts p (i + 1) n (putc 10 (putc_from len m' p.buf c)) c'

-- The program can print its numbers; the line feed is apart from the buffer.
pub record CanCount (p : Layout) (s : Sys) : Type 0 where
  pub terminal : HasTerminal s
  pub newline : IsText s.mem p.newline 1
  pub feed : s.mem p.newline ≡ 10
  pub apart : (p.newline + 2 ≤ p.buf) ⊎ (p.buf + 33 ≤ p.newline)
  pub there : p.buf ≢ 0

number_put :
    (p : Layout) (value : ℕ) (s : Sys)
    → value < 2 ^ 32
    → (len : ℕ) × (m : Mem) × (put_number value p.buf s ≡ done tt (record s { mem = m }))
      × IsNumeral s.mem m p.buf 10 value len
unfolding put_number
number_put p value s small =
    let (len, m, run, numeral) =
      itoa-IsNumeral value p.buf 10 s.mem (omega arith) (omega arith) small in
    (len, m, rw (put_number, itoa_equal value p.buf 10 s.mem, run) refl, numeral)

newline_kept :
    (p : Layout) (s : Sys) (m : Mem) (value len a : ℕ)
    → CanCount p s
    → IsNumeral s.mem m p.buf 10 value len
    → a < 2
    → m (p.newline + a) ≡ s.mem (p.newline + a)
newline_kept p s m value len a c x lt =
    x.outside (p.newline + a)
      (elim c.apart [ inl before ↦ inl (omega arith) | inr behind ↦ inr (omega (arith, x.short)) ])

newline_first :
    (p : Layout) (s : Sys) (m : Mem) (value len : ℕ)
    → CanCount p s
    → IsNumeral s.mem m p.buf 10 value len
    → m p.newline ≡ 10
newline_first p s m value len c x =
    ap m (omega arith)
    ∙ newline_kept p s m value len 0 c x (omega arith)
    ∙ ap s.mem (omega arith)
    ∙ c.feed

newline-IsText :
    (p : Layout) (s : Sys) (m : Mem) (value len : ℕ)
    → CanCount p s
    → IsNumeral s.mem m p.buf 10 value len
    → IsText m p.newline 1
newline-IsText p s m value len c x = record {
  string = record {
    inside = λ i lt.
        rw (newline_kept p s m value len i c x (omega arith)) (c.newline.string.inside i lt);
    ends = newline_kept p s m value len 1 c x (omega arith) ∙ c.newline.string.ends;
    fits = omega arith;
  };
  small = omega arith;
  there = c.newline.there;
}

-- One round.
record Round (p : Layout) (n i : ℕ) (s : Sys) : Type 0 where
  len : ℕ
  m : Mem
  s' : Sys
  numeral : IsNumeral s.mem m p.buf 10 (i + 1) len
  run : count_from p (suc n) i s ≡ count_from p n (i + 1) s'
  goes_on : CanCount p s'
  console : s'.machine.console ≡ putc 10 (putc_from len m p.buf s.machine.console)

round : (p : Layout) (n i : ℕ) (s : Sys) → CanCount p s → i + 1 < 2 ^ 32 → Round p n i s
unfolding count_from putc_from
round p n i s c small =
    let (len, m, put, x) = number_put p (i + 1) s small in
    let s1 = record s { mem = m } in
    let s2 = shown s1 p.buf len in
    let s3 = shown s2 p.newline 1 in
    let word : u32 (i + 1) ≡ i + 1 = omega arith in
    let numeral_text : IsText m p.buf len = record {
      string = x.string;
      small = omega (arith, x.short);
      there = c.there;
    } in
    let line = newline-IsText p s m (i + 1) len c x in
    let terminal1 : HasTerminal s1 = record { table = c.terminal.table; used = c.terminal.used } in
    let terminal2 : HasTerminal s2 = record { table = c.terminal.table; used = c.terminal.used } in
    record {
      len = len;
      m = m;
      s' = s3;
      numeral = x;
      run =
          rw
            (
              count_from,
              word,
              put,
              puts_done p.buf s1 s2 (fdputs-shown s1 p.buf len terminal1 numeral_text),
              puts_done p.newline s2 s3 (fdputs-shown s2 p.newline 1 terminal2 line),
            )
            refl;
      goes_on = record {
        terminal = record { table = c.terminal.table; used = c.terminal.used };
        newline = line;
        feed = newline_first p s m (i + 1) len c x;
        apart = c.apart;
        there = c.there;
      };
      console =
          ap (λ b. putc b (putc_from len m p.buf s.machine.console))
            (newline_first p s m (i + 1) len c x);
    }

pub count_from-Counts :
    (p : Layout) (n i : ℕ) (s : Sys)
    → CanCount p s
    → i + n < 2 ^ 32
    → (s' : Sys) × (count_from p n i s ≡ done 0 s')
      × Counts p i n s.machine.console s'.machine.console
unfolding count_from
count_from-Counts p zero i s c small = (s, refl, refl)
count_from-Counts p (suc n) i s c small =
    let r = round p n i s c (omega arith) in
    let (s', run, counts) = count_from-Counts p n (i + 1) r.s' r.goes_on (omega arith) in
    (
      s',
      r.run ∙ run,
      (
        r.len,
        s.mem,
        r.m,
        r.numeral,
        subst (λ k. Counts p (i + 1) n k s'.machine.console) r.console counts,
      ),
    )
