-- ===== src/User/Counter.antt =====
-- syscalls/ece391counter.c.
pub mod Counts
pub mod Choice
use ece391os.Prelude.{
  ℕ, zero, suc, ◌+◌, ◌-◌, ◌*◌, ◌/◌, ◌%◌, ◌^◌, ◌≤◌, ◌<◌, ◌≡◌, ◌≢◌, ◌↔◌, ◌⊎◌, inl, inr, refl, sym, ap,
  ◌∙◌, arith, Bool, true, false, ◌&&◌, ◌||◌, not, Option, none, some, if◌then◌else◌, ltb, leb, ◌==◌,
  ==_iff, ==_refl, Bool-cases, lt→ltb, le→ltb, ltb→lt, ltb→le, lt→leb, le→leb, leb→le, u8, u32,
  bit_and, bit_or, update, minus_one, signed_lt, sub32, length, get_or, set, List, [], ◌∷◌, ◌++◌,
}
use ece391os.Process.{Sys}
use ece391os.User.Library.{ece391_strlen, ece391_itoa}
use ece391os.User.Program.{
  Run, done, asks, ticks, executes, runs_on, Program, after, ◌>>=◌, ◌>>◌, give, peek, poke, print,
  ece391_read,
}

-- Where the compiler and the linker put the array `buf` and the strings.
pub record Layout : Type 0 where
  pub enter : ℕ
  pub no_number : ℕ
  pub wrong : ℕ
  pub newline : ℕ
  pub buf : ℕ
  pub frame : ℕ

unfoldable pub length_of : ℕ → Program ℕ
length_of text s = elim (ece391_strlen s.mem text) [ none ↦ runs_on s | some len ↦ done len s ]

-- `ece391_itoa (value, buf, 10)`.
unfoldable pub put_number : ℕ → ℕ → Program (Unit {0})
put_number value buf s = elim (ece391_itoa value buf 10 s.mem) [
  | none ↦ runs_on s
  | some m ↦ done tt (record s { mem = m })
]

-- The loop from `i` on, with the rounds that are left.
unfoldable pub count_from : Layout → ℕ → ℕ → Program ℕ
count_from p zero i = give 0
count_from p (suc n) i = do
  put_number (u32 (i + 1)) p.buf
  print p.buf
  print p.newline
  count_from p n (i + 1)

-- The `switch`.
unfoldable pub max_of : ℕ → ℕ
max_of choice =
    if choice == b'0'
    then 100
    else if choice == b'1'
    then 10000
    else if choice == b'2'
    then 100000
    else 0

unfoldable pub wrong_choice : ℕ → ℕ → Bool
wrong_choice len first = ltb 2 len || ((len == 2) && (ltb first b'0' || ltb b'2' first))

unfoldable pub counter : Layout → Program ℕ
counter p = do
  print p.enter
  cnt ← ece391_read p.frame 0 p.buf 1023
  if cnt == minus_one then (do print p.no_number; give 3) else (do
    poke (p.buf + cnt) 0
    len ← length_of p.buf
    first ← peek p.buf
    if wrong_choice len first then (do print p.wrong; give 0) else count_from p (max_of first) 0)
