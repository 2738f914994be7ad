-- ===== src/User/Hello.antt =====
-- syscalls/ece391hello.c and syscalls/ece391testprint.c.
pub mod Greets
use ece391os.Prelude.{
  ℕ, zero, suc, ◌+◌, ◌-◌, ◌*◌, ◌/◌, ◌%◌, ◌^◌, ◌≤◌, ◌<◌, ◌≡◌, ◌≢◌, ◌↔◌, ◌⊎◌, inl, inr, refl, sym, ap,
  ◌∙◌, arith, Bool, true, false, ◌&&◌, ◌||◌, not, Option, none, some, if◌then◌else◌, ltb, leb, ◌==◌,
  ==_iff, ==_refl, Bool-cases, lt→ltb, le→ltb, ltb→lt, ltb→le, lt→leb, le→leb, leb→le, u8, u32,
  bit_and, bit_or, update, minus_one, signed_lt, sub32, length, get_or, set, List, [], ◌∷◌, ◌++◌,
}
use ece391os.Process.{Sys}
use ece391os.User.Program.{
  Run, done, asks, ticks, executes, runs_on, Program, after, ◌>>=◌, ◌>>◌, give, poke, print,
  ece391_read,
}

-- Where the compiler and the linker put the array `buf` and the strings.
pub record Layout : Type 0 where
  pub question : ℕ
  pub no_name : ℕ
  pub greeting : ℕ
  pub buf : ℕ
  pub frame : ℕ

unfoldable pub hello : Layout → Program ℕ
hello p = do
  print p.question
  cnt ← ece391_read p.frame 0 p.buf 1023
  if cnt == minus_one
      then (do print p.no_name; give 3)
      else (do poke (p.buf + cnt) 0; print p.greeting; print p.buf; give 0)

-- syscalls/ece391testprint.c, with its text.
unfoldable pub testprint : ℕ → Program ℕ
testprint text = do print text; give 0
