-- ===== src/User/Shell.antt =====
-- syscalls/ece391shell.c.
pub mod Obeys
use ece391os.Prelude.{
  ℕ, zero, suc, ◌+◌, ◌-◌, ◌*◌, ◌/◌, ◌%◌, ◌^◌, ◌≤◌, ◌<◌, ◌≡◌, ◌≢◌, ◌↔◌, ◌⊎◌, inl, inr, refl, sym, ap,
  ◌∙◌, arith, Bool, true, false, ◌&&◌, ◌||◌, not, Option, none, some, if◌then◌else◌, ltb, leb, ◌==◌,
  ==_iff, ==_refl, Bool-cases, lt→ltb, le→ltb, ltb→lt, ltb→le, lt→leb, le→leb, leb→le, u8, u32,
  bit_and, bit_or, update, minus_one, signed_lt, sub32, length, get_or, set, List, [], ◌∷◌, ◌++◌,
}
use ece391os.Process.{Sys}
use ece391os.User.Library.{ece391_strcmp}
use ece391os.User.Program.{
  Run, done, asks, ticks, executes, runs_on, Program, after, ◌>>=◌, ◌>>◌, give, peek, poke, print,
  ece391_read, ece391_execute,
}

-- Where the compiler and the linker put the array `buf` and the strings.
pub record Layout : Type 0 where
  pub starting : ℕ
  pub prompt : ℕ
  pub no_keyboard : ℕ
  pub exit : ℕ
  pub no_command : ℕ
  pub by_exception : ℕ
  pub abnormally : ℕ
  pub buf : ℕ
  pub frame : ℕ

unfoldable pub compare_strings : ℕ → ℕ → Program ℕ
compare_strings s1 s2 s = elim (ece391_strcmp s.mem s1 s2) [ none ↦ runs_on s | some r ↦ done r s ]

-- What is said of the result of a command.
unfoldable pub report : Layout → ℕ → Program (Unit {0})
report p rval =
    if rval == minus_one
    then print p.no_command
    else if rval == 256
    then print p.by_exception
    else if not (rval == 0)
    then print p.abnormally
    else give tt

-- The command that stands at `buf`; `rest` are the rounds that follow.
unfoldable pub obey_command : Layout → Program ℕ → Program ℕ
obey_command p rest = do
  r ← compare_strings p.buf p.exit
  first ← peek p.buf
  if r == 0
      then give 0
      else if first == 0
      then rest
      else (do rval ← ece391_execute p.buf; report p rval; rest)

-- A line of `cnt` bytes.
unfoldable pub obey : Layout → Program ℕ → ℕ → Program ℕ
obey p rest cnt = do
  last ← peek (p.buf + (cnt - 1))
  poke (p.buf + (if signed_lt 0 cnt && (last == 10) then cnt - 1 else cnt)) 0
  obey_command p rest

-- The loop, by the prompts that are allowed.
unfoldable pub shell_loop : ℕ → Layout → Program ℕ
shell_loop zero p = λ s. runs_on s
shell_loop (suc rounds) p = do
  let rest = shell_loop rounds p
  print p.prompt
  cnt ← ece391_read p.frame 0 p.buf 1023
  if cnt == minus_one then (do print p.no_keyboard; give 3) else obey p rest cnt

unfoldable pub shell : ℕ → Layout → Program ℕ
unfolding shell_loop
shell rounds p = do print p.starting; shell_loop rounds p
