-- ===== src/User/Ls.antt =====
-- syscalls/ece391ls.c.
pub mod Round
pub mod Lists
use ece391os.Prelude.{
  ℕ, zero, suc, ◌+◌, ◌-◌, ◌*◌, ◌/◌, ◌%◌, ◌^◌, ◌≤◌, ◌<◌, ◌≡◌, ◌≢◌, ◌↔◌, ◌⊎◌, inl, inr, refl, sym, ap,
  ◌∙◌, arith, Bool, true, false, ◌&&◌, ◌||◌, not, Option, none, some, if◌then◌else◌, ltb, leb, ◌==◌,
  ==_iff, ==_refl, Bool-cases, lt→ltb, le→ltb, ltb→lt, ltb→le, lt→leb, le→leb, leb→le, u8, u32,
  bit_and, bit_or, update, minus_one, signed_lt, sub32, length, get_or, set, List, [], ◌∷◌, ◌++◌,
}
use ece391os.Process.{Sys}
use ece391os.User.Program.{
  Run, done, asks, ticks, executes, runs_on, Program, after, ◌>>=◌, ◌>>◌, give, poke, print,
  ece391_read, ece391_write, ece391_open,
}

-- Where the compiler and the linker put the array `buf`, the strings and, in the kernel, the local
-- `dentry_t`.
pub record Layout : Type 0 where
  pub dot : ℕ
  pub no_directory : ℕ
  pub no_entry : ℕ
  pub buf : ℕ
  pub frame : ℕ

-- The loop, by the rounds that are allowed.
unfoldable pub ls_loop : ℕ → Layout → ℕ → Program ℕ
ls_loop zero p fd = λ s. runs_on s
ls_loop (suc rounds) p fd = do
  let rest = ls_loop rounds p fd
  cnt ← ece391_read p.frame fd p.buf 32
  if cnt == 0 then give 0 else if cnt == minus_one then (do print p.no_entry; give 3) else (do
    poke (p.buf + cnt) 10
    w ← ece391_write 1 p.buf (cnt + 1)
    if w == minus_one then give 3 else rest)

unfoldable pub ls : ℕ → Layout → Program ℕ
unfolding ls_loop
ls rounds p = do
  fd ← ece391_open p.frame p.dot
  if fd == minus_one then (do print p.no_directory; give 2) else ls_loop rounds p fd
