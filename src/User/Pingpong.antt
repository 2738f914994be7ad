-- ===== src/User/Pingpong.antt =====
-- syscalls/ece391pingpong.c.
pub mod Pictures
use ece391os.Prelude.{
  ℕ, zero, suc, ◌+◌, ◌-◌, ◌*◌, ◌/◌, ◌%◌, ◌^◌, ◌≤◌, ◌<◌, ◌≡◌, ◌≢◌, ◌↔◌, ◌⊎◌, inl, inr, refl, sym, ap,
  ◌∙◌, arith, Bool, true, false, ◌&&◌, ◌||◌, not, Option, none, some, if◌then◌else◌, ltb, leb, ◌==◌,
  ==_iff, ==_refl, Bool-cases, lt→ltb, le→ltb, ltb→lt, ltb→le, lt→leb, le→leb, leb→le, u8, u32,
  bit_and, bit_or, update, minus_one, signed_lt, sub32, length, get_or, set, List, [], ◌∷◌, ◌++◌,
}
use ece391os.Memory.{store32}
use ece391os.Process.{Sys}
use ece391os.User.Program.{
  Run, done, asks, ticks, executes, runs_on, Program, after, ◌>>=◌, ◌>>◌, give, poke, print,
  ece391_read, ece391_write, ece391_open,
}

-- Where the compiler and the linker put the arrays and the strings; `rate` is the local `ret_val`.
pub record Layout : Type 0 where
  pub rtc_name : ℕ
  pub rate : ℕ
  pub garbage : ℕ
  pub buf : ℕ
  pub frame : ℕ

-- BUFMAX, STARTLOOP and LOOPMAX, by the text of the macros.
abbrev pub buf_max : ℕ
buf_max = 79 + 2

abbrev pub start_loop : ℕ
start_loop = 1 + 1

abbrev pub loop_max : ℕ
loop_max = 79 + 2 - 2 - 1

-- `n` spaces from `a` on.
unfoldable pub put_spaces : ℕ → ℕ → Program (Unit {0})
put_spaces zero a = give tt
put_spaces (suc n) a = do poke a b' '; put_spaces n (a + 1)

-- The buffer with its walls.
unfoldable pub build_walls : Layout → Program (Unit {0})
build_walls p = do
  put_spaces buf_max p.buf
  poke (p.buf + (buf_max - 1)) 0
  poke (p.buf + (buf_max - 2)) 10
  poke (p.buf + (buf_max - 3)) b'|'
  poke (p.buf + 1) b'|'

-- One picture, with the character at `j`.
unfoldable pub draw : Layout → ℕ → ℕ → Program (Unit {0})
draw p curchar j = do
  put_spaces (loop_max - start_loop) (p.buf + start_loop)
  poke (p.buf + j) curchar
  print p.buf

-- A picture, and the wait for the clock.
unfoldable pub show_at : Layout → ℕ → ℕ → ℕ → Program (Unit {0})
show_at p rtc_fd curchar j = do
  draw p curchar j
  _ ← ece391_read p.frame rtc_fd p.garbage 4
  give tt

unfoldable pub move_out : Layout → ℕ → ℕ → ℕ → ℕ → Program (Unit {0})
move_out p rtc_fd curchar zero j = give tt
move_out p rtc_fd curchar (suc n) j = do
  show_at p rtc_fd curchar j
  move_out p rtc_fd curchar n (j + 1)

unfoldable pub bounce_back : Layout → ℕ → ℕ → ℕ → ℕ → Program (Unit {0})
bounce_back p rtc_fd curchar zero j = give tt
bounce_back p rtc_fd curchar (suc n) j = do
  show_at p rtc_fd curchar j
  bounce_back p rtc_fd curchar n (j - 1)

unfoldable pub next_char : ℕ → ℕ
next_char curchar = if curchar == b'Z' then b'A' else u8 (curchar + 1)

-- The endless loop, by the rounds that are allowed.
unfoldable pub bounce : ℕ → Layout → ℕ → ℕ → Program (Unit {0})
unfolding move_out bounce_back
bounce zero p rtc_fd curchar = λ s. runs_on s
bounce (suc rounds) p rtc_fd curchar = do
  move_out p rtc_fd curchar (loop_max - start_loop) start_loop
  bounce_back p rtc_fd curchar (loop_max - start_loop) (loop_max - 1)
  bounce rounds p rtc_fd (next_char curchar)

unfoldable pub store_word : ℕ → ℕ → Program (Unit {0})
store_word a v s = done tt (record s { mem = store32 s.mem a v })

unfoldable pub pingpong : ℕ → Layout → Program (Unit {0})
unfolding bounce
pingpong rounds p = do
  build_walls p
  rtc_fd ← ece391_open p.frame p.rtc_name
  store_word p.rate 32
  ret_val ← ece391_write rtc_fd p.rate 4
  store_word p.rate ret_val
  bounce rounds p rtc_fd b'A'
