-- ===== src/User/Program.antt =====
-- A program of syscalls/ as a tree of the calls in which it sleeps, over the wrappers of
-- syscalls/ece391syscall.S.
pub mod Calls
pub mod Line
use ece391os.Prelude.{
  ℕ, zero, suc, ◌+◌, ◌-◌, ◌*◌, ◌/◌, ◌%◌, ◌^◌, ◌≤◌, ◌<◌, ◌≡◌, ◌≢◌, ◌↔◌, ◌⊎◌, inl, inr, refl, sym, ap,
  ◌∙◌, arith, Bool, true, false, ◌&&◌, ◌||◌, not, Option, none, some, if◌then◌else◌, ltb, leb, ◌==◌,
  ==_iff, ==_refl, Bool-cases, lt→ltb, le→ltb, ltb→lt, ltb→le, lt→leb, le→leb, leb→le, u8, u32,
  bit_and, bit_or, update, minus_one, signed_lt, sub32, length, get_or, set, List, [], ◌∷◌, ◌++◌,
}
use ece391os.Memory.{Mem, store}
use ece391os.Process.{Sys, with_console}
use ece391os.Syscalls.{
  Reading, finished, waiting_rtc, waiting_terminal, stuck, read, write, open_call, close, getargs,
  vidmap, set_handler,
}
use ece391os.Keyboard.{terminal_read_finish}
use ece391os.User.Library.{ece391_fdputs}

-- What running a part of a program comes to, with the value that it returns. The result of a call
-- that sleeps is given to `rest` with the state in which the call ends.
pub data Run {ℓ} (A : Type ℓ) : Type ℓ where
  done : (value : A) (sys : Sys) → Run A
  asks : (buf nbytes : ℕ) (sys : Sys) (rest : ℕ → Sys → Run A) → Run A
  ticks : (sys : Sys) (rest : ℕ → Sys → Run A) → Run A
  executes : (command : ℕ) (sys : Sys) (rest : ℕ → Sys → Run A) → Run A
  runs_on : (sys : Sys) → Run A

abbrev pub Program {ℓ} : Type ℓ → Type ℓ
Program A = Sys → Run A

abbrev pub after {ℓ κ} : {A : Type ℓ} {B : Type κ} → Run A → (A → Program B) → Run B
after (done a s) f = f a s
after (asks buf n s rest) f = asks buf n s (λ r s1. after (rest r s1) f)
after (ticks s rest) f = ticks s (λ r s1. after (rest r s1) f)
after (executes c s rest) f = executes c s (λ r s1. after (rest r s1) f)
after (runs_on s) f = runs_on s

infixl 5 ◌>>=◌ ◌>>◌
abbrev pub ◌>>=◌ {ℓ κ} : {A : Type ℓ} {B : Type κ} → Program A → (A → Program B) → Program B
(m >>= f) s = after (m s) f

abbrev pub ◌>>◌ {ℓ} : {B : Type ℓ} → Program (Unit {0}) → Program B → Program B
m >> k = m >>= λ _. k

abbrev pub give {ℓ} : {A : Type ℓ} → A → Program A
give a s = done a s

abbrev pub peek : ℕ → Program ℕ
peek a s = done (s.mem a) s

abbrev pub poke : ℕ → ℕ → Program (Unit {0})
poke a v s = done tt (record s { mem = store s.mem a v })

-- What a function that may not end comes to.
abbrev returned : Sys → Option (ℕ × Sys) → Run ℕ
returned s none = runs_on s
returned s (some (r, s1)) = done r s1

abbrev printed : Sys → Option Sys → Run (Unit {0})
printed s none = runs_on s
printed s (some s1) = done tt s1

-- The wrappers of the calls. `frame` is where the kernel puts the local `dentry_t` of a call.
unfoldable pub ece391_read : ℕ → ℕ → ℕ → ℕ → Program ℕ
ece391_read frame fd buf nbytes s = elim (read frame fd buf nbytes s) [
  | finished r s1 ↦ done r s1
  | waiting_rtc s1 ↦ ticks s1 (λ r s2. done r s2)
  | waiting_terminal s1 ↦ asks buf nbytes s1 (λ r s2. done r s2)
  | stuck ↦ runs_on s
]

unfoldable pub ece391_write : ℕ → ℕ → ℕ → Program ℕ
ece391_write fd buf nbytes s = let (r, s1) = write fd buf nbytes s in done r s1

unfoldable pub ece391_open : ℕ → ℕ → Program ℕ
ece391_open frame filename s = returned s (open_call frame filename s)

unfoldable pub ece391_close : ℕ → Program ℕ
ece391_close fd s = let (r, s1) = close fd s in done r s1

unfoldable pub ece391_getargs : ℕ → ℕ → Program ℕ
ece391_getargs buf nbytes s = returned s (getargs buf nbytes s)

unfoldable pub ece391_vidmap : ℕ → Program ℕ
ece391_vidmap screen_start s = let (r, s1) = vidmap screen_start s in done r s1

unfoldable pub ece391_set_handler : ℕ → ℕ → Program ℕ
ece391_set_handler signum handler_address s = done (set_handler signum handler_address) s

unfoldable pub ece391_execute : ℕ → Program ℕ
ece391_execute command s = executes command s (λ r s1. done r s1)

-- `ece391_fdputs (1, text)`.
unfoldable pub print : ℕ → Program (Unit {0})
print text s = printed s (ece391_fdputs 1 text s)

unfoldable pub store_list : Mem → ℕ → List ℕ → Mem
store_list m a [] = m
store_list m a (b ∷ bytes) = store_list (store m a b) (a + 1) bytes

-- How the kernel goes on when the line that `asks` waits for is there: the bytes are in the buffer.
unfoldable pub line_taken : ℕ → ℕ → Sys → ℕ × Sys
line_taken buf nbytes s =
    let (n, bytes, c) = terminal_read_finish nbytes s.machine.console in
    (n, with_console (record s { mem = store_list s.mem buf bytes }) c)

-- The program goes on with the line that is there in the state `s1`.
unfoldable pub answered {ℓ} : {A : Type ℓ} → Run A → Sys → Run A
answered (done a s) s1 = done a s
answered (asks buf n s rest) s1 = let (r, s2) = line_taken buf n s1 in rest r s2
answered (ticks s rest) s1 = ticks s rest
answered (executes c s rest) s1 = executes c s rest
answered (runs_on s) s1 = runs_on s
