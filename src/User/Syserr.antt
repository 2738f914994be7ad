-- ===== src/User/Syserr.antt =====
-- syscalls/ece391syserr.c: the program that makes system calls with bad arguments and prints
-- whether they fail. A loop takes the rounds that are left.
pub mod Ready
pub mod Names
pub mod Single
pub mod Opens
pub mod Passes
use ece391os.Prelude.{
  ℕ, zero, suc, ◌+◌, ◌-◌, ◌*◌, ◌/◌, ◌%◌, ◌^◌, ◌≤◌, ◌<◌, ◌≡◌, ◌≢◌, ◌↔◌, ◌⊎◌, inl, inr, refl, sym, ap,
  ◌∙◌, arith, Bool, true, false, ◌&&◌, ◌||◌, not, Option, none, some, if◌then◌else◌, ltb, leb, ◌==◌,
  ==_iff, ==_refl, Bool-cases, lt→ltb, le→ltb, ltb→lt, ltb→le, lt→leb, le→leb, leb→le, u8, u32,
  bit_and, bit_or, update, minus_one, signed_lt, sub32, length, get_or, set, List, [], ◌∷◌, ◌++◌,
}
use mathlib.Core.Path.{subst}
use ece391os.Process.{Sys}
use ece391os.Syscalls.Dispatch.{Call, system_call_handler}
use ece391os.User.Program.{
  Run, done, asks, ticks, executes, runs_on, Program, after, ◌>>=◌, ◌>>◌, give, peek, print,
  ece391_read, ece391_write, ece391_open, ece391_close, ece391_vidmap,
}

-- The texts that the program prints, by name.
pub data Message : Type 0 where
  read_fail write_fail close_fail : Message
  neg_fd_fail neg_fd_pass big_fd_fail big_fd_pass : Message
  open_lots_pass open_lots_fail : Message
  helloo_fail shel_fail empty_fail open_fail open_pass : Message
  unopened_close_fail unopened_read_fail unopened_write_fail unopened_fail unopened_pass : Message
  null_fail kernel_fail vidmap_fail vidmap_pass : Message
  stdin_fail stdout_fail stdin_out_fail stdin_out_pass : Message
  number_fail_0 number_fail_big number_fail_neg number_fail number_pass : Message
  choose no_choice overall_fail overall_pass invalid : Message

-- The file names that it opens.
pub data Name : Type 0 where
  dot helloo shel empty : Name

-- Where the compiler and the linker put what the program refers to: the texts, the names, the array
-- `buf` and, in the kernel, the local `dentry_t`. `call` is what a system call comes to that
-- `call_sys` makes with the registers as they are.
pub record Layout : Type 0 where
  pub say : Message → ℕ
  pub name : Name → ℕ
  pub buf : ℕ
  pub frame : ℕ
  pub call : Call → Sys → ℕ × Sys

abbrev pub neg_fd : ℕ
neg_fd = 2 ^ 32 - 1073741823

abbrev pub big_fd : ℕ
big_fd = 1073741823

unfoldable pub call_sys : Layout → ℕ → Program ℕ
call_sys p num s = let (r, s1) = system_call_handler p.call num s in done r s1

-- `if (-1 != result)`: the message, and `fail` is 2.
unfoldable pub check : Layout → Message → ℕ → ℕ → Program ℕ
check p m result fail = if result == minus_one then give fail else do print (p.say m); give 2

-- The end of a test.
unfoldable pub verdict : Layout → Message → Message → ℕ → Program ℕ
verdict p failed passed fail = do print (p.say (if fail == 0 then passed else failed)); give fail

-- The three calls of the first two tests.
unfoldable pub bad_descriptor : Layout → ℕ → Program ℕ
bad_descriptor p fd = do
  r ← ece391_read p.frame fd p.buf 31
  fail ← check p read_fail r 0
  w ← ece391_write fd p.buf 31
  fail1 ← check p write_fail w fail
  c ← ece391_close fd
  check p close_fail c fail1

unfoldable pub err_neg_fd : Layout → Program ℕ
unfolding bad_descriptor
err_neg_fd p = bad_descriptor p neg_fd >>= verdict p neg_fd_fail neg_fd_pass

unfoldable pub err_big_fd : Layout → Program ℕ
unfolding bad_descriptor
err_big_fd p = bad_descriptor p big_fd >>= verdict p big_fd_fail big_fd_pass

-- The number of opens of "." that fail.
unfoldable pub open_lots : Layout → ℕ → ℕ → Program ℕ
open_lots p zero cnt = give cnt
open_lots p (suc n) cnt = do
  fd ← ece391_open p.frame (p.name dot)
  open_lots p n (if fd == minus_one then cnt + 1 else cnt)

unfoldable pub close_lots : ℕ → ℕ → Program (Unit {0})
close_lots zero i = give tt
close_lots (suc n) i = do _ ← ece391_close i; close_lots n (i + 1)

unfoldable pub err_open_lots : Layout → Program ℕ
unfolding open_lots close_lots
err_open_lots p = do
  cnt ← open_lots p 7 0
  close_lots 6 2
  verdict p open_lots_fail open_lots_pass (if cnt == 1 then 0 else 2)

unfoldable pub err_open : Layout → Program ℕ
err_open p = do
  a ← ece391_open p.frame (p.name helloo)
  fail ← check p helloo_fail a 0
  b ← ece391_open p.frame (p.name shel)
  fail1 ← check p shel_fail b fail
  c ← ece391_open p.frame (p.name empty)
  fail2 ← check p empty_fail c fail1
  verdict p open_fail open_pass fail2

unfoldable pub close_all : Layout → ℕ → ℕ → ℕ → Program ℕ
close_all p zero i fail = give fail
close_all p (suc n) i fail = do
  r ← ece391_close i
  fail1 ← check p unopened_close_fail r fail
  close_all p n (i + 1) fail1

unfoldable pub read_all : Layout → ℕ → ℕ → ℕ → Program ℕ
read_all p zero i fail = give fail
read_all p (suc n) i fail = do
  r ← ece391_read p.frame i p.buf 31
  fail1 ← check p unopened_read_fail r fail
  read_all p n (i + 1) fail1

unfoldable pub write_all : Layout → ℕ → ℕ → ℕ → Program ℕ
write_all p zero i fail = give fail
write_all p (suc n) i fail = do
  r ← ece391_write i p.buf 31
  fail1 ← check p unopened_write_fail r fail
  write_all p n (i + 1) fail1

unfoldable pub err_unopened : Layout → Program ℕ
unfolding close_all read_all write_all
err_unopened p = do
  fail ← close_all p 8 0 0
  fail1 ← read_all p 6 2 fail
  fail2 ← write_all p 6 2 fail1
  verdict p unopened_fail unopened_pass fail2

unfoldable pub err_vidmap : Layout → Program ℕ
err_vidmap p = do
  a ← ece391_vidmap 0
  fail ← check p null_fail a 0
  b ← ece391_vidmap 0x40_0000
  fail1 ← check p kernel_fail b fail
  verdict p vidmap_fail vidmap_pass fail1

unfoldable pub err_stdin_out : Layout → Program ℕ
err_stdin_out p = do
  w ← ece391_write 0 p.buf 31
  fail ← check p stdin_fail w 0
  r ← ece391_read p.frame 1 p.buf 31
  fail1 ← check p stdout_fail r fail
  verdict p stdin_out_fail stdin_out_pass fail1

unfoldable pub err_syscall_num : Layout → Program ℕ
err_syscall_num p = do
  a ← call_sys p big_fd
  fail ← check p number_fail_0 a 0
  b ← call_sys p neg_fd
  fail1 ← check p number_fail_big b fail
  c ← call_sys p 0
  fail2 ← check p number_fail_neg c fail1
  verdict p number_fail number_pass fail2

-- Case 0 of the `switch`.
unfoldable pub run_all : Layout → Program ℕ
run_all p = do
  a ← err_neg_fd p
  b ← err_big_fd p
  c ← err_open_lots p
  d ← err_open p
  e ← err_unopened p
  f ← err_vidmap p
  g ← err_stdin_out p
  h ← err_syscall_num p
  verdict p overall_fail overall_pass (a + b + c + d + e + f + g + h)

-- The `switch`; `select` is a number of type `int`.
unfoldable pub select_test : Layout → ℕ → Program ℕ
select_test p select =
    if select == 0
    then run_all p
    else if select == 1
    then err_neg_fd p
    else if select == 2
    then err_big_fd p
    else if select == 3
    then err_open_lots p
    else if select == 4
    then err_open p
    else if select == 5
    then err_unopened p
    else if select == 6
    then err_vidmap p
    else if select == 7
    then err_stdin_out p
    else if select == 8
    then err_syscall_num p
    else do print (p.say invalid); give 0

-- `main`, with its own array `buf`.
unfoldable pub syserr : Layout → ℕ → Program ℕ
syserr p buf = do
  print (p.say choose)
  cnt ← ece391_read p.frame 0 buf 127
  if cnt == minus_one
      then (do print (p.say no_choice); give 2)
      else (do b ← peek buf; select_test p (sub32 b 0x30))
