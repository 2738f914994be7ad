-- ===== src/User/Library/Prints.antt =====
-- What the programs print.
use ece391os.Prelude.{
  ℕ, ◌^◌, ◌<◌, ◌≡◌, ◌≢◌, refl, ap, arith, false, some, ◌==◌, minus_one, signed_lt,
}
use ece391os.Memory.{Mem}
use ece391os.Text.Length.{IsString, strlen_of_string}
use ece391os.Descriptor.{stdout_table}
use ece391os.Console.{putc_from}
use ece391os.Keyboard.{terminal_write}
use ece391os.Process.{Sys, with_console}
use ece391os.Syscalls.{write, jump_write}
use ece391os.User.Library.{ece391_fdputs}
use ece391os.User.Library.Equal.{strlen_equal}

-- Descriptor 1 is the terminal.
pub record HasTerminal (s : Sys) : Type 0 where
  pub table : (s.pcb.fdt 1).jump_ptr ≡ stdout_table
  pub used : (s.pcb.fdt 1).flags ≡ 1

pub write-printed :
    (s : Sys) (buf n : ℕ)
    → HasTerminal s
    → buf ≢ 0
    → n < 2 ^ 31
    → write 1 buf n s ≡ (n, with_console s (putc_from n s.mem buf s.machine.console))
unfolding write jump_write terminal_write
write-printed s buf n t ne small =
    let open_fd : ((s.pcb.fdt 1).flags == minus_one) ≡ false = ground (arith, t.used) in
    let some_buf : (buf == 0) ≡ false = ground (arith, ne) in
    let positive : signed_lt n 0 ≡ false = ground (arith, small) in
    rw (open_fd, t.table, some_buf, positive) refl

-- A string of `n` bytes that a program can print.
pub record IsText (m : Mem) (text n : ℕ) : Type 0 where
  pub string : IsString m text n
  pub small : n < 2 ^ 31
  pub there : text ≢ 0

-- The state after a string is printed.
abbrev pub shown : Sys → ℕ → ℕ → Sys
shown s text n = with_console s (putc_from n s.mem text s.machine.console)

pub fdputs-shown :
    (s : Sys) (text n : ℕ)
    → HasTerminal s
    → IsText s.mem text n
    → ece391_fdputs 1 text s ≡ some (shown s text n)
unfolding ece391_fdputs
fdputs-shown s text n t x =
    rw (ece391_fdputs, strlen_equal s.mem text, strlen_of_string s.mem text n x.string)
      (ap (λ (r : ℕ × Sys). some r.1) (write-printed s text n t x.there x.small))
