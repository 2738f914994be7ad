-- ===== src/User/Program/Calls.antt =====
-- The calls of a program, by what the kernel does.
use ece391os.Prelude.{
  ℕ, ◌^◌, ◌<◌, ◌≡◌, ◌≢◌, refl, arith, false, ◌||◌, some, ◌==◌, minus_one, signed_lt,
}
use ece391os.Process.{Sys, term_of, with_console}
use ece391os.Console.{Console, set_shell}
use ece391os.Descriptor.{stdin_table}
use ece391os.Keyboard.{terminal_read_start}
use ece391os.Syscalls.{finished, waiting_terminal, read, jump_read, write, open_call, close}
use ece391os.User.Library.{ece391_fdputs}
use ece391os.User.Library.Prints.{HasTerminal, IsText, shown, fdputs-shown}
use ece391os.User.Program.{
  Run, Program, ◌>>=◌, ◌>>◌, done, asks, ece391_read, ece391_write, ece391_open, ece391_close,
  print,
}

pub read_done :
    (frame fd buf n r : ℕ) (s s1 : Sys)
    → read frame fd buf n s ≡ finished r s1
    → ece391_read frame fd buf n s ≡ done r s1
unfolding ece391_read
read_done frame fd buf n r s s1 e = rw (ece391_read, e) refl

pub read_asks :
    (frame fd buf n : ℕ) (s s1 : Sys)
    → read frame fd buf n s ≡ waiting_terminal s1
    → ece391_read frame fd buf n s ≡ asks buf n s1 (λ r s2. done r s2)
unfolding ece391_read
read_asks frame fd buf n s s1 e = rw (ece391_read, e) refl

pub write_done :
    (fd buf n r : ℕ) (s s1 : Sys) → write fd buf n s ≡ (r, s1) → ece391_write fd buf n s ≡ done r s1
unfolding ece391_write
write_done fd buf n r s s1 e = rw (ece391_write, e) refl

pub open_done :
    (frame filename r : ℕ) (s s1 : Sys)
    → open_call frame filename s ≡ some (r, s1)
    → ece391_open frame filename s ≡ done r s1
unfolding ece391_open
open_done frame filename r s s1 e = rw (ece391_open, e) refl

pub close_done : (fd r : ℕ) (s s1 : Sys) → close fd s ≡ (r, s1) → ece391_close fd s ≡ done r s1
unfolding ece391_close
close_done fd r s s1 e = rw (ece391_close, e) refl

pub puts_done :
    (text : ℕ) (s s1 : Sys) → ece391_fdputs 1 text s ≡ some s1 → print text s ≡ done tt s1
unfolding print
puts_done text s s1 e = rw (print, e) refl

-- The state in which a program waits for a line: the flag of its terminal is cleared.
abbrev pub awaits : Sys → Sys
awaits s =
    let c = s.machine.console in
    with_console s (
      set_shell c (term_of s)
        (let t = c.terminals (term_of s) in record t { line_buffer_flag = 0 }))

-- The program has printed the `n` bytes at `text`, and nothing else, and waits for a line of at
-- most 1023 bytes at `buf`.
abbrev pub AsksAfter {ℓ} : {A : Type ℓ} → ℕ → ℕ → ℕ → Sys → Run A → Type ℓ
AsksAfter {A = A} text n buf s run =
    (rest : ℕ → Sys → Run A) × (run ≡ asks buf 1023 (awaits (shown s text n)) rest)

read_starts :
    (term buf n : ℕ) (c : Console)
    → buf ≢ 0
    → n < 2 ^ 31
    → terminal_read_start term buf n c
      ≡ some (set_shell c term (let t = c.terminals term in record t { line_buffer_flag = 0 }))
unfolding terminal_read_start
read_starts term buf n c ne small =
    let goes : ((buf == 0) || signed_lt n 0) ≡ false = ground (arith, ne) in rw goes refl

-- The read of a program from its terminal waits for a line.
pub read_waits :
    (frame buf n : ℕ) (s : Sys)
    → ((s.pcb.fdt 0).jump_ptr ≡ stdin_table) × ((s.pcb.fdt 0).flags ≡ 1)
    → buf ≢ 0
    → n < 2 ^ 31
    → read frame 0 buf n s ≡ waiting_terminal (awaits s)
unfolding read jump_read
read_waits frame buf n s (table, used) ne small =
    let open_fd : ((s.pcb.fdt 0).flags == minus_one) ≡ false = ground (arith, used) in
    rw (open_fd, table, jump_read, read_starts (term_of s) buf n s.machine.console ne small) refl

-- A program that begins with a text and a read.
pub asks_after {ℓ} :
    {A : Type ℓ} (text n frame buf : ℕ) (s : Sys) (next : ℕ → Program A)
    → HasTerminal s
    → ((s.pcb.fdt 0).jump_ptr ≡ stdin_table) × ((s.pcb.fdt 0).flags ≡ 1)
    → IsText s.mem text n
    → buf ≢ 0
    → AsksAfter text n buf s ((print text >> (ece391_read frame 0 buf 1023 >>= next)) s)
asks_after text n frame buf s next terminal input string ne =
    let asked = shown s text n in
    let wait = read_waits frame buf 1023 asked input ne (omega arith) in
    (
      next,
      rw
          (
            puts_done text s asked (fdputs-shown s text n terminal string),
            read_asks frame 0 buf 1023 asked (awaits asked) wait,
          )
          refl,
    )
