-- ===== src/User/Syserr/Single.antt =====
-- The tests of syscalls/ece391syserr.c that make calls which change nothing.
use ece391os.Prelude.{
  ℕ, zero, suc, ◌+◌, ◌^◌, ◌≤◌, ◌<◌, ◌≡◌, ◌⊎◌, inl, inr, refl, ◌∙◌, arith, true, false, ◌==◌,
  Bool-cases, minus_one, signed_lt,
}
use ece391os.Descriptor.{max_fd_num}
use ece391os.Process.{Sys, in_program}
use ece391os.Syscalls.{
  finished, read, write, close, vidmap, jump_read, jump_write, invalid_read, invalid_write,
}
use ece391os.Syscalls.Table.{refused}
use ece391os.Syscalls.Dispatch.{system_call_handler-refused}
use ece391os.User.Program.{done, Program, print, ece391_vidmap}
use ece391os.User.Program.Calls.{read_done, write_done, close_done}
use native.Mathlib.Decide.{dec_lt}
use ece391os.Paging.{user_prog}
use ece391os.User.Library.Prints.{shown, fdputs-shown}
use ece391os.User.Syserr.{
  Message, read_fail, write_fail, close_fail, unopened_close_fail, unopened_read_fail,
  unopened_write_fail, null_fail, kernel_fail, stdin_fail, stdout_fail, number_fail_0,
  number_fail_big, number_fail_neg, neg_fd_fail, neg_fd_pass, big_fd_fail, big_fd_pass,
  unopened_fail, unopened_pass, vidmap_fail, vidmap_pass, stdin_out_fail, stdin_out_pass,
  number_fail, number_pass, Layout, neg_fd, big_fd, call_sys, check, verdict, bad_descriptor,
  err_neg_fd, err_big_fd, close_all, read_all, write_all, err_unopened, err_vidmap, err_stdin_out,
  err_syscall_num,
}
use ece391os.User.Syserr.Ready.{IsReady, Passed}

-- A call that fails, as it should.
pub check_refused :
    (p : Layout) (x : Message) (fail : ℕ) (s : Sys) → check p x minus_one fail s ≡ done fail s
unfolding check
check_refused p x fail s = refl

-- The end of a test without a failure.
module _ (p : Layout) (len : Message → ℕ) (s : Sys) (h : IsReady p len s) where
  pub puts-shown : (x : Message) → print (p.say x) s ≡ done tt (shown s (p.say x) (len x))
  unfolding print
  puts-shown x = rw (fdputs-shown s (p.say x) (len x) h.terminal (h.strings.text x)) refl

  pub verdict_passed :
      (failed passed : Message)
      → verdict p failed passed 0 s ≡ done 0 (shown s (p.say passed) (len passed))
  unfolding verdict
  verdict_passed failed passed = rw (puts-shown passed) refl

  pub shown-Passed : (x : Message) → Passed p len s x (shown s (p.say x) (len x))
  shown-Passed x = record {
    ready = record {
      strings = h.strings;
      files = h.files;
      bytes = h.bytes;
      terminal = record { table = h.terminal.table; used = h.terminal.used };
      input = h.input;
      used = h.used;
      free = h.free;
    };
    kept = λ a out. refl;
    console = refl;
  }

abbrev Refuses : Layout → ℕ → Sys → Type 0
Refuses p fd s =
    (read p.frame fd p.buf 31 s ≡ finished minus_one s)
    × (write fd p.buf 31 s ≡ (minus_one, s))
    × (close fd s ≡ (minus_one, s))

bad_descriptor_refused :
    (p : Layout) (fd : ℕ) (s : Sys) → Refuses p fd s → bad_descriptor p fd s ≡ done 0 s
unfolding bad_descriptor
bad_descriptor_refused p fd s (r, w, c) =
    rw
      (
        read_done p.frame fd p.buf 31 minus_one s s r,
        check_refused p read_fail 0 s,
        write_done fd p.buf 31 minus_one s s w,
        check_refused p write_fail 0 s,
        close_done fd minus_one s s c,
      )
      (check_refused p close_fail 0 s)

neg_fd_refused : (p : Layout) (s : Sys) → Refuses p neg_fd s
unfolding read write close
neg_fd_refused p s = (refl, refl, refl)

big_fd_refused : (p : Layout) (s : Sys) → Refuses p big_fd s
unfolding read write close
big_fd_refused p s = (refl, refl, refl)

-- The loops over the descriptors that are not open.
module _ (p : Layout) (s : Sys) where
  read_all_refused :
      (n i : ℕ)
      → i + n ≡ 8
      → ((j : ℕ) → i ≤ j → j ≤ max_fd_num → (s.pcb.fdt j).flags ≡ minus_one)
      → read_all p n i 0 s ≡ done 0 s
  unfolding read_all
  read_all_refused zero i e free = refl
  read_all_refused (suc n) i e free =
      let none_open = refused p.frame i p.buf 31 s (free i (omega arith) (omega arith)) in
      rw
        (
          read_all,
          read_done p.frame i p.buf 31 minus_one s s none_open.0,
          check_refused p unopened_read_fail 0 s,
        )
        (read_all_refused n (i + 1) (omega arith) (λ j l h. free j (omega arith) h))

  write_all_refused :
      (n i : ℕ)
      → i + n ≡ 8
      → ((j : ℕ) → i ≤ j → j ≤ max_fd_num → (s.pcb.fdt j).flags ≡ minus_one)
      → write_all p n i 0 s ≡ done 0 s
  unfolding write_all
  write_all_refused zero i e free = refl
  write_all_refused (suc n) i e free =
      let none_open = refused p.frame i p.buf 31 s (free i (omega arith) (omega arith)) in
      rw
        (
          write_all,
          write_done i p.buf 31 minus_one s s none_open.1,
          check_refused p unopened_write_fail 0 s,
        )
        (write_all_refused n (i + 1) (omega arith) (λ j l h. free j (omega arith) h))

  close_low : (fd : ℕ) → fd < 2 → close fd s ≡ (minus_one, s)
  unfolding close
  close_low fd lt = let low : signed_lt fd 2 ≡ true = ground arith in rw low refl

  close_refused :
      (fd : ℕ)
      → fd ≤ max_fd_num
      → ((j : ℕ) → 2 ≤ j → j ≤ max_fd_num → (s.pcb.fdt j).flags ≡ minus_one)
      → close fd s ≡ (minus_one, s)
  close_refused fd le free = elim (dec_lt fd 2) [
    | yes low ↦ close_low fd low
    | no high ↦ (refused p.frame fd p.buf 31 s (free fd (omega arith) le)).2
  ]

  close_all_refused :
      (n i : ℕ)
      → i + n ≡ 8
      → ((j : ℕ) → 2 ≤ j → j ≤ max_fd_num → (s.pcb.fdt j).flags ≡ minus_one)
      → close_all p n i 0 s ≡ done 0 s
  unfolding close_all
  close_all_refused zero i e free = refl
  close_all_refused (suc n) i e free =
      rw
        (
          close_all,
          close_done i minus_one s s (close_refused i (omega arith) free),
          check_refused p unopened_close_fail 0 s,
        )
        (close_all_refused n (i + 1) (omega arith) free)

vidmap_refused : (a : ℕ) (s : Sys) → a < user_prog → vidmap a s ≡ (minus_one, s)
unfolding vidmap
vidmap_refused a s lt =
    let out : in_program a ≡ false = ground arith in
    elim (Bool-cases (a == 0)) [ inl null ↦ rw null refl | inr some_a ↦ rw (some_a, out) refl ]

-- What a test comes to that passes.
abbrev pub Passes : Layout → (Message → ℕ) → Sys → Program ℕ → Message → Type 0
Passes p len s test x = (s' : Sys) × (test s ≡ done 0 s') × Passed p len s x s'

module _ (p : Layout) (len : Message → ℕ) (s : Sys) (h : IsReady p len s) where
  pub passes :
      (test : Program ℕ) (failed passed : Message)
      → test s ≡ verdict p failed passed 0 s
      → Passes p len s test passed
  passes test failed passed e = (
    shown s (p.say passed) (len passed),
    e ∙ verdict_passed p len s h failed passed,
    shown-Passed p len s h passed,
  )

  pub err_neg_fd-Passes : Passes p len s (err_neg_fd p) neg_fd_pass
  unfolding err_neg_fd
  err_neg_fd-Passes =
      passes (err_neg_fd p) neg_fd_fail neg_fd_pass
        (rw (bad_descriptor_refused p neg_fd s (neg_fd_refused p s)) refl)

  pub err_big_fd-Passes : Passes p len s (err_big_fd p) big_fd_pass
  unfolding err_big_fd
  err_big_fd-Passes =
      passes (err_big_fd p) big_fd_fail big_fd_pass
        (rw (bad_descriptor_refused p big_fd s (big_fd_refused p s)) refl)

  pub err_unopened-Passes : Passes p len s (err_unopened p) unopened_pass
  unfolding err_unopened
  err_unopened-Passes = passes (err_unopened p) unopened_fail unopened_pass (
      rw
        (
          close_all_refused p s 8 0 refl all_free,
          read_all_refused p s 6 2 refl all_free,
          write_all_refused p s 6 2 refl all_free,
        )
        refl)
    where
      all_free : (j : ℕ) → 2 ≤ j → j ≤ max_fd_num → (s.pcb.fdt j).flags ≡ minus_one
      all_free j l below = h.free j l below (inr l)

  pub err_vidmap-Passes : Passes p len s (err_vidmap p) vidmap_pass
  unfolding err_vidmap ece391_vidmap
  err_vidmap-Passes = passes (err_vidmap p) vidmap_fail vidmap_pass (
      rw
        (
          vidmap_refused 0 s (omega arith),
          check_refused p null_fail 0 s,
          vidmap_refused 0x40_0000 s (omega arith),
          check_refused p kernel_fail 0 s,
        )
        refl)

  stdin_refused : write 0 p.buf 31 s ≡ (minus_one, s)
  unfolding write jump_write invalid_write
  stdin_refused =
      let open_fd : ((s.pcb.fdt 0).flags == minus_one) ≡ false = ground (arith, h.input) in
      rw (open_fd, h.input.0) refl

  stdout_refused : read p.frame 1 p.buf 31 s ≡ finished minus_one s
  unfolding read jump_read invalid_read
  stdout_refused =
      let open_fd : ((s.pcb.fdt 1).flags == minus_one) ≡ false = ground (arith, h.terminal.used) in
      rw (open_fd, h.terminal.table) refl

  pub err_stdin_out-Passes : Passes p len s (err_stdin_out p) stdin_out_pass
  unfolding err_stdin_out
  err_stdin_out-Passes = passes (err_stdin_out p) stdin_out_fail stdin_out_pass (
      rw
        (
          write_done 0 p.buf 31 minus_one s s stdin_refused,
          check_refused p stdin_fail 0 s,
          read_done p.frame 1 p.buf 31 minus_one s s stdout_refused,
          check_refused p stdout_fail 0 s,
        )
        refl)

  call_refused :
      (num : ℕ) → num < 2 ^ 32 → (num ≡ 0) ⊎ (10 < num) → call_sys p num s ≡ done minus_one s
  unfolding call_sys
  call_refused num word bad = rw (system_call_handler-refused p.call num s word bad) refl

  pub err_syscall_num-Passes : Passes p len s (err_syscall_num p) number_pass
  unfolding err_syscall_num
  err_syscall_num-Passes = passes (err_syscall_num p) number_fail number_pass (
      rw
        (
          call_refused big_fd (omega arith) (omega arith),
          check_refused p number_fail_0 0 s,
          call_refused neg_fd (omega arith) (omega arith),
          check_refused p number_fail_big 0 s,
          call_refused 0 (omega arith) (omega arith),
          check_refused p number_fail_neg 0 s,
        )
        refl)
