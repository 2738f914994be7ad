-- ===== src/User/Cat.antt =====
-- syscalls/ece391cat.c. `frame` is where the kernel puts the local `dentry_t` of a call, and `none`
-- says that the program is still running: it waits in a read, or reads on.
pub mod Prints
pub mod Named
pub mod Whole
use ece391os.Prelude.{
  ℕ, zero, suc, ◌+◌, ◌-◌, ◌*◌, ◌/◌, ◌%◌, ◌^◌, ◌≤◌, ◌<◌, ◌≡◌, ◌≢◌, ◌↔◌, ◌⊎◌, inl, inr, refl, sym, ap,
  ◌∙◌, arith, Bool, true, false, ◌&&◌, ◌||◌, not, Option, none, some, if◌then◌else◌, ltb, leb, ◌==◌,
  ==_iff, ==_refl, Bool-cases, lt→ltb, le→ltb, ltb→lt, ltb→le, lt→leb, le→leb, leb→le, u8, u32,
  bit_and, bit_or, update, minus_one, signed_lt, sub32, length, get_or, set, List, [], ◌∷◌, ◌++◌,
}
use ece391os.Memory.{Mem}
use ece391os.Text.{address_space}
use ece391os.Process.{Sys}
use ece391os.User.Library.{ece391_fdputs}
use ece391os.Syscalls.{
  Reading, finished, waiting_rtc, waiting_terminal, stuck, read, write, open_call, getargs,
}

-- The end of the program with a message.
unfoldable pub gives_up : ℕ → ℕ → Sys → Option (ℕ × Sys)
gives_up status text s = elim (ece391_fdputs 1 text s) [ none ↦ none | some s1 ↦ some (status, s1) ]

-- Where the linker puts the three messages.
pub record Messages : Type 0 where
  pub no_arguments : ℕ
  pub no_file : ℕ
  pub no_read : ℕ

abbrev pub buf_size : ℕ
buf_size = 1024

-- The loop, by the rounds that are allowed.
unfoldable pub cat_loop : ℕ → Messages → ℕ → ℕ → ℕ → Sys → Option (ℕ × Sys)
cat_loop zero t frame fd buf s = none
cat_loop (suc fuel) t frame fd buf s = elim (read frame fd buf buf_size s) [
  | finished cnt s1 ↦
      let w = write 1 buf cnt s1 in
      let rest = cat_loop fuel t frame fd buf w.1 in
      if cnt == 0
      then some (0, s1)
      else if cnt == minus_one
      then gives_up 3 t.no_read s1
      else if w.0 == minus_one
      then some (3, w.1)
      else rest
  | waiting_rtc s1 ↦ none
  | waiting_terminal s1 ↦ none
  | stuck ↦ none
]

unfoldable pub cat : ℕ → Messages → ℕ → ℕ → Sys → Option (ℕ × Sys)
cat fuel t frame buf s = elim (getargs buf buf_size s) [
  | none ↦ none
  | some (ret, s1) ↦ elim (ret == 0) [
    | false ↦ gives_up 3 t.no_arguments s1
    | true ↦ elim (open_call frame buf s1) [
      | none ↦ none
      | some (fd, s2) ↦
          if fd == minus_one then gives_up 2 t.no_file s2 else cat_loop fuel t frame fd buf s2
    ]
  ]
]
