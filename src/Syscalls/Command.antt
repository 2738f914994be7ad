-- ===== src/Syscalls/Command.antt =====
-- The command line of `execute` of student-distrib/syscalls.c: the name of the program and its
-- arguments. The arrays `filename` and `args` are at addresses that the compiler chooses.
use ece391os.Prelude.{
  ℕ, zero, suc, ◌+◌, ◌-◌, ◌≤◌, ◌<◌, ◌≡◌, ◌≢◌, ◌⊎◌, sym, ◌∙◌, arith, true, false, ◌||◌, Option, none,
  some, if◌then◌else◌, ltb, ◌==◌,
}
use ece391os.Memory.{Mem, store, in_block}
use native.Mathlib.Decide.{ℕ_discrete}
use mathlib.Core.Path.{subst}
use ece391os.Text.{address_space}
use ece391os.FileSystem.{name_length}
use ece391os.Keyboard.{buf_length}

-- The loop that gets the file name, with the rounds that are left.
unfoldable pub copy_name : ℕ → Mem → ℕ → ℕ → ℕ → ℕ × Mem
copy_name zero m filename command i = (i, m)
copy_name (suc n) m filename command i =
    let rest = copy_name n (store m (filename + i) (m (command + i))) filename command (i + 1) in
    if (m (command + i) == 0) || (m (command + i) == 0x20) then (i, m) else rest

-- The length of the name, and memory with the name and its NUL.
unfoldable pub file_name : Mem → ℕ → ℕ → ℕ × Mem
file_name m filename command =
    let (i, m1) = copy_name name_length m filename command 0 in (i, store m1 (filename + i) 0)

-- The first byte that is not a space; the fuel is the whole address space.
unfoldable pub skip_spaces : ℕ → Mem → ℕ → Option ℕ
skip_spaces zero m a = none
skip_spaces (suc fuel) m a =
    let rest = skip_spaces fuel m (a + 1) in if m a == 0x20 then rest else some a

unfoldable pub copy_args : ℕ → Mem → ℕ → ℕ → ℕ → ℕ × Mem
copy_args zero m args from j = (j, m)
copy_args (suc n) m args from j =
    let rest = copy_args n (store m (args + j) (m (from + j))) args from (j + 1) in
    if m (from + j) == 0 then (j, m) else rest

-- The NUL behind the arguments, and the one at the end of the array.
unfoldable pub end_args : ℕ × Mem → ℕ → Mem
end_args (j, m) args =
    let m1 = if ltb j buf_length then store m (args + j) 0 else m in
    store m1 (args + (buf_length - 1)) 0

-- `command` is the rest of the command line behind the name.
unfoldable pub get_args : Mem → ℕ → ℕ → Option Mem
get_args m args command =
    let m0 = store m args 0 in
    elim (skip_spaces address_space m0 command) [
      | none ↦ none
      | some from ↦ some (end_args (copy_args buf_length m0 args from 0) args)
    ]

-- A word of `len` bytes, without a NUL or a space, stands at `command`, and ends there unless it
-- fills the name.
pub record IsWord (m : Mem) (command len : ℕ) : Type 0 where
  pub inside : (k : ℕ) → k < len → (m (command + k) ≢ 0) × (m (command + k) ≢ 0x20)
  pub ends : len < name_length → (m (command + len) ≡ 0) ⊎ (m (command + len) ≡ 0x20)
  pub short : len ≤ name_length

-- The word and a NUL at `filename`.
abbrev pub named : Mem → ℕ → ℕ → ℕ → Mem
named m filename command len a =
    if in_block filename len a
    then m (command + (a - filename))
    else if a == filename + len
    then 0
    else m a

copy_name_lem :
    (n i len : ℕ) (m : Mem) (filename command a : ℕ)
    → IsWord m command len
    → (filename + 33 ≤ command) ⊎ (command + 33 ≤ filename)
    → i ≤ len
    → i + n ≡ name_length
    → ((copy_name n m filename command i).0 ≡ len)
      × ((copy_name n m filename command i).1 a
          ≡ (if in_block (filename + i) (len - i) a then m (command + (a - filename)) else m a))
unfolding copy_name
copy_name_lem zero i len m filename command a w apart le e =
    (omega (arith, w.short), ground (arith, w.short))
copy_name_lem (suc n) i len m filename command a w apart le e = elim (ℕ_discrete i len) [
  | yes p ↦
      let stop : (m (command + i) == 0) || (m (command + i) == 0x20) ≡ true = ground (
        arith,
        subst (λ k. (m (command + k) ≡ 0) ⊎ (m (command + k) ≡ 0x20)) (sym p)
            (w.ends (omega arith)),
      ) in
      rw stop (p, ground arith)
  | no ne ↦
      let go : (m (command + i) == 0) || (m (command + i) == 0x20) ≡ false =
        ground (arith, w.inside i (omega arith)) in
      let (len_left, left) =
        copy_name_lem n (i + 1) len m1 filename command a word apart (omega arith) (omega arith) in
      rw go (len_left, left ∙ ground (arith, kept (a - filename)))
]
  where
    m1 : Mem
    m1 = store m (filename + i) (m (command + i))

    kept : (k : ℕ) → k ≤ 32 → m1 (command + k) ≡ m (command + k)
    kept k h = ground arith

    word : IsWord m1 command len
    word = record {
      inside = λ k h. ground (arith, kept k, w.inside k h, w.short);
      ends = λ h. ground (arith, kept len, w.ends h);
      short = w.short;
    }

-- `execute` takes as the name of the program the first word of the command line, up to a NUL, a
-- space or 32 bytes, and ends it by a NUL; no other byte of memory changes. The array for the name
-- and the command line do not overlap.
pub file_name-named :
    (m : Mem) (filename command len a : ℕ)
    → IsWord m command len
    → (filename + 33 ≤ command) ⊎ (command + 33 ≤ filename)
    → ((file_name m filename command).0 ≡ len)
      × ((file_name m filename command).1 a ≡ named m filename command len a)
unfolding file_name
file_name-named m filename command len a w apart =
    let (i, copied) =
      copy_name_lem name_length 0 len m filename command a w apart (omega arith) (omega arith) in
    (i, ground (arith, i, copied))
