-- ===== src/User/Library.antt =====
-- syscalls/ece391support.c: the functions that the programs are linked with. A loop over a string
-- takes fuel for the whole address space; `none` says that the string has no end there.
pub mod Equal
pub mod Prints
pub mod Compare
use ece391os.Prelude.{
  ℕ, zero, suc, ◌+◌, ◌-◌, ◌*◌, ◌/◌, ◌%◌, ◌^◌, ◌≤◌, ◌<◌, ◌≡◌, ◌≢◌, ◌↔◌, ◌⊎◌, inl, inr, refl, sym, ap,
  ◌∙◌, arith, Bool, true, false, ◌&&◌, ◌||◌, not, Option, none, some, if◌then◌else◌, ltb, leb, ◌==◌,
  ==_iff, ==_refl, Bool-cases, lt→ltb, le→ltb, ltb→lt, ltb→le, lt→leb, le→leb, leb→le, u8, u32,
  bit_and, bit_or, update, minus_one, signed_lt, sub32, length, get_or, set, List, [], ◌∷◌, ◌++◌,
}
use ece391os.Memory.{Mem, store}
use ece391os.Text.{address_space}
use ece391os.Text.Number.{lookup}
use ece391os.Process.{Sys}
use ece391os.Syscalls.{write}

unfoldable pub ece391_strlen_from : ℕ → Mem → ℕ → ℕ → Option ℕ
ece391_strlen_from zero m s len = none
ece391_strlen_from (suc fuel) m s len =
    let rest = ece391_strlen_from fuel m (s + 1) (len + 1) in if m s == 0 then some len else rest

unfoldable pub ece391_strlen : Mem → ℕ → Option ℕ
unfolding ece391_strlen_from
ece391_strlen m s = ece391_strlen_from address_space m s 0

unfoldable pub ece391_strcpy_from : ℕ → Mem → ℕ → ℕ → Option Mem
ece391_strcpy_from zero m dst src = none
ece391_strcpy_from (suc fuel) m dst src =
    let m1 = store m dst (m src) in
    let rest = ece391_strcpy_from fuel m1 (dst + 1) (src + 1) in
    if m src == 0 then some m1 else rest

unfoldable pub ece391_strcpy : Mem → ℕ → ℕ → Option Mem
unfolding ece391_strcpy_from
ece391_strcpy m dst src = ece391_strcpy_from address_space m dst src

unfoldable pub ece391_fdputs : ℕ → ℕ → Sys → Option Sys
ece391_fdputs fd text s = elim (ece391_strlen s.mem text) [
  | none ↦ none
  | some len ↦ some (write fd text len s).1
]

-- The bytes are of type `uint8_t`, so their difference is that of numbers below 256.
unfoldable pub ece391_strcmp_from : ℕ → Mem → ℕ → ℕ → Option ℕ
ece391_strcmp_from zero m s1 s2 = none
ece391_strcmp_from (suc fuel) m s1 s2 =
    let rest = ece391_strcmp_from fuel m (s1 + 1) (s2 + 1) in
    if m s1 == m s2 then if m s1 == 0 then some 0 else rest else some (sub32 (m s1) (m s2))

unfoldable pub ece391_strcmp : Mem → ℕ → ℕ → Option ℕ
unfolding ece391_strcmp_from
ece391_strcmp m s1 s2 = ece391_strcmp_from address_space m s1 s2

-- The loop with `n` not 0, and the case of 0 before it.
unfoldable pub ece391_strncmp : Mem → ℕ → ℕ → ℕ → ℕ
ece391_strncmp m s1 s2 zero = 0
ece391_strncmp m s1 s2 (suc n) =
    let rest = ece391_strncmp m (s1 + 1) (s2 + 1) n in
    if m s1 == m s2 then if (m s1 == 0) || (n == 0) then 0 else rest else sub32 (m s1) (m s2)

-- The loop of `ece391_strrev` with the rounds that are left.
unfoldable pub ece391_swap_ends : ℕ → Mem → ℕ → ℕ → ℕ → Mem
ece391_swap_ends zero m s beg end = m
ece391_swap_ends (suc fuel) m s beg end =
    let tmp = m (s + end) in
    let m1 = store m (s + end) (m (s + beg)) in
    let rest = ece391_swap_ends fuel (store m1 (s + beg) tmp) s (u32 (beg + 1)) (sub32 end 1) in
    if signed_lt beg end then rest else m

unfoldable pub ece391_strrev : Mem → ℕ → Option Mem
ece391_strrev m s = elim (ece391_strlen m s) [
  | none ↦ none
  | some len ↦
      let end = sub32 len 1 in some (if signed_lt 0 end then ece391_swap_ends len m s 0 end else m)
]

-- The loop of `ece391_itoa`; `none` if it does not end or leaves the table of digits.
unfoldable pub ece391_put_digits : ℕ → Mem → ℕ → ℕ → ℕ → Option (Mem × ℕ)
ece391_put_digits zero m newbuf newval radix = none
ece391_put_digits (suc fuel) m newbuf newval radix =
    let i = newval % radix in
    let rest =
      ece391_put_digits fuel (store m newbuf (lookup i)) (newbuf + 1) (newval / radix) radix in
    if ltb 0 newval then if (radix == 0) || ltb 36 i then none else rest else some (m, newbuf)

unfoldable pub ece391_itoa : ℕ → ℕ → ℕ → Mem → Option Mem
ece391_itoa value buf radix m =
    let zero_text = store (store m buf 0x30) (buf + 1) 0 in
    elim (value == 0) [
      | true ↦ some zero_text
      | false ↦ elim (ece391_put_digits 33 m buf value radix) [
        | none ↦ none
        | some (m1, newbuf) ↦ ece391_strrev (store m1 newbuf 0) buf
      ]
    ]
