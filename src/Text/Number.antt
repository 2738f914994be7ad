-- ===== src/Text/Number.antt =====
-- Numbers as text: `itoa` and `strrev` of student-distrib/lib.c.
pub mod Reverse
pub mod Digits
pub mod Numeral
use ece391os.Prelude.{
  ℕ, zero, suc, ◌+◌, ◌-◌, ◌*◌, ◌/◌, ◌%◌, ◌^◌, ◌≤◌, ◌<◌, ◌≡◌, ◌≢◌, ◌↔◌, ◌⊎◌, inl, inr, refl, sym, ap,
  ◌∙◌, arith, Bool, true, false, ◌&&◌, ◌||◌, not, Option, none, some, if◌then◌else◌, ltb, leb, ◌==◌,
  ==_iff, ==_refl, Bool-cases, lt→ltb, le→ltb, ltb→lt, ltb→le, lt→leb, le→leb, leb→le, u8, u32,
  bit_and, bit_or, update, minus_one, signed_lt, sub32, length, get_or, set, List, [], ◌∷◌, ◌++◌,
}
use ece391os.Memory.{Mem, store}
use ece391os.Text.{strlen}

-- The loop of `strrev`, which ends when the two indices, of type `int32_t`, have met.
unfoldable pub swap_ends : ℕ → Mem → ℕ → ℕ → ℕ → Mem
swap_ends zero m s beg end = m
swap_ends (suc fuel) m s beg end =
    let tmp = m (s + end) in
    let m1 = store m (s + end) (m (s + beg)) in
    let rest = swap_ends fuel (store m1 (s + beg) tmp) s (u32 (beg + 1)) (sub32 end 1) in
    if signed_lt beg end then rest else m

-- Each round takes two of the bytes, so one for each byte is enough.
unfoldable pub strrev : Mem → ℕ → Option Mem
strrev m s = elim (strlen m s) [ none ↦ none | some len ↦ some (swap_ends len m s 0 (sub32 len 1)) ]

-- Character `i` of the 36 in the table `lookup`, and the NUL that follows.
abbrev pub lookup : ℕ → ℕ
lookup i = if ltb i 10 then 0x30 + i else if ltb i 36 then 0x41 + (i - 10) else 0

-- The loop of `itoa`, from the lowest digit up; `none` if it does not end or leaves the table.
-- With a radix of two or more, a number of 32 bits has at most 32 digits.
unfoldable pub put_digits : ℕ → Mem → ℕ → ℕ → ℕ → Option (Mem × ℕ)
put_digits zero m newbuf newval radix = none
put_digits (suc fuel) m newbuf newval radix =
    let i = newval % radix in
    let rest = put_digits fuel (store m newbuf (lookup i)) (newbuf + 1) (newval / radix) radix in
    if newval == 0 then some (m, newbuf) else if (radix == 0) || ltb 36 i then none else rest

-- The string is built at `buf`, which is also what the call returns.
unfoldable pub itoa : ℕ → ℕ → ℕ → Mem → Option Mem
itoa value buf radix m =
    let zero_text = store (store m buf 0x30) (buf + 1) 0 in
    elim (value == 0) [
      | true ↦ some zero_text
      | false ↦ elim (put_digits 33 m buf value radix) [
        | none ↦ none
        | some (m1, newbuf) ↦ strrev (store m1 newbuf 0) buf
      ]
    ]
