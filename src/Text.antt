-- ===== src/Text.antt =====
-- The string functions of student-distrib/lib.c, over pointers into memory. A loop that stops at a
-- NUL byte takes fuel for the whole address space; `none` says that it found no NUL there.
pub mod Compare
pub mod Bytes
pub mod Outside
pub mod Copy
pub mod Length
pub mod Number
use ece391os.Prelude.{
  ℕ, zero, suc, ◌+◌, ◌-◌, ◌*◌, ◌/◌, ◌%◌, ◌^◌, ◌≤◌, ◌<◌, ◌≡◌, ◌≢◌, ◌↔◌, ◌⊎◌, inl, inr, refl, sym, ap,
  ◌∙◌, arith, Bool, true, false, ◌&&◌, ◌||◌, not, Option, none, some, if◌then◌else◌, ltb, leb, ◌==◌,
  ==_iff, Bool-cases, u8, u32, minus_one, signed_lt, sub32, length, get_or, set, List, [], ◌∷◌,
  ◌++◌,
}
use ece391os.Memory.{Mem, store, fill_bytes}

unfoldable pub strlen_from : ℕ → Mem → ℕ → ℕ → Option ℕ
strlen_from zero m s len = none
strlen_from (suc f) m s len =
    let rest = strlen_from f m s (len + 1) in if m (s + len) == 0 then some len else rest

abbrev pub address_space : ℕ
address_space = 2 ^ 32

unfoldable pub strlen : Mem → ℕ → Option ℕ
unfolding strlen_from
strlen m s = strlen_from address_space m s 0

-- `int8_t` is promoted with its sign.
abbrev pub sign_extend : ℕ → ℕ
sign_extend c = if ltb c 128 then c else c + 0xffff_ff00

unfoldable pub strncmp : Mem → ℕ → ℕ → ℕ → ℕ
strncmp m s1 s2 zero = 0
strncmp m s1 s2 (suc n) =
    let rest = strncmp m (s1 + 1) (s2 + 1) n in
    if not (m s1 == m s2) || (m s1 == 0)
    then sub32 (sign_extend (m s1)) (sign_extend (m s2))
    else rest

unfoldable pub strcpy_from : ℕ → Mem → ℕ → ℕ → Option Mem
strcpy_from zero m d s = none
strcpy_from (suc f) m d s =
    let rest = strcpy_from f (store m d (m s)) (d + 1) (s + 1) in
    if m s == 0 then some (store m d 0) else rest

unfoldable pub strcpy : Mem → ℕ → ℕ → Option Mem
unfolding strcpy_from
strcpy m d s = strcpy_from address_space m d s

-- The second loop of `strncpy` pads with NUL bytes.
unfoldable pub strncpy : Mem → ℕ → ℕ → ℕ → Mem
strncpy m d s zero = m
strncpy m d s (suc n) =
    let rest = strncpy (store m d (m s)) (d + 1) (s + 1) n in
    if m s == 0 then fill_bytes m d 0 (suc n) else rest
