-- ===== src/User/Library/Equal.antt =====
-- The functions of syscalls/ece391support.c against those of student-distrib/lib.c.
use ece391os.Prelude.{
  ℕ, zero, suc, ◌+◌, ◌/◌, ◌%◌, ◌≡◌, inl, inr, refl, sym, ap, ◌∙◌, arith, Bool, true, false, Option,
  none, some, if◌then◌else◌, ◌==◌, ==_iff, Bool-cases, u32, signed_lt, sub32,
}
use ece391os.Memory.{Mem, store}
use ece391os.Text.{address_space, strlen_from, strlen, strcpy_from, strcpy}
use ece391os.Text.Number.{lookup, swap_ends, strrev, put_digits, itoa}
use ece391os.User.Library.{
  ece391_strlen_from, ece391_strlen, ece391_strcpy_from, ece391_strcpy, ece391_swap_ends,
  ece391_strrev, ece391_put_digits, ece391_itoa,
}

strlen_from_equal :
    (f : ℕ) (m : Mem) (s len : ℕ) → ece391_strlen_from f m (s + len) len ≡ strlen_from f m s len
unfolding ece391_strlen_from strlen_from
strlen_from_equal zero m s len = refl
strlen_from_equal (suc f) m s len =
    let e : s + len + 1 ≡ s + (len + 1) = omega arith in
    ground
      (arith, ap (λ a. ece391_strlen_from f m a (len + 1)) e, strlen_from_equal f m s (len + 1))

strlen_at : (f : ℕ) (m : Mem) (s : ℕ) → ece391_strlen_from f m s 0 ≡ strlen_from f m s 0
strlen_at f m s = ap (λ a. ece391_strlen_from f m a 0) (omega arith) ∙ strlen_from_equal f m s 0

pub strlen_equal : (m : Mem) (s : ℕ) → ece391_strlen m s ≡ strlen m s
unfolding ece391_strlen strlen
strlen_equal m s = strlen_at address_space m s

strcpy_from_equal : (f : ℕ) (m : Mem) (d s : ℕ) → ece391_strcpy_from f m d s ≡ strcpy_from f m d s
unfolding ece391_strcpy_from strcpy_from
strcpy_from_equal zero m d s = refl
strcpy_from_equal (suc f) m d s = elim (Bool-cases (m s == 0)) [
  | inl z ↦ let e : m s ≡ 0 = (==_iff _ _).0 z in rw z (ap (λ v. some (store m d v)) e)
  | inr nz ↦ rw nz (strcpy_from_equal f (store m d (m s)) (d + 1) (s + 1))
]

pub strcpy_equal : (m : Mem) (d s : ℕ) → ece391_strcpy m d s ≡ strcpy m d s
unfolding ece391_strcpy strcpy
strcpy_equal m d s = strcpy_from_equal address_space m d s

swap_ends_equal :
    (f : ℕ) (m : Mem) (s beg end : ℕ) → ece391_swap_ends f m s beg end ≡ swap_ends f m s beg end
unfolding ece391_swap_ends swap_ends
swap_ends_equal zero m s beg end = refl
swap_ends_equal (suc f) m s beg end = ground (
  arith,
  swap_ends_equal f (store (store m (s + end) (m (s + beg))) (s + beg) (m (s + end))) s
      (u32 (beg + 1)) (sub32 end 1),
)

-- A loop whose indices have met at the start does nothing.
swap_ends_done : (f : ℕ) (m : Mem) (s end : ℕ) → signed_lt 0 end ≡ false → swap_ends f m s 0 end ≡ m
unfolding swap_ends
swap_ends_done zero m s end met = refl
swap_ends_done (suc f) m s end met = rw met refl

reversed_equal :
    (len : ℕ) (m : Mem) (s end : ℕ)
    → (if signed_lt 0 end then ece391_swap_ends len m s 0 end else m) ≡ swap_ends len m s 0 end
reversed_equal len m s end = elim (Bool-cases (signed_lt 0 end)) [
  | inl apart ↦ rw apart (swap_ends_equal len m s 0 end)
  | inr met ↦ rw met (sym (swap_ends_done len m s end met))
]

pub strrev_equal : (m : Mem) (s : ℕ) → ece391_strrev m s ≡ strrev m s
unfolding ece391_strrev strrev
strrev_equal m s = rw (ece391_strrev, strlen_equal m s) (reversed (strlen m s))
  where
    reversed :
        (r : Option ℕ)
        → elim r as (λ _. Option Mem) [
          | none ↦ none
          | some len ↦
              let end = sub32 len 1 in
              some (if signed_lt 0 end then ece391_swap_ends len m s 0 end else m)
        ]
          ≡ elim r as (λ _. Option Mem) [
            | none ↦ none
            | some len ↦ some (swap_ends len m s 0 (sub32 len 1))
          ]
    reversed none = refl
    reversed (some len) = ap some (reversed_equal len m s (sub32 len 1))

put_digits_equal :
    (f : ℕ) (m : Mem) (newbuf newval radix : ℕ)
    → ece391_put_digits f m newbuf newval radix ≡ put_digits f m newbuf newval radix
unfolding ece391_put_digits put_digits
put_digits_equal zero m newbuf newval radix = refl
put_digits_equal (suc f) m newbuf newval radix = ground (
  arith,
  put_digits_equal f (store m newbuf (lookup (newval % radix))) (newbuf + 1) (newval / radix) radix,
)

converted :
    (z : Bool) (r r' : Option (Mem × ℕ)) (zero_text : Mem) (buf : ℕ)
    → r ≡ r'
    → elim z as (λ _. Option Mem) [
      | true ↦ some zero_text
      | false ↦ elim r as (λ _. Option Mem) [
        | none ↦ none
        | some (m1, newbuf) ↦ ece391_strrev (store m1 newbuf 0) buf
      ]
    ]
      ≡ elim z as (λ _. Option Mem) [
        | true ↦ some zero_text
        | false ↦ elim r' as (λ _. Option Mem) [
          | none ↦ none
          | some (m1, newbuf) ↦ strrev (store m1 newbuf 0) buf
        ]
      ]
converted true r r' zero_text buf e = refl
converted false r none zero_text buf e = rw e refl
converted false r (some (m1, newbuf)) zero_text buf e = rw e (strrev_equal (store m1 newbuf 0) buf)

pub itoa_equal :
    (value buf radix : ℕ) (m : Mem) → ece391_itoa value buf radix m ≡ itoa value buf radix m
unfolding ece391_itoa itoa
itoa_equal value buf radix m =
    converted (value == 0) (ece391_put_digits 33 m buf value radix)
      (put_digits 33 m buf value radix) (store (store m buf 0x30) (buf + 1) 0) buf
      (put_digits_equal 33 m buf value radix)

-- The string functions of the programs give what those of the kernel give, for any memory, pointers,
-- value and radix: the length, the copy, the reversed string and the numeral, and no result where
-- the kernel's give none.
pub support_equal :
    (m : Mem) (s d value radix : ℕ)
    → (ece391_strlen m s ≡ strlen m s)
      × (ece391_strcpy m d s ≡ strcpy m d s)
      × (ece391_strrev m s ≡ strrev m s)
      × (ece391_itoa value s radix m ≡ itoa value s radix m)
support_equal m s d value radix =
    (strlen_equal m s, strcpy_equal m d s, strrev_equal m s, itoa_equal value s radix m)
