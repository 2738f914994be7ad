-- ===== src/Console/Printf.antt =====
-- `puts` and `printf` of student-distrib/lib.c. The format, the arguments, which stand one after
-- the other from `esp` on, and the local buffers are in the memory of the caller; `none`: a string
-- or the format has no end.
pub mod Plain
pub mod Text
use ece391os.Prelude.{
  ℕ, zero, suc, ◌+◌, ◌-◌, ◌*◌, ◌/◌, ◌%◌, ◌^◌, ◌≤◌, ◌<◌, ◌≡◌, ◌≢◌, ◌↔◌, ◌⊎◌, inl, inr, refl, sym, ap,
  ◌∙◌, arith, Bool, true, false, ◌&&◌, ◌||◌, not, Option, none, some, if◌then◌else◌, ltb, leb, ◌==◌,
  ==_iff, ==_refl, Bool-cases, lt→ltb, le→ltb, ltb→lt, ltb→le, lt→leb, le→leb, leb→le, u8, u32,
  bit_and, bit_or, update, minus_one, signed_lt, sub32, length, get_or, set, List, [], ◌∷◌, ◌++◌,
}
use ece391os.Memory.{Mem, store, load32, fill_bytes}
use ece391os.Text.{address_space, strlen}
use ece391os.Text.Number.{itoa}
use ece391os.Console.{Console, putc, putc_from}

unfoldable pub puts : Mem → ℕ → Console → Option (ℕ × Console)
puts m s c = elim (strlen m s) [ none ↦ none | some index ↦ some (index, putc_from index m s c) ]

-- Where the compiler puts the three arrays `conv_buf`.
pub record Buffers : Type 0 where
  pub hexadecimal : ℕ
  pub unsigned : ℕ
  pub signed : ℕ

-- The locals of `printf`, with memory and the screen.
pub record Printing : Type 0 where
  pub buf : ℕ
  pub esp : ℕ
  pub mem : Mem
  pub console : Console

-- `esp++`.
abbrev pub next_arg : Printing → Printing
next_arg p = record p { esp = p.esp + 4 }

-- The memory that the conversion leaves is kept, and the string at `s` is shown.
unfoldable pub show_text : Option Mem → ℕ → Printing → Option Printing
show_text none s p = none
show_text (some m) s p = elim (puts m s p.console) [
  | none ↦ none
  | some (n, c) ↦ some (next_arg (record p { mem = m; console = c }))
]

-- `%#x`: the buffer's first eight bytes hold the zeros that are missing. Characters from
-- the start of the digits to the eighth are overwritten, and the string is shown from there on.
unfoldable pub show_padded : ℕ → Printing → Option Printing
show_padded conv_buf p = elim (itoa (load32 p.mem p.esp) (conv_buf + 8) 16 p.mem) [
  | none ↦ none
  | some m ↦ elim (strlen m (conv_buf + 8)) [
    | none ↦ none
    | some i ↦
        let m1 = fill_bytes m (conv_buf + i) 0x30 (8 - i) in show_text (some m1) (conv_buf + i) p
  ]
]

-- `%d`.
unfoldable pub show_signed : ℕ → Printing → Option Printing
show_signed conv_buf p =
    let value = load32 p.mem p.esp in
    let minus = store p.mem conv_buf 0x2d in
    if signed_lt value 0
    then show_text (itoa (sub32 0 value) (conv_buf + 1) 10 minus) conv_buf p
    else show_text (itoa value conv_buf 10 p.mem) conv_buf p

-- The conversions after `%`, at the character `c`.
unfoldable pub convert : Buffers → Bool → ℕ → Printing → Option Printing
convert b alternate c p =
    let value = load32 p.mem p.esp in
    let hex = show_text (itoa value b.hexadecimal 16 p.mem) b.hexadecimal p in
    if c == 0x25
    then some (record p { console = putc 0x25 p.console })
    else if c == 0x78
    then (if alternate then show_padded b.hexadecimal p else hex)
    else if c == 0x75
    then show_text (itoa value b.unsigned 10 p.mem) b.unsigned p
    else if c == 0x64
    then show_signed b.signed p
    else if c == 0x63
    then some (next_arg (record p { console = putc (u8 value) p.console }))
    else if c == 0x73
    then show_text (some p.mem) value p
    else some p

-- `format_char_switch`: every `#` goes round once more.
unfoldable pub format_char : ℕ → Buffers → Bool → Printing → Option Printing
format_char zero b alternate p = none
format_char (suc fuel) b alternate p =
    let rest = format_char fuel b true (record p { buf = p.buf + 1 }) in
    let c = p.mem p.buf in if c == 0x23 then rest else convert b alternate c p

unfoldable pub printf_from : ℕ → Buffers → Printing → Option Printing
printf_from zero b p = none
printf_from (suc fuel) b p =
    let c = p.mem p.buf in
    elim (c == 0) [
      | true ↦ some p
      | false ↦ elim (c == 0x25) [
        | true ↦ elim (format_char address_space b false (record p { buf = p.buf + 1 })) [
          | none ↦ none
          | some p1 ↦ printf_from fuel b (record p1 { buf = p1.buf + 1 })
        ]
        | false ↦ printf_from fuel b (record p { buf = p.buf + 1; console = putc c p.console })
      ]
    ]

-- The result and what is left; the arguments follow the format's address at `frame`.
unfoldable pub printf : Buffers → ℕ → ℕ → Mem → Console → Option (ℕ × Mem × Console)
printf b frame format m c =
    elim (printf_from address_space b
      (record { buf = format; esp = frame + 4; mem = m; console = c })) [
        | none ↦ none
        | some p ↦ some (sub32 p.buf format, p.mem, p.console)
      ]
