-- ===== src/Idt/Vectors.antt =====
-- Which handler each vector is assigned.
use ece391os.Prelude.{
  ℕ, ◌+◌, ◌-◌, ◌<◌, ◌≡◌, refl, sym, ap, ◌∙◌, arith, ◌&&◌, if◌then◌else◌, ltb, leb, ◌==◌, ==_iff,
  get_or, List, [], ◌∷◌,
}
use ece391os.Prelude.Bits.{every, every_lem}
use ece391os.Idt.{
  Handler, divide_error, reserved, nmi, breakpoint, overflow, bound_range_exceeded, invalid_opcode,
  device_not, double_fault, segment_overrun, invalid_tss, segment_not_present, stack_segment_fault,
  general_protection, page_fault, math_fault, alignment_check, machine_check,
  simd_floating_point_exception, rtc_linkage, keyboard_linkage, pit_linkage, irq_handler,
  exception_func, test_interrupt, system_call_handler, num_vec, num_exception, sys_call_index,
  assignments,
}

-- The last of the assignments to vector `v`, or else the default.
unfoldable pub handler_in : List (ℕ × Handler) → ℕ → Handler → Handler
handler_in [] v h = h
handler_in ((i, x) ∷ rest) v h = handler_in rest v (if v == i then x else h)

unfoldable pub default_handler : ℕ → Handler
default_handler v =
    if v == sys_call_index
    then system_call_handler
    else if ltb v num_exception
    then exception_func
    else test_interrupt

abbrev exceptions : List Handler
exceptions =
    divide_error ∷ reserved ∷ nmi ∷ breakpoint ∷ overflow ∷ bound_range_exceeded ∷ invalid_opcode
    ∷ device_not ∷ double_fault ∷ segment_overrun ∷ invalid_tss ∷ segment_not_present
    ∷ stack_segment_fault ∷ general_protection ∷ page_fault ∷ exception_func ∷ math_fault
    ∷ alignment_check ∷ machine_check ∷ simd_floating_point_exception ∷ []

-- The table of the processor and the board: exceptions by number, the lines of the interrupt
-- controllers from 0x20 on, the system call.
unfoldable pub handler_of : ℕ → Handler
handler_of v =
    if v == 0x80
    then system_call_handler
    else if v == 0x20
    then pit_linkage
    else if v == 0x21
    then keyboard_linkage
    else if v == 0x28
    then rtc_linkage
    else if leb 0x20 v && ltb v 0x30
    then irq_handler (v - 0x20)
    else if ltb v 0x20
    then get_or exceptions v exception_func
    else test_interrupt

-- Handlers by number, to compare them by evaluation.
unfoldable code : Handler → ℕ
code divide_error = 0
code reserved = 1
code nmi = 2
code breakpoint = 3
code overflow = 4
code bound_range_exceeded = 5
code invalid_opcode = 6
code device_not = 7
code double_fault = 8
code segment_overrun = 9
code invalid_tss = 10
code segment_not_present = 11
code stack_segment_fault = 12
code general_protection = 13
code page_fault = 14
code math_fault = 15
code alignment_check = 16
code machine_check = 17
code simd_floating_point_exception = 18
code exception_func = 19
code test_interrupt = 20
code system_call_handler = 21
code rtc_linkage = 22
code keyboard_linkage = 23
code pit_linkage = 24
code (irq_handler line) = 25 + line

abbrev numbered : List Handler
numbered =
    divide_error ∷ reserved ∷ nmi ∷ breakpoint ∷ overflow ∷ bound_range_exceeded ∷ invalid_opcode
    ∷ device_not ∷ double_fault ∷ segment_overrun ∷ invalid_tss ∷ segment_not_present
    ∷ stack_segment_fault ∷ general_protection ∷ page_fault ∷ math_fault ∷ alignment_check
    ∷ machine_check ∷ simd_floating_point_exception ∷ exception_func ∷ test_interrupt
    ∷ system_call_handler ∷ rtc_linkage ∷ keyboard_linkage ∷ pit_linkage ∷ []

decode : ℕ → Handler
decode k = if ltb k 25 then get_or numbered k exception_func else irq_handler (k - 25)

decode-code : (h : Handler) → decode (code h) ≡ h
unfolding decode code
decode-code divide_error = refl
decode-code reserved = refl
decode-code nmi = refl
decode-code breakpoint = refl
decode-code overflow = refl
decode-code bound_range_exceeded = refl
decode-code invalid_opcode = refl
decode-code device_not = refl
decode-code double_fault = refl
decode-code segment_overrun = refl
decode-code invalid_tss = refl
decode-code segment_not_present = refl
decode-code stack_segment_fault = refl
decode-code general_protection = refl
decode-code page_fault = refl
decode-code math_fault = refl
decode-code alignment_check = refl
decode-code machine_check = refl
decode-code simd_floating_point_exception = refl
decode-code exception_func = refl
decode-code test_interrupt = refl
decode-code system_call_handler = refl
decode-code rtc_linkage = refl
decode-code keyboard_linkage = refl
decode-code pit_linkage = refl
decode-code (irq_handler line) = ground arith

pub handler_in-assignments :
    (v : ℕ) → v < num_vec → handler_in assignments v (default_handler v) ≡ handler_of v
unfolding every handler_in handler_of default_handler code
handler_in-assignments v below =
    let same =
      every_lem num_vec
        (λ k. code (handler_in assignments k (default_handler k)) == code (handler_of k)) v refl
        below in
    sym (decode-code _) ∙ ap decode ((==_iff _ _).0 same) ∙ decode-code _
