-- ===== src/Idt.antt =====
-- `initialize_idt` of student-distrib/idt_init.c, the gates of student-distrib/x86_desc.h, and the
-- system call's entry in student-distrib/linkage.S. Where the linker puts a handler is a
-- parameter, and a mask of the low or high half of a word is written as a remainder or a quotient.
pub mod Vectors
pub mod Gates
use ece391os.Prelude.{
  ℕ, zero, suc, ◌+◌, ◌-◌, ◌*◌, ◌/◌, ◌%◌, ◌^◌, ◌≤◌, ◌<◌, ◌≡◌, ◌≢◌, ◌↔◌, ◌⊎◌, inl, inr, refl, sym, ap,
  ◌∙◌, arith, Bool, true, false, ◌&&◌, ◌||◌, not, Option, none, some, if◌then◌else◌, ltb, leb, ◌==◌,
  ==_iff, ==_refl, Bool-cases, lt→ltb, le→ltb, ltb→lt, ltb→le, lt→leb, le→leb, leb→le, u8, u32,
  bit_and, bit_or, update, minus_one, signed_lt, sub32, length, get_or, set, List, [], ◌∷◌, ◌++◌,
}

-- The functions that a gate can lead to; `irq_handler` stands for `irq2_handler` to
-- `irq15_handler`.
pub data Handler : Type 0 where
  divide_error : Handler
  reserved : Handler
  nmi : Handler
  breakpoint : Handler
  overflow : Handler
  bound_range_exceeded : Handler
  invalid_opcode : Handler
  device_not : Handler
  double_fault : Handler
  segment_overrun : Handler
  invalid_tss : Handler
  segment_not_present : Handler
  stack_segment_fault : Handler
  general_protection : Handler
  page_fault : Handler
  math_fault : Handler
  alignment_check : Handler
  machine_check : Handler
  simd_floating_point_exception : Handler
  exception_func : Handler
  test_interrupt : Handler
  system_call_handler : Handler
  rtc_linkage : Handler
  keyboard_linkage : Handler
  pit_linkage : Handler
  irq_handler : (line : ℕ) → Handler

-- `idt_desc_t`, by its fields.
pub record IdtDesc : Type 0 where
  pub offset_15_00 : ℕ
  pub seg_selector : ℕ
  pub reserved4 : ℕ
  pub reserved3 : ℕ
  pub reserved2 : ℕ
  pub reserved1 : ℕ
  pub size : ℕ
  pub reserved0 : ℕ
  pub dpl : ℕ
  pub present : ℕ
  pub offset_31_16 : ℕ

abbrev pub Idt : Type 0
Idt = ℕ → IdtDesc

abbrev pub num_vec : ℕ
num_vec = 256

abbrev pub num_exception : ℕ
num_exception = 32

abbrev pub sys_call_index : ℕ
sys_call_index = 0x80

abbrev pub kernel_cs : ℕ
kernel_cs = 0x10

abbrev pub set_idt_entry : ℕ → ℕ → Idt → Idt
set_idt_entry i handler idt = update idt i (
    let str = idt i in
    record str { offset_31_16 = handler / 2 ^ 16 % 2 ^ 16; offset_15_00 = handler % 2 ^ 16 })

-- The fields of a gate before its handler: `reserved3` tells an exception's gate from an
-- interrupt's.
abbrev pub set_gate : ℕ → ℕ → ℕ → Idt → Idt
set_gate i dpl reserved3 idt = update idt i (
    let str = idt i in
    record str {
      present = 1;
      dpl = dpl;
      reserved0 = 0;
      size = 1;
      reserved1 = 1;
      reserved2 = 1;
      reserved3 = reserved3;
      reserved4 = 0;
      seg_selector = kernel_cs;
    })

-- The two loops, over `n` entries from `i` on.
unfoldable pub set_exceptions : ℕ → ℕ → ℕ → Idt → Idt
set_exceptions zero i handler idt = idt
set_exceptions (suc n) i handler idt =
    set_exceptions n (i + 1) handler (set_idt_entry i handler (set_gate i 0 1 idt))

unfoldable pub set_interrupts : ℕ → ℕ → ℕ → Idt → Idt
set_interrupts zero i handler idt = idt
set_interrupts (suc n) i handler idt =
    let idt1 = set_idt_entry i handler (set_gate i 0 0 idt) in
    set_interrupts n (i + 1) handler (if i == sys_call_index then idt else idt1)

-- The assignments at the end, in their order.
abbrev pub assignments : List (ℕ × Handler)
assignments =
    (0, divide_error)
    ∷ (1, reserved)
    ∷ (2, nmi)
    ∷ (3, breakpoint)
    ∷ (4, overflow)
    ∷ (5, bound_range_exceeded)
    ∷ (6, invalid_opcode)
    ∷ (7, device_not)
    ∷ (8, double_fault)
    ∷ (9, segment_overrun)
    ∷ (10, invalid_tss)
    ∷ (11, segment_not_present)
    ∷ (12, stack_segment_fault)
    ∷ (13, general_protection)
    ∷ (14, page_fault)
    ∷ (16, math_fault)
    ∷ (17, alignment_check)
    ∷ (18, machine_check)
    ∷ (19, simd_floating_point_exception)
    ∷ (0x28, rtc_linkage)
    ∷ (0x21, keyboard_linkage)
    ∷ (0x20, pit_linkage)
    ∷ (0x22, irq_handler 2)
    ∷ (0x23, irq_handler 3)
    ∷ (0x24, irq_handler 4)
    ∷ (0x25, irq_handler 5)
    ∷ (0x26, irq_handler 6)
    ∷ (0x27, irq_handler 7)
    ∷ (0x29, irq_handler 9)
    ∷ (0x2a, irq_handler 10)
    ∷ (0x2b, irq_handler 11)
    ∷ (0x2c, irq_handler 12)
    ∷ (0x2d, irq_handler 13)
    ∷ (0x2e, irq_handler 14)
    ∷ (0x2f, irq_handler 15)
    ∷ []

unfoldable pub set_entries : List (ℕ × Handler) → (Handler → ℕ) → Idt → Idt
set_entries [] address idt = idt
set_entries ((i, h) ∷ rest) address idt = set_entries rest address (set_idt_entry i (address h) idt)

unfoldable pub initialize_idt : (Handler → ℕ) → Idt → Idt
initialize_idt address idt =
    let idt1 = set_exceptions num_exception 0 (address exception_func) idt in
    let n = num_vec - num_exception in
    let idt2 = set_interrupts n num_exception (address test_interrupt) idt1 in
    let idt3 = set_gate sys_call_index 3 0 idt2 in
    set_entries assignments address
      (set_idt_entry sys_call_index (address system_call_handler) idt3)
