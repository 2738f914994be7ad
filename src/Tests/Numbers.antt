-- ===== src/Tests/Numbers.antt =====
-- The number 391 as text, the gate of the system call, and a program that divides by zero.
use ece391os.Prelude.{ℕ, ◌≡◌, arith, ◌&&◌, some, if◌then◌else◌, ltb, leb, ◌==◌}
use ece391os.Memory.{Mem}
use ece391os.Text.Number.{itoa}
use ece391os.Text.Number.Numeral.{IsNumeral, itoa-IsNumeral}
use ece391os.Idt.{IdtDesc, initialize_idt}
use ece391os.Idt.Gates.{IsGate, target, initialize_idt-IsGate}
use ece391os.Console.Printf.{Buffers}
use ece391os.Process.{Sys}
use ece391os.Tests.Image.{image}
use ece391os.Tests.Processes.{sys}

itoa-IsNumeral_example :
    (n : ℕ) × (m' : Mem) × (itoa 391 40000 10 image ≡ some m') × IsNumeral image m' 40000 10 391 n
itoa-IsNumeral_example = itoa-IsNumeral 391 40000 10 image (omega arith) (omega arith) (omega arith)

abbrev gate : IdtDesc
gate = record {
  offset_15_00 = 0;
  seg_selector = 0;
  reserved4 = 0;
  reserved3 = 0;
  reserved2 = 0;
  reserved1 = 0;
  size = 0;
  reserved0 = 0;
  dpl = 0;
  present = 0;
  offset_31_16 = 0;
}

-- All handlers at one address.
initialize_idt-IsGate_example :
    (target (initialize_idt (λ h. 0x40_1234) (λ v. gate) 0x80) ≡ 0x40_1234)
    × IsGate 3 0 (initialize_idt (λ h. 0x40_1234) (λ v. gate) 0x80)
initialize_idt-IsGate_example =
    initialize_idt-IsGate (λ h. 0x40_1234) (λ v. gate) 0x80 (λ h. omega arith) (omega arith)

-- "E%s" and a line break at 50000, "Zero" at 50010.
abbrev texts : Mem
texts a =
    if a == 50000
    then 69
    else if a == 50001
    then 0x25
    else if a == 50002
    then 0x73
    else if a == 50003
    then 10
    else if a == 50010
    then 90
    else if leb 50011 a && ltb a 50014
    then 101
    else 0

abbrev faulty : Sys
faulty = record sys { mem = texts }

abbrev buffers : Buffers
buffers = record { hexadecimal = 51000; unsigned = 51100; signed = 51200 }
