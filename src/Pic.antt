-- ===== src/Pic.antt =====
-- student-distrib/i8259.c: the mask registers of the two interrupt controllers. What `outb` writes
-- to a port is recorded, latest first.
pub mod Mask
use ece391os.Prelude.{
  ℕ, zero, suc, ◌+◌, ◌-◌, ◌*◌, ◌/◌, ◌%◌, ◌^◌, ◌≤◌, ◌<◌, ◌≡◌, ◌≢◌, ◌↔◌, ◌⊎◌, inl, inr, refl, sym, ap,
  ◌∙◌, arith, Bool, true, false, ◌&&◌, ◌||◌, not, Option, none, some, if◌then◌else◌, ltb, leb, ◌==◌,
  ==_iff, Bool-cases, lt→ltb, le→ltb, ltb→lt, ltb→le, lt→leb, le→leb, leb→le, u8, u32, bit_and,
  bit_or, update, minus_one, signed_lt, sub32, length, get_or, set, List, [], ◌∷◌, ◌++◌,
}

-- `outb(data, port)`.
abbrev pub Ports : Type 0
Ports = List (ℕ × ℕ)

abbrev pub outb : ℕ → ℕ → Ports → Ports
outb v port out = (v, port) ∷ out

pub record Pic : Type 0 where
  pub master_mask : ℕ
  pub slave_mask : ℕ
  pub out : Ports

abbrev pub master_8259_port : ℕ
master_8259_port = 0x20

abbrev pub slave_8259_port : ℕ
slave_8259_port = 0xa0

abbrev pub eoi : ℕ
eoi = 0x60

-- The table `mask`.
unfoldable pub mask : ℕ → ℕ
mask i = get_or (0x01 ∷ 0x02 ∷ 0x04 ∷ 0x08 ∷ 0x10 ∷ 0x20 ∷ 0x40 ∷ 0x80 ∷ []) i 0

-- `~` on a byte.
unfoldable pub complement8 : ℕ → ℕ
complement8 b = 255 - b

unfoldable pub i8259_init : Pic → Pic
i8259_init p = record {
  master_mask = 0xff;
  slave_mask = 0xff;
  out = outb 0xff (slave_8259_port + 1) (
      outb 0xff (master_8259_port + 1) (
        outb 0x01 (slave_8259_port + 1) (
          outb 0x02 (slave_8259_port + 1) (
            outb 0x28 (slave_8259_port + 1) (
              outb 0x11 slave_8259_port (
                outb 0x01 (master_8259_port + 1) (
                  outb 0x04 (master_8259_port + 1) (
                    outb 0x20 (master_8259_port + 1) (
                      outb 0x11 master_8259_port (
                        outb 0xff (slave_8259_port + 1)
                          (outb 0xff (master_8259_port + 1) p.out)))))))))));
}

unfoldable pub enable_irq : ℕ → Pic → Pic
enable_irq irq_num p =
    if ltb irq_num 8
    then (let m = bit_and p.master_mask (complement8 (mask irq_num)) in
        record p { master_mask = m; out = outb m (master_8259_port + 1) p.out })
    else (let m = bit_and p.slave_mask (complement8 (mask (irq_num - 8))) in
        record p { slave_mask = m; out = outb m (slave_8259_port + 1) p.out })

unfoldable pub disable_irq : ℕ → Pic → Pic
disable_irq irq_num p =
    if ltb irq_num 8
    then (let m = bit_or p.master_mask (mask irq_num) in
        record p { master_mask = m; out = outb m (master_8259_port + 1) p.out })
    else (let m = bit_or p.slave_mask (mask (irq_num - 8)) in
        record p { slave_mask = m; out = outb m (slave_8259_port + 1) p.out })

unfoldable pub send_eoi : ℕ → Pic → Pic
send_eoi irq_num p = record p {
  out =
      if leb 8 irq_num
      then outb (bit_or eoi 0x2) master_8259_port
          (outb (bit_or eoi (irq_num - 8)) slave_8259_port p.out)
      else outb (bit_or eoi irq_num) master_8259_port p.out;
}
