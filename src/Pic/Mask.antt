-- ===== src/Pic/Mask.antt =====
-- The mask registers of student-distrib/i8259.c, interrupt line by interrupt line.
use ece391os.Prelude.{
  ℕ, ◌+◌, ◌-◌, ◌/◌, ◌%◌, ◌^◌, ◌<◌, ◌≡◌, inl, inr, refl, arith, Bool, true, ◌&&◌, ◌||◌, not,
  if◌then◌else◌, ltb, ◌==◌, Bool-cases, bit_and, bit_or, [], ◌∷◌,
}
use ece391os.Prelude.Bits.{every, every_lem}
use ece391os.Pic.{
  Pic, Ports, mask, complement8, i8259_init, enable_irq, disable_irq, send_eoi, master_8259_port,
  slave_8259_port,
}

unfoldable pub bit_set : ℕ → ℕ → Bool
bit_set b j = b / 2 ^ j % 2 == 1

-- Interrupt line `irq`, from 0 to 15, is masked.
abbrev pub is_masked : Pic → ℕ → Bool
is_masked p irq = if ltb irq 8 then bit_set p.master_mask irq else bit_set p.slave_mask (irq - 8)

-- Both registers are bytes.
abbrev pub IsPic : Pic → Type 0
IsPic p = (p.master_mask < 256) × (p.slave_mask < 256)

abbrev bool_eq : Bool → Bool → Bool
bool_eq a b = if a then b else not b

bool_eq_sound : (a b : Bool) → bool_eq a b ≡ true → a ≡ b
bool_eq_sound a b h = ground arith

abbrev or_test : ℕ → ℕ → ℕ → Bool
or_test b i j = bool_eq (bit_set (bit_or b (mask i)) j) ((j == i) || bit_set b j)

abbrev and_test : ℕ → ℕ → ℕ → Bool
and_test b i j =
    bool_eq (bit_set (bit_and b (complement8 (mask i))) j) (not (j == i) && bit_set b j)

-- Both operations stay in a byte, and act on one bit; checked for every byte and every line.
abbrev row : (ℕ → ℕ → ℕ → Bool) → ℕ → Bool
row test b = every 8 (λ i. every 8 (λ j. test b i j))

or_table : every 256 (row or_test) ≡ true
unfolding every bit_set mask complement8
or_table = refl

and_table : every 256 (row and_test) ≡ true
unfolding every bit_set mask complement8
and_table = refl

abbrev size_test : ℕ → ℕ → Bool
size_test b i = ltb (bit_or b (mask i)) 256 && ltb (bit_and b (complement8 (mask i))) 256

size_table : every 256 (λ b. every 8 (size_test b)) ≡ true
unfolding every bit_set mask complement8
size_table = refl

look_up :
    (test : ℕ → ℕ → ℕ → Bool) (b i j : ℕ)
    → every 256 (row test) ≡ true
    → b < 256
    → i < 8
    → j < 8
    → test b i j ≡ true
look_up test b i j table hb hi hj =
    every_lem 8 (test b i) j
      (every_lem 8 (λ i'. every 8 (test b i')) i (every_lem 256 (row test) b table hb) hi) hj

or_bit :
    (b i j : ℕ)
    → b < 256
    → i < 8
    → j < 8
    → bit_set (bit_or b (mask i)) j ≡ ((j == i) || bit_set b j)
or_bit b i j hb hi hj = bool_eq_sound _ _ (look_up or_test b i j or_table hb hi hj)

and_bit :
    (b i j : ℕ)
    → b < 256
    → i < 8
    → j < 8
    → bit_set (bit_and b (complement8 (mask i))) j ≡ (not (j == i) && bit_set b j)
and_bit b i j hb hi hj = bool_eq_sound _ _ (look_up and_test b i j and_table hb hi hj)

sizes :
    (b i : ℕ)
    → b < 256
    → i < 8
    → (bit_or b (mask i) < 256) × (bit_and b (complement8 (mask i)) < 256)
sizes b i hb hi =
    let h : size_test b i ≡ true =
      every_lem 8 (size_test b) i (every_lem 256 (λ b'. every 8 (size_test b')) b size_table hb)
        hi in
    ground arith

-- `disable_irq` of any of the sixteen lines masks that line, `enable_irq` unmasks it, and
-- neither changes another line.
pub irq_lines :
    (p : Pic) (irq line : ℕ)
    → IsPic p
    → irq < 16
    → line < 16
    → (is_masked (disable_irq irq p) line ≡ ((line == irq) || is_masked p line))
      × (is_masked (enable_irq irq p) line ≡ (not (line == irq) && is_masked p line))
unfolding disable_irq enable_irq
irq_lines p irq line h hi hl = elim (Bool-cases (ltb irq 8)) [
  | inl low ↦ elim (Bool-cases (ltb line 8)) [
    | inl l ↦ (
      ground (arith, or_bit p.master_mask irq line),
      ground (arith, and_bit p.master_mask irq line),
    )
    | inr g ↦ (ground arith, ground arith)
  ]
  | inr high ↦ elim (Bool-cases (ltb line 8)) [
    | inl l ↦ (ground arith, ground arith)
    | inr g ↦ (
      ground (arith, or_bit p.slave_mask (irq - 8) (line - 8)),
      ground (arith, and_bit p.slave_mask (irq - 8) (line - 8)),
    )
  ]
]

-- The last byte written to a controller's data port.
abbrev pub last_written : ℕ → Ports → ℕ → ℕ
last_written port [] d = d
last_written port ((v, q) ∷ out) d = if q == port then v else last_written port out d

-- Both registers are bytes, and each controller was last told the register's value.
pub record IsSynced (p : Pic) (d : ℕ) : Type 0 where
  pub bytes : IsPic p
  pub master : last_written (master_8259_port + 1) p.out d ≡ p.master_mask
  pub slave : last_written (slave_8259_port + 1) p.out d ≡ p.slave_mask

ones : (j : ℕ) → j < 8 → bit_set 255 j ≡ true
unfolding every bit_set
ones j h = every_lem 8 (bit_set 255) j refl h

-- `i8259_init` leaves every line masked and both controllers programmed with those masks;
-- `enable_irq`, `disable_irq` and `send_eoi` of any of the sixteen lines keep registers and
-- controllers in step.
pub Pic-IsSynced :
    (p : Pic) (d irq : ℕ)
    → irq < 16
    → IsSynced p d
    → IsSynced (i8259_init p) d
      × ((line : ℕ) → line < 16 → is_masked (i8259_init p) line ≡ true)
      × IsSynced (enable_irq irq p) d
      × IsSynced (disable_irq irq p) d
      × IsSynced (send_eoi irq p) d
unfolding i8259_init enable_irq disable_irq send_eoi
Pic-IsSynced p d irq hi s = (
  ground arith,
  λ line hl. ground (arith, ones line, ones (line - 8)),
  ground (arith, sizes p.master_mask irq, sizes p.slave_mask (irq - 8)),
  ground (arith, sizes p.master_mask irq, sizes p.slave_mask (irq - 8)),
  ground arith,
)
