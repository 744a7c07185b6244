-- ===== src/Ops/Alu/Decimal.antt =====
-- DA A against sums of packed decimal numbers.
use emu8051_stc.Prelude.{
  ℕ, ◌+◌, ◌*◌, ◌/◌, ◌%◌, ◌<◌, ◌≡◌, refl, arith, nonzero, ltb, ◌||◌, if◌then◌else◌, Bool-cases, inl,
  inr, bit_and, bit_or, true, ◌==◌, ==_iff,
}
use emu8051_stc.Prelude.Bits.{passes_below, passes_below_lem, bit_and_15, byte_eq}
use emu8051_stc.Cpu.{Cpu}
use emu8051_stc.Cpu.Valid.{IsValid}
use emu8051_stc.Mem.{opened, acc, psw, operand1}
use emu8051_stc.Ops.Alu.{da_low, da_high, da_a, add_a_imm}
use emu8051_stc.Ops.Alu.Laws.{add_a_imm-IsSum}
use emu8051_stc.Ops.Alu.Valid.{add_a_imm-IsValid}

-- A byte of two decimal digits, and the number that it stands for.
pub record IsDecimal (x : ℕ) : Type 0 where
  pub low : x % 16 < 10
  pub high : x / 16 < 10

abbrev pub decimal : ℕ → ℕ
decimal x = x / 16 * 10 + x % 16

-- The PSW has the flags of the binary sum of `x`, `y` and a carry, AC as the 8051 defines it: the
-- carry out of bit 3.
pub record FlagsOfSum (p x y cin : ℕ) : Type 0 where
  pub carry : p / 0x80 % 2 ≡ (x + y + cin) / 0x100
  pub auxcarry : p / 0x40 % 2 ≡ (x % 16 + y % 16 + cin) / 16

-- The tests of the adjustment in arithmetic.
carry_bit : (p : ℕ) → p < 256 → bit_and p 0x80 ≡ p / 0x80 % 2 * 0x80
unfolding passes_below
carry_bit = byte_eq _ (λ p. p / 0x80 % 2 * 0x80) refl

auxcarry_bit : (p : ℕ) → p < 256 → bit_and p 0x40 ≡ p / 0x40 % 2 * 0x40
unfolding passes_below
auxcarry_bit = byte_eq _ (λ p. p / 0x40 % 2 * 0x40) refl

set_carry_bit : (p : ℕ) → p < 256 → bit_or p 0x80 ≡ p % 0x80 + 0x80
unfolding passes_below
set_carry_bit = byte_eq _ (λ p. p % 0x80 + 0x80) refl

high_table : passes_below 0x110 (λ n. bit_and n 0xff0 == n / 16 * 16) ≡ true
unfolding passes_below
high_table = refl

high_digits : (n : ℕ) → n < 0x110 → bit_and n 0xff0 ≡ n / 16 * 16
high_digits n lt =
    (==_iff _ _).0 (passes_below_lem 0x110 (λ n. bit_and n 0xff0 == n / 16 * 16) n high_table lt)

module _ {E : Type 0} (c : Cpu E) (h : IsValid c) where
  psw-lt : psw c < 0x100
  unfolding opened
  psw-lt = h.sfrs _

  acc-lt : acc c < 0x100
  unfolding opened
  acc-lt = h.sfrs _

  low_lem :
      da_low c ≡ (if ltb 9 (acc c % 16) || nonzero (psw c / 0x40 % 2) then acc c + 6 else acc c)
  unfolding da_low opened
  low_lem =
      let b = auxcarry_bit (c.sfr 0x50) (h.sfrs 0x50) in
      rw (bit_and_15 (c.sfr 0x60) (h.sfrs 0x60), b) (ground arith)

  high_lem :
      da_high c
      ≡ (if ltb 0x9f (da_low c) || nonzero (psw c / 0x80 % 2) then da_low c + 0x60 else da_low c)
  unfolding da_high opened
  high_lem =
      let b = carry_bit (c.sfr 0x50) (h.sfrs 0x50) in
      let lt : da_low c < 0x110 = rw low_lem (let ha = h.sfrs 0x60 in ground (arith, ha)) in
      rw (high_digits (da_low c) lt, b) (ground arith)

  a_lem : acc (da_a c).1 ≡ da_high c % 0x100
  unfolding da_a opened
  a_lem = ground arith

  psw_lem : psw (da_a c).1 / 0x80 ≡ (if ltb 0x99 (da_high c) then 1 else psw c / 0x80)
  unfolding da_a opened
  psw_lem =
      let hp = h.sfrs 0x50 in
      elim (Bool-cases (ltb 0x99 (da_high c))) [
        | inl e ↦ rw (e, set_carry_bit (c.sfr 0x50) hp) (ground arith)
        | inr e ↦ rw e (ground arith)
      ]

-- The adjustment of a binary sum, digit by digit.
adjusted : ℕ → ℕ → ℕ → ℕ
adjusted a carry auxcarry =
    let low = if ltb 9 (a % 16) || nonzero auxcarry then a + 6 else a in
    if ltb 0x9f low || nonzero carry then low + 0x60 else low

module _ (x y cin : ℕ) (dx : IsDecimal x) (dy : IsDecimal y) (hc : cin < 2) where
  adjusted_lem :
      let s = x + y + cin in
      let r = adjusted (s % 0x100) (s / 0x100) ((x % 16 + y % 16 + cin) / 16) in
      let total = decimal x + decimal y + cin in
      (r % 16 ≡ total % 10)
      × (r / 16 % 16 ≡ total / 10 % 10)
      × ((if ltb 0x99 r then 1 else s / 0x100) ≡ total / 100)
  unfolding adjusted
  adjusted_lem =
      let xl = dx.low in
      let xh = dx.high in
      let yl = dy.low in
      let yh = dy.high in
      let low_carries = Bool-cases (ltb 9 (x % 16 + y % 16 + cin)) in
      (
        elim low_carries [ inl e ↦ ground arith | inr e ↦ ground arith ],
        elim low_carries [ inl e ↦ ground arith | inr e ↦ ground arith ],
        elim low_carries [ inl e ↦ ground arith | inr e ↦ ground arith ],
      )

-- DA A after a binary sum of two packed decimal bytes and a carry, whose flags the PSW has, leaves
-- the two digits of the decimal sum in A and its hundreds in the carry.
pub da_a_lem :
    {E : Type 0} (c : Cpu E)
    → IsValid c
    → (x y cin : ℕ) → IsDecimal x
    → IsDecimal y
    → cin < 2
    → acc c ≡ (x + y + cin) % 0x100
    → FlagsOfSum (psw c) x y cin
    → let d = (da_a c).1 in
      IsDecimal (acc d) × (psw d / 0x80 * 100 + decimal (acc d) ≡ decimal x + decimal y + cin)
unfolding adjusted
da_a_lem c h x y cin dx dy hc sum f =
    let a = adjusted_lem x y cin dx dy hc in
    let hp = psw-lt c h in
    let high : da_high c
        ≡ adjusted ((x + y + cin) % 0x100) ((x + y + cin) / 0x100) ((x % 16 + y % 16 + cin) / 16) =
      rw (high_lem c h, low_lem c h, sum, f.carry, f.auxcarry) refl in
    let xl = dx.low in
    let xh = dx.high in
    let yl = dy.low in
    let yh = dy.high in
    let digits = a_lem c h in
    let carried = psw_lem c h in
    (
      record { low = ground (arith, a, digits, high); high = ground (arith, a, digits, high) },
      ground (arith, a, digits, high, carried),
    )

-- ADD A, #imm of two packed decimal bytes whose low digits sum to 8 or 9, both below 8, and then
-- DA A do not leave decimal digits: the auxiliary carry is that out of bit 2, and DA adds 6.
pub da_a-add_a_imm :
    {E : Type 0} (c : Cpu E)
    → IsValid c
    → IsDecimal (acc c)
    → IsDecimal (operand1 c)
    → acc c % 16 < 8
    → operand1 c % 16 < 8
    → 7 < acc c % 16 + operand1 c % 16
    → acc c % 16 + operand1 c % 16 < 10
    → ¬ IsDecimal (acc (da_a (add_a_imm c).1).1)
da_a-add_a_imm c h dx dy lx ly ge lt dec =
    let s = add_a_imm-IsSum c h in
    let v = add_a_imm-IsValid c h in
    let digits = a_lem _ v in
    let high = high_lem _ v in
    let low = low_lem _ v in
    let sum = s.sum in
    let aux = s.flags.at_ac in
    let bad = dec.low in
    let low6 : da_low (add_a_imm c).1 ≡ acc (add_a_imm c).1 + 6 = ground (arith, low, aux) in
    let out : acc (da_a (add_a_imm c).1).1 % 16 ≡ (acc (add_a_imm c).1 + 6) % 16 =
      ground (arith, high, low6, digits) in
    omega (arith, sum, out, bad)
