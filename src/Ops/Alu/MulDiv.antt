-- ===== src/Ops/Alu/MulDiv.antt =====
-- MUL, DIV and INC DPTR against arithmetic.
use emu8051_stc.Prelude.{
  ℕ, ◌+◌, ◌*◌, ◌/◌, ◌%◌, ◌<◌, ◌≡◌, arith, ltb, nonzero, if◌then◌else◌, bit_or, and_not, u8, u16,
  ◌⊎◌, Bool-cases, inl, inr,
}
use emu8051_stc.Prelude.Bits.{bit_and_low, bit_or_word}
use native.Mathlib.Nat.{div-add-mod}
use emu8051_stc.Cpu.{Cpu}
use emu8051_stc.Cpu.Valid.{IsValid}
use emu8051_stc.Cpu.Regs.{reg_b}
use emu8051_stc.Mem.{opened, acc, psw, dptr}
use emu8051_stc.Flags.Laws.{HasFlags, cleared_flags}
use emu8051_stc.Ops.Alu.{mul_ab, div_ab, inc_dptr}

byte_product : (a b : ℕ) → a < 0x100 → b < 0x100 → a * b < 0x10000
byte_product a b ha hb = grind arith

module _ {E : Type 0} (c : Cpu E) (h : IsValid c) where
  -- MUL leaves the 16-bit product in B and A, clears the carry, and sets the overflow where the
  -- product does not fit a byte.
  mul_ab_lem :
      let d = (mul_ab c).1 in
      (d.sfr reg_b * 0x100 + acc d ≡ acc c * c.sfr reg_b)
      × HasFlags
          (psw c)
          (psw d)
          0
          (psw c / 0x40 % 2)
          (if ltb 0xff (acc c * c.sfr reg_b) then 1 else 0)
  unfolding mul_ab opened
  mul_ab_lem =
      let a = c.sfr 0x60 in
      let b = c.sfr 0x70 in
      let lt = byte_product a b (h.sfrs 0x60) (h.sfrs 0x70) in
      let low = bit_and_low (a * b % 0x10000) (omega arith) in
      let f = cleared_flags (c.sfr 0x50) (h.sfrs 0x50) in
      let fits0 : u8 (and_not (c.sfr 0x50) 0x84) ≡ and_not (c.sfr 0x50) 0x84 =
        omega (arith, f.0.byte) in
      let fits1 : u8 (bit_or (and_not (c.sfr 0x50) 0x84) 4) ≡ bit_or (and_not (c.sfr 0x50) 0x84) 4 =
        omega (arith, f.1.byte) in
      let test : nonzero (u8 (u16 (a * b) / 0x100)) ≡ ltb 0xff (a * b) = ground arith in
      elim (Bool-cases (ltb 0xff (a * b))) [
        | inl e ↦ (rw (test, e) (omega (arith, low, lt)), rw (test, e, fits0, fits1) f.1)
        | inr e ↦ (rw (test, e) (omega (arith, low, lt)), rw (test, e, fits0) f.0)
      ]

  -- In a valid machine DIV by a number other than 0 leaves the quotient in A and the remainder in B
  -- and clears the carry and the overflow; DIV by 0 changes neither register, clears the carry and
  -- sets the overflow.
  pub div_ab_lem :
      let d = (div_ab c).1 in
      ((0 < c.sfr reg_b)
        × (acc c ≡ acc d * c.sfr reg_b + d.sfr reg_b)
        × (d.sfr reg_b < c.sfr reg_b)
        × HasFlags (psw c) (psw d) 0 (psw c / 0x40 % 2) 0)
      ⊎ ((c.sfr reg_b ≡ 0)
          × (acc d ≡ acc c)
          × (d.sfr reg_b ≡ 0)
          × HasFlags (psw c) (psw d) 0 (psw c / 0x40 % 2) 1)
  unfolding div_ab opened
  div_ab_lem =
      let a = c.sfr 0x60 in
      let b = c.sfr 0x70 in
      let ha = h.sfrs 0x60 in
      let hb = h.sfrs 0x70 in
      let f = cleared_flags (c.sfr 0x50) (h.sfrs 0x50) in
      let fits0 : u8 (and_not (c.sfr 0x50) 0x84) ≡ and_not (c.sfr 0x50) 0x84 =
        omega (arith, f.0.byte) in
      let fits1 : u8 (bit_or (and_not (c.sfr 0x50) 0x84) 4) ≡ bit_or (and_not (c.sfr 0x50) 0x84) 4 =
        omega (arith, f.1.byte) in
      elim (Bool-cases (nonzero (c.sfr 0x70))) [
        | inl e ↦ inl (
          ground arith,
          rw e (ground (arith, div-add-mod a b)),
          rw e (ground arith),
          rw (e, fits0) f.0,
        )
        | inr e ↦
            inr (ground arith, rw e (omega arith), rw e (ground arith), rw (e, fits0, fits1) f.1)
      ]

  -- INC DPTR counts the two bytes as one word.
  pub inc_dptr_lem : dptr (inc_dptr c).1 ≡ (dptr c + 1) % 0x10000
  unfolding inc_dptr opened
  inc_dptr_lem =
      let lo = c.sfr 2 in
      let hi = c.sfr 3 in
      let hl = h.sfrs 2 in
      let hh = h.sfrs 3 in
      let w0 = bit_or_word hi lo hh hl in
      let w1 = bit_or_word hi ((lo + 1) % 256) hh (omega arith) in
      let w2 = bit_or_word ((hi + 1) % 256) ((lo + 1) % 256) (omega arith) (omega arith) in
      ground (arith, w0, w1, w2)
