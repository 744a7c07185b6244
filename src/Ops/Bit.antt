-- ===== src/Ops/Bit.antt =====
-- opcodes.c: the handlers of single bits. A bit address below 0x80 is a bit of 0x20..0x2f; one
-- above is a bit of the register at the address with its low three bits cleared.
pub mod Valid
pub mod Laws
use emu8051_stc.Prelude.{
  ℕ, ◌+◌, ◌-◌, ◌*◌, ◌/◌, ◌^◌, bit_and, bit_or, bit_xor, ltb, nonzero, if◌then◌else◌, not, and_not,
}
use emu8051_stc.Cpu.{Cpu, Hooks, set_sfr, set_lower}
use emu8051_stc.Cpu.Regs.{psw_c}
use emu8051_stc.Mem.{psw, operand1, operand2, carry, read_sfr, sfr_written, set_psw, add_pc, branch}

-- `uint8_t bitaddr = address & 7; uint8_t bitmask = (1 << bitaddr);`
unfoldable pub bitmask : ℕ → ℕ
bitmask address = 2 ^ bit_and address 7

-- `address &= 0xf8;`
unfoldable pub sfr_of_bit : ℕ → ℕ
sfr_of_bit address = bit_and address 0xf8

-- `address >>= 3; address += 0x20;`
unfoldable pub byte_of_bit : ℕ → ℕ
byte_of_bit address = address / 8 + 0x20

-- `PSW = (PSW & ~PSWMASK_C) | (PSWMASK_C * value);`
unfoldable pub put_carry : {E : Type 0} → Cpu E → ℕ → Cpu E
put_carry c value = set_psw c (bit_or (and_not (psw c) psw_c) (psw_c * value))

module _ {E : Type 0} (hooks : Hooks E) (c : Cpu E) where
  -- The addressed bit, in place, of what the pins show: a register is read through `sfrread`.
  unfoldable pub read_bit : ℕ → ℕ × Cpu E
  read_bit address =
      let (value, c1) =
        if ltb 0x7f address
        then read_sfr hooks c (sfr_of_bit address)
        else (c.lower_data (byte_of_bit address), c) in
      (bit_and value (bitmask address), c1)

  -- A change of the byte that holds the bit: of the latch, where it is a register.
  unfoldable pub change_byte : ℕ → (ℕ → ℕ) → Cpu E
  change_byte address f =
      let reg = sfr_of_bit address in
      let i = reg - 0x80 in
      let j = byte_of_bit address in
      if ltb 0x7f address
      then sfr_written hooks (set_sfr c i (f (c.sfr i))) reg
      else set_lower c j (f (c.lower_data j))

  -- JBC tests the latch. Of a register, `sfrwrite` is called after the jump is taken.
  unfoldable pub jbc_sfr : ℕ → Cpu E
  jbc_sfr address =
      let i = sfr_of_bit address - 0x80 in
      let set = nonzero (bit_and (c.sfr i) (bitmask address)) in
      let c1 = if set then set_sfr c i (and_not (c.sfr i) (bitmask address)) else c in
      let c2 = branch c1 set (operand2 c1) 3 in
      if set then sfr_written hooks c2 (sfr_of_bit address) else c2

  unfoldable pub jbc_lower : ℕ → Cpu E
  jbc_lower address =
      let i = byte_of_bit address in
      let set = nonzero (bit_and (c.lower_data i) (bitmask address)) in
      let c1 = if set then set_lower c i (and_not (c.lower_data i) (bitmask address)) else c in
      branch c1 set (operand2 c1) 3

  unfoldable pub jbc_bitaddr_offset : ℕ × Cpu E
  jbc_bitaddr_offset =
      let address = operand1 c in
      (2, if ltb 0x7f address then jbc_sfr address else jbc_lower address)

  unfoldable pub jb_bitaddr_offset : ℕ × Cpu E
  jb_bitaddr_offset =
      let (bit, c1) = read_bit (operand1 c) in (2, branch c1 (nonzero bit) (operand2 c1) 3)

  unfoldable pub jnb_bitaddr_offset : ℕ × Cpu E
  jnb_bitaddr_offset =
      let (bit, c1) = read_bit (operand1 c) in (2, branch c1 (not (nonzero bit)) (operand2 c1) 3)

  unfoldable pub orl_c_bitaddr : ℕ × Cpu E
  orl_c_bitaddr =
      let carry = carry c in
      let (bit, c1) = read_bit (operand1 c) in
      (2, add_pc (put_carry c1 (if nonzero bit then 1 else carry)) 2)

  unfoldable pub anl_c_bitaddr : ℕ × Cpu E
  anl_c_bitaddr =
      let carry = carry c in
      let (bit, c1) = read_bit (operand1 c) in
      (2, add_pc (put_carry c1 (if nonzero bit then carry else 0)) 2)

  unfoldable pub orl_c_compl_bitaddr : ℕ × Cpu E
  orl_c_compl_bitaddr =
      let carry = carry c in
      let (bit, c1) = read_bit (operand1 c) in
      (2, add_pc (put_carry c1 (if nonzero bit then carry else 1)) 2)

  unfoldable pub anl_c_compl_bitaddr : ℕ × Cpu E
  anl_c_compl_bitaddr =
      let carry = carry c in
      let (bit, c1) = read_bit (operand1 c) in
      (2, add_pc (put_carry c1 (if nonzero bit then 0 else carry)) 2)

  unfoldable pub mov_c_bitaddr : ℕ × Cpu E
  mov_c_bitaddr =
      let (bit, c1) = read_bit (operand1 c) in
      (0, add_pc (put_carry c1 (if nonzero bit then 1 else 0)) 2)

  unfoldable pub mov_bitaddr_c : ℕ × Cpu E
  mov_bitaddr_c =
      let address = operand1 c in
      let bit = carry c * bitmask address in
      (2, add_pc (change_byte address (λ x. bit_or (and_not x (bitmask address)) bit)) 2)

  unfoldable pub cpl_bitaddr : ℕ × Cpu E
  cpl_bitaddr =
      let address = operand1 c in
      (0, add_pc (change_byte address (λ x. bit_xor x (bitmask address))) 2)

  unfoldable pub clr_bitaddr : ℕ × Cpu E
  clr_bitaddr =
      let address = operand1 c in
      (0, add_pc (change_byte address (λ x. and_not x (bitmask address))) 2)

  unfoldable pub setb_bitaddr : ℕ × Cpu E
  setb_bitaddr =
      let address = operand1 c in
      (0, add_pc (change_byte address (λ x. bit_or x (bitmask address))) 2)

module _ {E : Type 0} (c : Cpu E) where
  unfoldable pub cpl_c : ℕ × Cpu E
  cpl_c = (0, add_pc (set_psw c (bit_xor (psw c) psw_c)) 1)

  unfoldable pub clr_c : ℕ × Cpu E
  clr_c = (0, add_pc (set_psw c (and_not (psw c) psw_c)) 1)

  unfoldable pub setb_c : ℕ × Cpu E
  setb_c = (0, add_pc (set_psw c (bit_or (psw c) psw_c)) 1)
