-- ===== src/Ops/Alu.antt =====
-- opcodes.c: the handlers that compute with numbers (INC, DEC, ADD, ADDC, SUBB, MUL, DIV, DA).
pub mod Valid
pub mod Laws
pub mod Carry
pub mod Decimal
pub mod MulDiv
use emu8051_stc.Prelude.{
  ℕ, ◌+◌, ◌-◌, ◌*◌, ◌/◌, ◌%◌, bit_and, bit_or, ltb, nonzero, if◌then◌else◌, ◌||◌, u16, and_not,
}
use emu8051_stc.Cpu.{Cpu, Hooks, set_sfr, set_lower}
use emu8051_stc.Cpu.Regs.{reg_b, reg_dpl, reg_dph, psw_c, psw_ac, psw_ov}
use emu8051_stc.Mem.{
  psw, acc, operand1, indir_rx_address, rx_address, carry, read_mem, read_mem_indir, write_mem,
  write_mem_indir, set_acc, set_psw, add_pc,
}
use emu8051_stc.Flags.{add_solve_flags, sub_solve_flags}

module _ {E : Type 0} (c : Cpu E) where
  unfoldable pub inc_a : ℕ × Cpu E
  inc_a = (0, add_pc (set_acc c (acc c + 1)) 1)

  unfoldable pub inc_indir_rx : ℕ × Cpu E
  inc_indir_rx =
      let address = indir_rx_address c in
      let value = read_mem_indir c address in (0, add_pc (write_mem_indir c address (value + 1)) 1)

  unfoldable pub dec_a : ℕ × Cpu E
  dec_a = (0, add_pc (set_acc c (acc c + 0x100 - 1)) 1)

  unfoldable pub dec_indir_rx : ℕ × Cpu E
  dec_indir_rx =
      let address = indir_rx_address c in
      let value = read_mem_indir c address in
      (0, add_pc (write_mem_indir c address (value + 0x100 - 1)) 1)

  unfoldable pub inc_rx : ℕ × Cpu E
  inc_rx = let rx = rx_address c in (0, add_pc (set_lower c rx (c.lower_data rx + 1)) 1)

  unfoldable pub dec_rx : ℕ × Cpu E
  dec_rx = let rx = rx_address c in (0, add_pc (set_lower c rx (c.lower_data rx + 0x100 - 1)) 1)

  unfoldable pub add_a_imm : ℕ × Cpu E
  add_a_imm =
      let c1 = add_solve_flags c (acc c) (operand1 c) 0 in
      (0, add_pc (set_acc c1 (acc c1 + operand1 c1)) 2)

  unfoldable pub add_a_indir_rx : ℕ × Cpu E
  add_a_indir_rx =
      let value = read_mem_indir c (indir_rx_address c) in
      let c1 = add_solve_flags c (acc c) value 0 in (0, add_pc (set_acc c1 (acc c1 + value)) 1)

  unfoldable pub add_a_rx : ℕ × Cpu E
  add_a_rx =
      let rx = rx_address c in
      let c1 = add_solve_flags c (c.lower_data rx) (acc c) 0 in
      (0, add_pc (set_acc c1 (acc c1 + c1.lower_data rx)) 1)

  unfoldable pub addc_a_imm : ℕ × Cpu E
  addc_a_imm =
      let carry = carry c in
      let c1 = add_solve_flags c (acc c) (operand1 c) carry in
      (0, add_pc (set_acc c1 (acc c1 + (operand1 c1 + carry))) 2)

  unfoldable pub addc_a_indir_rx : ℕ × Cpu E
  addc_a_indir_rx =
      let carry = carry c in
      let value = read_mem_indir c (indir_rx_address c) in
      let c1 = add_solve_flags c (acc c) value carry in
      (0, add_pc (set_acc c1 (acc c1 + (value + carry))) 1)

  unfoldable pub addc_a_rx : ℕ × Cpu E
  addc_a_rx =
      let rx = rx_address c in
      let carry = carry c in
      let c1 = add_solve_flags c (c.lower_data rx) (acc c) carry in
      (0, add_pc (set_acc c1 (acc c1 + (c1.lower_data rx + carry))) 1)

  -- The subtrahend is at most 256; 512 keeps the difference above 0.
  unfoldable pub subb_a_imm : ℕ × Cpu E
  subb_a_imm =
      let carry = carry c in
      let c1 = sub_solve_flags c (acc c) (operand1 c) carry in
      (0, add_pc (set_acc c1 (acc c1 + 0x200 - (operand1 c1 + carry))) 2)

  unfoldable pub subb_a_indir_rx : ℕ × Cpu E
  subb_a_indir_rx =
      let carry = carry c in
      let value = read_mem_indir c (indir_rx_address c) in
      let c1 = sub_solve_flags c (acc c) value carry in
      (0, add_pc (set_acc c1 (acc c1 + 0x200 - (value + carry))) 1)

  unfoldable pub subb_a_rx : ℕ × Cpu E
  subb_a_rx =
      let rx = rx_address c in
      let carry = carry c in
      let c1 = sub_solve_flags c (acc c) (c.lower_data rx) carry in
      (0, add_pc (set_acc c1 (acc c1 + 0x200 - (c1.lower_data rx + carry))) 1)

  unfoldable pub div_ab : ℕ × Cpu E
  div_ab =
      let a = acc c in
      let b = c.sfr reg_b in
      let c1 = set_psw c (and_not (psw c) (psw_c + psw_ov)) in
      let c2 = if nonzero b then c1 else set_psw c1 (bit_or (psw c1) psw_ov) in
      let c3 = set_acc c2 (if nonzero b then a / b else a) in
      (4, add_pc (set_sfr c3 reg_b (if nonzero b then a % b else b)) 1)

  unfoldable pub mul_ab : ℕ × Cpu E
  mul_ab =
      let res = u16 (acc c * c.sfr reg_b) in
      let c1 = set_sfr (set_acc c (bit_and res 0xff)) reg_b (res / 0x100) in
      let c2 = set_psw c1 (and_not (psw c1) (psw_c + psw_ov)) in
      let c3 = if nonzero (c2.sfr reg_b) then set_psw c2 (bit_or (psw c2) psw_ov) else c2 in
      (4, add_pc c3 1)

  unfoldable pub inc_dptr : ℕ × Cpu E
  inc_dptr =
      let c1 = set_sfr c reg_dpl (c.sfr reg_dpl + 1) in
      let c2 = if nonzero (c1.sfr reg_dpl) then c1 else set_sfr c1 reg_dph (c1.sfr reg_dph + 1) in
      (2, add_pc c2 1)

  -- The two steps of the decimal adjustment, on `uint16_t result`.
  unfoldable pub da_low : ℕ
  da_low =
      let result = acc c in
      if ltb 9 (bit_and result 0xf) || nonzero (bit_and (psw c) psw_ac)
      then result + 0x6
      else result

  unfoldable pub da_high : ℕ
  da_high =
      if ltb 0x90 (bit_and da_low 0xff0) || nonzero (bit_and (psw c) psw_c)
      then da_low + 0x60
      else da_low

  unfoldable pub da_a : ℕ × Cpu E
  da_a =
      let c1 = if ltb 0x99 da_high then set_psw c (bit_or (psw c) psw_c) else c in
      (0, add_pc (set_acc c1 da_high) 1)

module _ {E : Type 0} (hooks : Hooks E) (c : Cpu E) where
  unfoldable pub inc_mem : ℕ × Cpu E
  inc_mem =
      let address = operand1 c in
      let (value, c1) = read_mem hooks c address in
      (2, add_pc (write_mem hooks c1 address (value + 1)) 2)

  unfoldable pub dec_mem : ℕ × Cpu E
  dec_mem =
      let address = operand1 c in
      let (value, c1) = read_mem hooks c address in
      (2, add_pc (write_mem hooks c1 address (value + 0x100 - 1)) 2)

  unfoldable pub add_a_mem : ℕ × Cpu E
  add_a_mem =
      let (value, c1) = read_mem hooks c (operand1 c) in
      let c2 = add_solve_flags c1 (acc c1) value 0 in (2, add_pc (set_acc c2 (acc c2 + value)) 2)

  unfoldable pub addc_a_mem : ℕ × Cpu E
  addc_a_mem =
      let carry = carry c in
      let (value, c1) = read_mem hooks c (operand1 c) in
      let c2 = add_solve_flags c1 (acc c1) value carry in
      (2, add_pc (set_acc c2 (acc c2 + (value + carry))) 2)

  unfoldable pub subb_a_mem : ℕ × Cpu E
  subb_a_mem =
      let carry = carry c in
      let (value, c1) = read_mem hooks c (operand1 c) in
      let c2 = sub_solve_flags c1 (acc c1) value carry in
      (2, add_pc (set_acc c2 (acc c2 + 0x200 - (value + carry))) 2)
