-- ===== src/Ops/Logic.antt =====
-- opcodes.c: the handlers of the bitwise operations on bytes and of the rotations of A.
pub mod Valid
pub mod Rotate
use emu8051_stc.Prelude.{
  ℕ, ◌-◌, ◌*◌, ◌/◌, bit_and, bit_or, bit_xor, ltb, if◌then◌else◌, and_not, to_bool,
}
use emu8051_stc.Cpu.{Cpu, Hooks, set_sfr, set_lower}
use emu8051_stc.Cpu.Regs.{psw_c}
use emu8051_stc.Mem.{
  psw, acc, operand1, operand2, indir_rx_address, rx_address, carry, read_mem, read_mem_indir,
  write_mem, sfr_written, set_acc, set_psw, add_pc,
}

module _ {E : Type 0} (c : Cpu E) where
  unfoldable pub rr_a : ℕ × Cpu E
  rr_a = (0, add_pc (set_acc c (bit_or (acc c / 2) (acc c * 0x80))) 1)

  unfoldable pub rl_a : ℕ × Cpu E
  rl_a = (0, add_pc (set_acc c (bit_or (acc c * 2) (acc c / 0x80))) 1)

  unfoldable pub rrc_a : ℕ × Cpu E
  rrc_a =
      let carry = carry c in
      let newc = bit_and (acc c) 1 in
      let c1 = set_acc c (bit_or (acc c / 2) (carry * 0x80)) in
      (0, add_pc (set_psw c1 (bit_or (and_not (psw c1) psw_c) (newc * 0x80))) 1)

  unfoldable pub rlc_a : ℕ × Cpu E
  rlc_a =
      let carry = carry c in
      let new_carry = to_bool (acc c / 0x80) in
      let c1 = set_acc c (bit_or (acc c * 2) carry) in
      (0, add_pc (set_psw c1 (bit_or (and_not (psw c1) psw_c) (new_carry * 0x80))) 1)

  unfoldable pub clr_a : ℕ × Cpu E
  clr_a = (0, add_pc (set_acc c 0) 1)

  unfoldable pub cpl_a : ℕ × Cpu E
  cpl_a = (0, add_pc (set_acc c (0xff - acc c)) 1)

  unfoldable pub swap_a : ℕ × Cpu E
  swap_a = (0, add_pc (set_acc c (bit_or (acc c * 0x10) (acc c / 0x10))) 1)

  -- `ACC op= OPERAND1`, `ACC op= @Ri` and `ACC op= Rn`, for each of the three operations.
  unfoldable pub orl_a_imm : ℕ × Cpu E
  orl_a_imm = (0, add_pc (set_acc c (bit_or (acc c) (operand1 c))) 2)

  unfoldable pub orl_a_indir_rx : ℕ × Cpu E
  orl_a_indir_rx =
      let value = read_mem_indir c (indir_rx_address c) in
      (0, add_pc (set_acc c (bit_or (acc c) value)) 1)

  unfoldable pub orl_a_rx : ℕ × Cpu E
  orl_a_rx = (0, add_pc (set_acc c (bit_or (acc c) (c.lower_data (rx_address c)))) 1)

  unfoldable pub anl_a_imm : ℕ × Cpu E
  anl_a_imm = (0, add_pc (set_acc c (bit_and (acc c) (operand1 c))) 2)

  unfoldable pub anl_a_indir_rx : ℕ × Cpu E
  anl_a_indir_rx =
      let value = read_mem_indir c (indir_rx_address c) in
      (0, add_pc (set_acc c (bit_and (acc c) value)) 1)

  unfoldable pub anl_a_rx : ℕ × Cpu E
  anl_a_rx = (0, add_pc (set_acc c (bit_and (acc c) (c.lower_data (rx_address c)))) 1)

  unfoldable pub xrl_a_imm : ℕ × Cpu E
  xrl_a_imm = (0, add_pc (set_acc c (bit_xor (acc c) (operand1 c))) 2)

  unfoldable pub xrl_a_indir_rx : ℕ × Cpu E
  xrl_a_indir_rx =
      let value = read_mem_indir c (indir_rx_address c) in
      (0, add_pc (set_acc c (bit_xor (acc c) value)) 1)

  unfoldable pub xrl_a_rx : ℕ × Cpu E
  xrl_a_rx = (0, add_pc (set_acc c (bit_xor (acc c) (c.lower_data (rx_address c)))) 1)

module _ {E : Type 0} (hooks : Hooks E) where
  -- `ANL direct,A` and `XRL direct,A` change the register itself: `sfrread` is not called.
  unfoldable pub latch_op : (ℕ → ℕ → ℕ) → Cpu E → ℕ → Cpu E
  latch_op op c address =
      if ltb 0x7f address
      then sfr_written hooks (set_sfr c (address - 0x80) (op (c.sfr (address - 0x80)) (acc c)))
          address
      else set_lower c address (op (c.lower_data address) (acc c))

module _ {E : Type 0} (hooks : Hooks E) (c : Cpu E) where
  unfoldable pub orl_mem_a : ℕ × Cpu E
  orl_mem_a =
      let address = operand1 c in
      let (value, c1) = read_mem hooks c address in
      (2, add_pc (write_mem hooks c1 address (bit_or value (acc c1))) 2)

  unfoldable pub orl_mem_imm : ℕ × Cpu E
  orl_mem_imm =
      let address = operand1 c in
      let (value, c1) = read_mem hooks c address in
      (2, add_pc (write_mem hooks c1 address (bit_or value (operand2 c1))) 3)

  unfoldable pub orl_a_mem : ℕ × Cpu E
  orl_a_mem =
      let (value, c1) = read_mem hooks c (operand1 c) in
      (2, add_pc (set_acc c1 (bit_or (acc c1) value)) 2)

  unfoldable pub anl_mem_a : ℕ × Cpu E
  anl_mem_a = (2, add_pc (latch_op hooks bit_and c (operand1 c)) 2)

  unfoldable pub anl_mem_imm : ℕ × Cpu E
  anl_mem_imm =
      let address = operand1 c in
      let (value, c1) = read_mem hooks c address in
      (2, add_pc (write_mem hooks c1 address (bit_and value (operand2 c1))) 3)

  unfoldable pub anl_a_mem : ℕ × Cpu E
  anl_a_mem =
      let (value, c1) = read_mem hooks c (operand1 c) in
      (2, add_pc (set_acc c1 (bit_and (acc c1) value)) 2)

  unfoldable pub xrl_mem_a : ℕ × Cpu E
  xrl_mem_a = (2, add_pc (latch_op hooks bit_xor c (operand1 c)) 2)

  unfoldable pub xrl_mem_imm : ℕ × Cpu E
  xrl_mem_imm =
      let address = operand1 c in
      let (value, c1) = read_mem hooks c address in
      (2, add_pc (write_mem hooks c1 address (bit_xor value (operand2 c1))) 3)

  unfoldable pub xrl_a_mem : ℕ × Cpu E
  xrl_a_mem =
      let (value, c1) = read_mem hooks c (operand1 c) in
      (2, add_pc (set_acc c1 (bit_xor (acc c1) value)) 2)
