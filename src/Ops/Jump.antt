-- ===== src/Ops/Jump.antt =====
-- opcodes.c: the handlers of the jumps, calls, returns and compare-and-branch instructions.
pub mod Valid
pub mod Calls
pub mod Compare
use emu8051_stc.Prelude.{
  ℕ, ◌+◌, ◌-◌, ◌*◌, ◌/◌, ◌%◌, bit_and, bit_or, ◌==◌, ltb, nonzero, if◌then◌else◌, Bool, not, none,
  some, and_not,
}
use emu8051_stc.Cpu.{Cpu, Hooks, set_lower, set_pc, set_interrupt_active}
use emu8051_stc.Cpu.Regs.{reg_sp, psw_c, psw_ac, psw_ov, psw_rs}
use emu8051_stc.Cpu.Regs.{exception_iret_psw_mismatch, exception_iret_sp_mismatch}
use emu8051_stc.Cpu.Regs.{exception_iret_acc_mismatch}
use emu8051_stc.Mem.{
  psw, acc, dptr, opcode, operand1, operand2, indir_rx_address, rx_address, read_mem,
  read_mem_indir, write_mem, raise, push_to_stack, pop_from_stack, set_psw, branch,
}

module _ {E : Type 0} (c : Cpu E) where
  -- The target of AJMP and ACALL: the page of the next instruction, and eleven bits.
  unfoldable pub page_target : ℕ
  page_target =
      bit_or (bit_or (bit_and (c.pc + 2) 0xf800) (operand1 c)) (bit_and (opcode c) 0xe0 * 8)

  unfoldable pub ajmp_offset : ℕ × Cpu E
  ajmp_offset = (2, set_pc c page_target)

  unfoldable pub ljmp_address : ℕ × Cpu E
  ljmp_address = (2, set_pc c (bit_or (operand1 c * 0x100) (operand2 c)))

  unfoldable pub sjmp_offset : ℕ × Cpu E
  sjmp_offset = (2, branch c (0 == 0) (operand1 c) 2)

  unfoldable pub jmp_indir_a_dptr : ℕ × Cpu E
  jmp_indir_a_dptr = (2, set_pc c (dptr c + acc c))

  unfoldable pub jc_offset : ℕ × Cpu E
  jc_offset = (2, branch c (nonzero (bit_and (psw c) psw_c)) (operand1 c) 2)

  unfoldable pub jnc_offset : ℕ × Cpu E
  jnc_offset = (2, branch c (not (nonzero (bit_and (psw c) psw_c))) (operand1 c) 2)

  unfoldable pub jz_offset : ℕ × Cpu E
  jz_offset = (2, branch c (not (nonzero (acc c))) (operand1 c) 2)

  unfoldable pub jnz_offset : ℕ × Cpu E
  jnz_offset = (2, branch c (nonzero (acc c)) (operand1 c) 2)

-- What the four CJNE handlers do with their two values: the carry is the order, and the jump is
-- taken at different values.
unfoldable pub compare_branch : {E : Type 0} → Cpu E → ℕ → ℕ → Cpu E
compare_branch c value1 value2 =
    let c1 =
      set_psw c (if ltb value1 value2 then bit_or (psw c) psw_c else and_not (psw c) psw_c) in
    branch c1 (not (value1 == value2)) (operand2 c1) 3

module _ {E : Type 0} (c : Cpu E) where
  unfoldable pub cjne_a_imm_offset : ℕ × Cpu E
  cjne_a_imm_offset = (2, compare_branch c (acc c) (operand1 c))

  unfoldable pub cjne_indir_rx_imm_offset : ℕ × Cpu E
  cjne_indir_rx_imm_offset =
      (2, compare_branch c (read_mem_indir c (indir_rx_address c)) (operand1 c))

  unfoldable pub cjne_rx_imm_offset : ℕ × Cpu E
  cjne_rx_imm_offset = (2, compare_branch c (c.lower_data (rx_address c)) (operand1 c))

  unfoldable pub djnz_rx_offset : ℕ × Cpu E
  djnz_rx_offset =
      let rx = rx_address c in
      let c1 = set_lower c rx (c.lower_data rx + 0x100 - 1) in
      (2, branch c1 (nonzero (c1.lower_data rx)) (operand1 c1) 2)

module _ {E : Type 0} (hooks : Hooks E) (c : Cpu E) where
  unfoldable pub acall_offset : ℕ × Cpu E
  acall_offset =
      let address = page_target c in
      let c1 = push_to_stack hooks c (bit_and (c.pc + 2) 0xff) in
      let c2 = push_to_stack hooks c1 ((c1.pc + 2) / 0x100) in (2, set_pc c2 address)

  unfoldable pub lcall_address : ℕ × Cpu E
  lcall_address =
      let c1 = push_to_stack hooks c (bit_and (c.pc + 3) 0xff) in
      let c2 = push_to_stack hooks c1 ((c1.pc + 3) / 0x100) in
      (2, set_pc c2 (bit_or (operand1 c2 * 0x100) (operand2 c2)))

  -- `PC = pop_from_stack(aCPU) << 8; PC |= pop_from_stack(aCPU);`
  unfoldable pub pop_pc : Cpu E
  pop_pc =
      let (high, c1) = pop_from_stack hooks c in
      let (low, c2) = pop_from_stack hooks (set_pc c1 (high * 0x100)) in
      set_pc c2 (bit_or c2.pc low)

  unfoldable pub ret : ℕ × Cpu E
  ret = (2, pop_pc)

  unfoldable pub cjne_a_mem_offset : ℕ × Cpu E
  cjne_a_mem_offset =
      let (value, c1) = read_mem hooks c (operand1 c) in (2, compare_branch c1 (acc c1) value)

  unfoldable pub djnz_mem_offset : ℕ × Cpu E
  djnz_mem_offset =
      let address = operand1 c in
      let (old, c1) = read_mem hooks c address in
      let value = (old + 0x100 - 1) % 0x100 in
      let c2 = write_mem hooks c1 address value in (2, branch c2 (nonzero value) (operand2 c2) 3)

-- The PSW bits that an interrupt routine has to preserve.
abbrev pub psw_preserved : ℕ
psw_preserved = psw_ov + psw_rs + psw_ac + psw_c

-- The levels still in service when the one in service returns.
unfoldable pub active_left : ℕ → ℕ
active_left active = if nonzero (bit_and active 2) then and_not active 2 else 0

module _ {E : Type 0} (hooks : Hooks E) where
  unfoldable pub raise_unless : Bool → Cpu E → ℕ → Cpu E
  raise_unless good c code = if good then c else raise hooks c code

  -- The checks of RETI on the registers that were saved on entry, each a callback.
  unfoldable pub iret_check : Cpu E → Cpu E
  iret_check c =
      let hi = if ltb 1 c.interrupt_active then 1 else 0 in
      let c1 = raise_unless (c.int_a hi == acc c) c exception_iret_acc_mismatch in
      let c2 = raise_unless (c1.int_sp hi == c1.sfr reg_sp) c1 exception_iret_sp_mismatch in
      let kept = bit_and (c2.int_psw hi) psw_preserved == bit_and (psw c2) psw_preserved in
      raise_unless kept c2 exception_iret_psw_mismatch

  unfoldable pub reti : Cpu E → ℕ × Cpu E
  reti c =
      let c1 : Cpu E = elim hooks.except [ none ↦ c | some _ ↦ iret_check c ] in
      let c2 = set_interrupt_active c1 (active_left c1.interrupt_active) in
      (2, pop_pc hooks (if nonzero c.interrupt_active then c2 else c))
