-- ===== src/Ops/Move.antt =====
-- opcodes.c: the handlers that move data (MOV, MOVC, MOVX, PUSH, POP, XCH, XCHD, NOP).
pub mod Valid
use emu8051_stc.Prelude.{
  ℕ, ◌+◌, ◌*◌, bit_and, bit_or, ◌==◌, nonzero, if◌then◌else◌, none, some, u16,
}
use emu8051_stc.Cpu.{Cpu, Hooks, set_sfr, set_lower, set_ext}
use emu8051_stc.Cpu.Regs.{reg_p2, reg_dpl, reg_dph}
use emu8051_stc.Cpu.Regs.{exception_acc_to_a, exception_illegal_opcode}
use emu8051_stc.Mem.{
  acc, dptr, codemem, operand1, operand2, indir_rx_address, rx_address, read_mem, read_mem_indir,
  write_mem, write_mem_indir, raise, push_to_stack, pop_from_stack, set_acc, add_pc,
}

module _ {E : Type 0} (c : Cpu E) where
  unfoldable pub mov_a_imm : ℕ × Cpu E
  mov_a_imm = (0, add_pc (set_acc c (operand1 c)) 2)

  unfoldable pub mov_indir_rx_imm : ℕ × Cpu E
  mov_indir_rx_imm =
      let address = indir_rx_address c in
      let value = operand1 c in (0, add_pc (write_mem_indir c address value) 2)

  unfoldable pub movc_a_indir_a_pc : ℕ × Cpu E
  movc_a_indir_a_pc =
      let address = u16 (c.pc + 1 + acc c) in (2, add_pc (set_acc c (codemem c address)) 1)

  unfoldable pub movc_a_indir_a_dptr : ℕ × Cpu E
  movc_a_indir_a_dptr =
      let address = u16 (dptr c + acc c) in (2, add_pc (set_acc c (codemem c address)) 1)

  unfoldable pub mov_dptr_imm : ℕ × Cpu E
  mov_dptr_imm =
      let c1 = set_sfr c reg_dph (operand1 c) in (2, add_pc (set_sfr c1 reg_dpl (operand2 c1)) 3)

  unfoldable pub xch_a_indir_rx : ℕ × Cpu E
  xch_a_indir_rx =
      let address = indir_rx_address c in
      let value = read_mem_indir c address in
      (0, add_pc (set_acc (write_mem_indir c address (acc c)) value) 1)

  unfoldable pub xchd_a_indir_rx : ℕ × Cpu E
  xchd_a_indir_rx =
      let address = indir_rx_address c in
      let value = read_mem_indir c address in
      let old_acc_low = bit_and (acc c) 0x0f in
      let c1 = set_acc c (bit_or (bit_and (acc c) 0xf0) (bit_and value 0x0f)) in
      (0, add_pc (write_mem_indir c1 address (bit_or (bit_and value 0xf0) old_acc_low)) 1)

  unfoldable pub mov_a_indir_rx : ℕ × Cpu E
  mov_a_indir_rx = (0, add_pc (set_acc c (read_mem_indir c (indir_rx_address c))) 1)

  unfoldable pub mov_indir_rx_a : ℕ × Cpu E
  mov_indir_rx_a = (0, add_pc (write_mem_indir c (indir_rx_address c) (acc c)) 1)

  unfoldable pub mov_rx_imm : ℕ × Cpu E
  mov_rx_imm = (0, add_pc (set_lower c (rx_address c) (operand1 c)) 2)

  unfoldable pub xch_a_rx : ℕ × Cpu E
  xch_a_rx =
      let rx = rx_address c in
      let a = acc c in (0, add_pc (set_lower (set_acc c (c.lower_data rx)) rx a) 1)

  unfoldable pub mov_a_rx : ℕ × Cpu E
  mov_a_rx = (0, add_pc (set_acc c (c.lower_data (rx_address c))) 1)

  unfoldable pub mov_rx_a : ℕ × Cpu E
  mov_rx_a = (0, add_pc (set_lower c (rx_address c) (acc c)) 1)

  -- `EXTDATA(address)`, where there is external memory.
  unfoldable pub load_ext : ℕ → Cpu E
  load_ext address = elim c.ext_data [
    | none ↦ c
    | some m ↦ set_acc c (m (bit_and address c.ext_data_max_idx))
  ]

  unfoldable pub store_ext : ℕ → Cpu E
  store_ext address = elim c.ext_data [
    | none ↦ c
    | some _ ↦ set_ext c (bit_and address c.ext_data_max_idx) (acc c)
  ]

  -- P2 gives the high byte of the address of `MOVX @Ri`.
  unfoldable pub p2_address : ℕ
  p2_address = bit_or (c.sfr reg_p2 * 0x100) (indir_rx_address c)

module _ {E : Type 0} (hooks : Hooks E) (c : Cpu E) where
  unfoldable pub mov_mem_imm : ℕ × Cpu E
  mov_mem_imm = (2, add_pc (write_mem hooks c (operand1 c) (operand2 c)) 3)

  unfoldable pub mov_mem_mem : ℕ × Cpu E
  mov_mem_mem =
      let address_to = operand2 c in
      let (value, c1) = read_mem hooks c (operand1 c) in
      (2, add_pc (write_mem hooks c1 address_to value) 3)

  unfoldable pub mov_mem_indir_rx : ℕ × Cpu E
  mov_mem_indir_rx =
      let value = read_mem_indir c (indir_rx_address c) in
      (2, add_pc (write_mem hooks c (operand1 c) value) 2)

  unfoldable pub mov_indir_rx_mem : ℕ × Cpu E
  mov_indir_rx_mem =
      let address_to = indir_rx_address c in
      let (value, c1) = read_mem hooks c (operand1 c) in
      (2, add_pc (write_mem_indir c1 address_to value) 2)

  unfoldable pub push_mem : ℕ × Cpu E
  push_mem =
      let (value, c1) = read_mem hooks c (operand1 c) in
      (2, add_pc (push_to_stack hooks c1 value) 2)

  unfoldable pub pop_mem : ℕ × Cpu E
  pop_mem =
      let address = operand1 c in
      let (value, c1) = pop_from_stack hooks c in (2, add_pc (write_mem hooks c1 address value) 2)

  unfoldable pub xch_a_mem : ℕ × Cpu E
  xch_a_mem =
      let address = operand1 c in
      let (value, c1) = read_mem hooks c address in
      (2, add_pc (set_acc (write_mem hooks c1 address (acc c1)) value) 2)

  unfoldable pub mov_a_mem : ℕ × Cpu E
  mov_a_mem =
      let address = operand1 c in
      let (value, c1) = read_mem hooks c address in
      let c2 = if address == 0xe0 then raise hooks c1 exception_acc_to_a else c1 in
      (0, add_pc (set_acc c2 value) 2)

  unfoldable pub mov_mem_a : ℕ × Cpu E
  mov_mem_a = (0, add_pc (write_mem hooks c (operand1 c) (acc c)) 2)

  unfoldable pub mov_mem_rx : ℕ × Cpu E
  mov_mem_rx = (2, add_pc (write_mem hooks c (operand1 c) (c.lower_data (rx_address c))) 2)

  unfoldable pub mov_rx_mem : ℕ × Cpu E
  mov_rx_mem =
      let rx = rx_address c in
      let (value, c1) = read_mem hooks c (operand1 c) in (2, add_pc (set_lower c1 rx value) 2)

  unfoldable pub nop : ℕ × Cpu E
  nop =
      let illegal = nonzero (codemem c c.pc) in
      (0, add_pc (if illegal then raise hooks c exception_illegal_opcode else c) 1)

  unfoldable pub movx_load : ℕ → Cpu E
  movx_load address = elim hooks.xread [
    | none ↦ load_ext c address
    | some f ↦ set_acc (f c address).1 (f c address).0
  ]

  unfoldable pub movx_store : ℕ → Cpu E
  movx_store address = elim hooks.xwrite [
    | none ↦ store_ext c address
    | some f ↦ f c address (acc c)
  ]

  unfoldable pub movx_a_indir_dptr : ℕ × Cpu E
  movx_a_indir_dptr = (2, add_pc (movx_load (dptr c)) 1)

  unfoldable pub movx_a_indir_rx : ℕ × Cpu E
  movx_a_indir_rx = (2, add_pc (movx_load (p2_address c)) 1)

  unfoldable pub movx_indir_dptr_a : ℕ × Cpu E
  movx_indir_dptr_a = (2, add_pc (movx_store (dptr c)) 1)

  unfoldable pub movx_indir_rx_a : ℕ × Cpu E
  movx_indir_rx_a = (2, add_pc (movx_store (p2_address c)) 1)
