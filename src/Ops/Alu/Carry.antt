-- ===== src/Ops/Alu/Carry.antt =====
-- opcodes.c: ADDC against arithmetic.
use emu8051_stc.Prelude.{◌<◌, arith}
use emu8051_stc.Cpu.{Cpu}
use emu8051_stc.Cpu.Valid.{IsValid}
use emu8051_stc.Mem.{opened, carry, operand1, rx_address, indir_rx_address, read_mem_indir}
use emu8051_stc.Mem.Valid.{read_mem_indir-lt}
use emu8051_stc.Flags.{add_solve_flags}
use emu8051_stc.Flags.Laws.{add_flags_lem}
use emu8051_stc.Ops.Alu.{addc_a_imm, addc_a_rx, addc_a_indir_rx}
use emu8051_stc.Ops.Alu.Laws.{IsSum, HasFlags-swap, carry-lt}

module _ {E : Type 0} (c : Cpu E) (h : IsValid c) where
  -- ADDC of its immediate operand in a valid machine leaves the sum with the carry and its flags, with
  -- AC the carry out of bit 2.
  pub addc_a_imm-IsSum : IsSum c (addc_a_imm c).1 (operand1 c) (carry c)
  unfolding addc_a_imm add_solve_flags opened
  addc_a_imm-IsSum =
      let b = operand1 c in
      let hb : b < 0x100 = h.code _ in
      let hc = carry-lt c h in
      let f =
        add_flags_lem (c.sfr 0x50) (c.sfr 0x60) b (carry c) (h.sfrs 0x50) (h.sfrs 0x60) hb hc in
      record { sum = omega arith; flags = f }

  -- ADDC of the operand that its register points to in a valid machine leaves the sum with the carry and its flags, with
  -- AC the carry out of bit 2.
  pub addc_a_indir_rx-IsSum :
      IsSum c (addc_a_indir_rx c).1 (read_mem_indir c (indir_rx_address c)) (carry c)
  unfolding addc_a_indir_rx add_solve_flags opened
  addc_a_indir_rx-IsSum =
      let b = read_mem_indir c (indir_rx_address c) in
      let hb : b < 0x100 = read_mem_indir-lt h _ in
      let hc = carry-lt c h in
      let f =
        add_flags_lem (c.sfr 0x50) (c.sfr 0x60) b (carry c) (h.sfrs 0x50) (h.sfrs 0x60) hb hc in
      record { sum = omega arith; flags = f }

  -- ADDC of its register in a valid machine leaves the sum with the carry and its flags, with
  -- AC the carry out of bit 2.
  pub addc_a_rx-IsSum : IsSum c (addc_a_rx c).1 (c.lower_data (rx_address c)) (carry c)
  unfolding addc_a_rx add_solve_flags opened
  addc_a_rx-IsSum =
      let b = c.lower_data (rx_address c) in
      let hb : b < 0x100 = h.lower _ in
      let hc = carry-lt c h in
      let f =
        add_flags_lem (c.sfr 0x50) b (c.sfr 0x60) (carry c) (h.sfrs 0x50) hb (h.sfrs 0x60) hc in
      record { sum = omega arith; flags = HasFlags-swap b (c.sfr 0x60) (carry c) f }

  -- ADDC of an immediate operand, of the operand that a register points to, and of a register
  -- leaves, in a valid machine, the sum with the carry and its flags, with AC the carry out of bit 2.
  addc-IsSum :
      IsSum c (addc_a_imm c).1 (operand1 c) (carry c)
      × IsSum c (addc_a_indir_rx c).1 (read_mem_indir c (indir_rx_address c)) (carry c)
      × IsSum c (addc_a_rx c).1 (c.lower_data (rx_address c)) (carry c)
  addc-IsSum = (addc_a_imm-IsSum, addc_a_indir_rx-IsSum, addc_a_rx-IsSum)
