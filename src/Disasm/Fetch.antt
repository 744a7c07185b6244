-- ===== src/Disasm/Fetch.antt =====
-- disasm.c, the macros at its head: the bytes of the instruction at a position.
use emu8051_stc.Prelude.{ℕ, ◌+◌, ◌*◌, bit_and, bit_or}
use emu8051_stc.Cpu.{Cpu}
use emu8051_stc.Mem.{codemem}

module _ {E : Type 0} (c : Cpu E) (position : ℕ) where
  unfoldable pub opcode_at : ℕ
  opcode_at = codemem c (position + 0)

  unfoldable pub operand1_at : ℕ
  operand1_at = codemem c (position + 1)

  unfoldable pub operand2_at : ℕ
  operand2_at = codemem c (position + 2)

  -- The address that AJMP and ACALL show, and the one that LJMP and LCALL show.
  unfoldable pub page_at : ℕ
  page_at = bit_or (bit_or (bit_and (position + 2) 0xf800) operand1_at) (bit_and opcode_at 0xe0 * 8)

  unfoldable pub word_at : ℕ
  word_at = bit_or (operand1_at * 0x100) operand2_at
