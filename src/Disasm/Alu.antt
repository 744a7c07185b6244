-- ===== src/Disasm/Alu.antt =====
-- disasm.c: the decoders that compute with numbers.
use emu8051_stc.Prelude.{ℕ, List, [], ◌∷◌, bit_and}
use emu8051_stc.Cpu.{Cpu}
use emu8051_stc.Disasm.Text.{lit, str, hex, num, sprintf}
use emu8051_stc.Disasm.Fetch.{opcode_at, operand1_at}
use emu8051_stc.Disasm.Names.{mem_memonic}

module _ {E : Type 0} (c : Cpu E) (position : ℕ) where
  unfoldable pub disasm_inc_rx : List ℕ × ℕ
  disasm_inc_rx = (sprintf (lit "INC   R" ∷ num (bit_and (opcode_at c position) 7) ∷ []), 1)

  unfoldable pub disasm_dec_rx : List ℕ × ℕ
  disasm_dec_rx = (sprintf (lit "DEC   R" ∷ num (bit_and (opcode_at c position) 7) ∷ []), 1)

  unfoldable pub disasm_add_a_rx : List ℕ × ℕ
  disasm_add_a_rx = (sprintf (lit "ADD   A, R" ∷ num (bit_and (opcode_at c position) 7) ∷ []), 1)

  unfoldable pub disasm_addc_a_rx : List ℕ × ℕ
  disasm_addc_a_rx = (sprintf (lit "ADDC  A, R" ∷ num (bit_and (opcode_at c position) 7) ∷ []), 1)

  unfoldable pub disasm_subb_a_rx : List ℕ × ℕ
  disasm_subb_a_rx = (sprintf (lit "SUBB  A, R" ∷ num (bit_and (opcode_at c position) 7) ∷ []), 1)

  unfoldable pub disasm_inc_a : List ℕ × ℕ
  disasm_inc_a = (sprintf (lit "INC   A" ∷ []), 1)

  unfoldable pub disasm_inc_mem : List ℕ × ℕ
  disasm_inc_mem =
      let mem = mem_memonic (operand1_at c position) in (sprintf (lit "INC   " ∷ str mem ∷ []), 2)

  unfoldable pub disasm_inc_indir_rx : List ℕ × ℕ
  disasm_inc_indir_rx = (sprintf (lit "INC   @R" ∷ num (bit_and (opcode_at c position) 1) ∷ []), 1)

  unfoldable pub disasm_dec_a : List ℕ × ℕ
  disasm_dec_a = (sprintf (lit "DEC   A" ∷ []), 1)

  unfoldable pub disasm_dec_mem : List ℕ × ℕ
  disasm_dec_mem =
      let mem = mem_memonic (operand1_at c position) in (sprintf (lit "DEC   " ∷ str mem ∷ []), 2)

  unfoldable pub disasm_dec_indir_rx : List ℕ × ℕ
  disasm_dec_indir_rx = (sprintf (lit "DEC   @R" ∷ num (bit_and (opcode_at c position) 1) ∷ []), 1)

  unfoldable pub disasm_add_a_imm : List ℕ × ℕ
  disasm_add_a_imm = (sprintf (lit "ADD   A, #" ∷ hex 2 (operand1_at c position) ∷ lit "h" ∷ []), 2)

  unfoldable pub disasm_add_a_mem : List ℕ × ℕ
  disasm_add_a_mem =
      let mem = mem_memonic (operand1_at c position) in
      (sprintf (lit "ADD   A, " ∷ str mem ∷ []), 2)

  unfoldable pub disasm_add_a_indir_rx : List ℕ × ℕ
  disasm_add_a_indir_rx =
      (sprintf (lit "ADD   A, @R" ∷ num (bit_and (opcode_at c position) 1) ∷ []), 1)

  unfoldable pub disasm_addc_a_imm : List ℕ × ℕ
  disasm_addc_a_imm =
      (sprintf (lit "ADDC  A, #" ∷ hex 2 (operand1_at c position) ∷ lit "h" ∷ []), 2)

  unfoldable pub disasm_addc_a_mem : List ℕ × ℕ
  disasm_addc_a_mem =
      let mem = mem_memonic (operand1_at c position) in
      (sprintf (lit "ADDC  A, " ∷ str mem ∷ []), 2)

  unfoldable pub disasm_addc_a_indir_rx : List ℕ × ℕ
  disasm_addc_a_indir_rx =
      (sprintf (lit "ADDC  A, @R" ∷ num (bit_and (opcode_at c position) 1) ∷ []), 1)

  unfoldable pub disasm_div_ab : List ℕ × ℕ
  disasm_div_ab = (sprintf (lit "DIV   AB" ∷ []), 1)

  unfoldable pub disasm_subb_a_imm : List ℕ × ℕ
  disasm_subb_a_imm =
      (sprintf (lit "SUBB  A, #" ∷ hex 2 (operand1_at c position) ∷ lit "h" ∷ []), 2)

  unfoldable pub disasm_subb_a_mem : List ℕ × ℕ
  disasm_subb_a_mem =
      let mem = mem_memonic (operand1_at c position) in
      (sprintf (lit "SUBB  A, " ∷ str mem ∷ []), 2)

  unfoldable pub disasm_subb_a_indir_rx : List ℕ × ℕ
  disasm_subb_a_indir_rx =
      (sprintf (lit "SUBB  A, @R" ∷ num (bit_and (opcode_at c position) 1) ∷ []), 1)

  unfoldable pub disasm_inc_dptr : List ℕ × ℕ
  disasm_inc_dptr = (sprintf (lit "INC   DPTR" ∷ []), 1)

  unfoldable pub disasm_mul_ab : List ℕ × ℕ
  disasm_mul_ab = (sprintf (lit "MUL   AB" ∷ []), 1)

  unfoldable pub disasm_da_a : List ℕ × ℕ
  disasm_da_a = (sprintf (lit "DA    A" ∷ []), 1)
