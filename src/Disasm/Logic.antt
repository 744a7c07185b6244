-- ===== src/Disasm/Logic.antt =====
-- disasm.c: the decoders of the logic instructions and the rotations.
use emu8051_stc.Prelude.{ℕ, List, [], ◌∷◌, bit_and}
use emu8051_stc.Cpu.{Cpu}
use emu8051_stc.Disasm.Text.{lit, str, hex, num, sprintf}
use emu8051_stc.Disasm.Fetch.{opcode_at, operand1_at, operand2_at}
use emu8051_stc.Disasm.Names.{mem_memonic}

module _ {E : Type 0} (c : Cpu E) (position : ℕ) where
  unfoldable pub disasm_orl_a_rx : List ℕ × ℕ
  disasm_orl_a_rx = (sprintf (lit "ORL   A, R" ∷ num (bit_and (opcode_at c position) 7) ∷ []), 1)

  unfoldable pub disasm_anl_a_rx : List ℕ × ℕ
  disasm_anl_a_rx = (sprintf (lit "ANL   A, R" ∷ num (bit_and (opcode_at c position) 7) ∷ []), 1)

  unfoldable pub disasm_xrl_a_rx : List ℕ × ℕ
  disasm_xrl_a_rx = (sprintf (lit "XRL   A, R" ∷ num (bit_and (opcode_at c position) 7) ∷ []), 1)

  unfoldable pub disasm_rr_a : List ℕ × ℕ
  disasm_rr_a = (sprintf (lit "RR    A" ∷ []), 1)

  unfoldable pub disasm_rrc_a : List ℕ × ℕ
  disasm_rrc_a = (sprintf (lit "RRC   A" ∷ []), 1)

  unfoldable pub disasm_rl_a : List ℕ × ℕ
  disasm_rl_a = (sprintf (lit "RL    A" ∷ []), 1)

  unfoldable pub disasm_rlc_a : List ℕ × ℕ
  disasm_rlc_a = (sprintf (lit "RLC   A" ∷ []), 1)

  unfoldable pub disasm_orl_mem_a : List ℕ × ℕ
  disasm_orl_mem_a =
      let mem = mem_memonic (operand1_at c position) in
      (sprintf (lit "ORL   " ∷ str mem ∷ lit ", A" ∷ []), 2)

  unfoldable pub disasm_orl_mem_imm : List ℕ × ℕ
  disasm_orl_mem_imm =
      let mem = mem_memonic (operand1_at c position) in
      (
        sprintf
            (lit "ORL   " ∷ str mem ∷ lit ", #" ∷ hex 2 (operand2_at c position) ∷ lit "h" ∷ []),
        3,
      )

  unfoldable pub disasm_orl_a_imm : List ℕ × ℕ
  disasm_orl_a_imm = (sprintf (lit "ORL   A, #" ∷ hex 2 (operand1_at c position) ∷ lit "h" ∷ []), 2)

  unfoldable pub disasm_orl_a_mem : List ℕ × ℕ
  disasm_orl_a_mem =
      let mem = mem_memonic (operand1_at c position) in
      (sprintf (lit "ORL   A, " ∷ str mem ∷ []), 2)

  unfoldable pub disasm_orl_a_indir_rx : List ℕ × ℕ
  disasm_orl_a_indir_rx =
      (sprintf (lit "ORL   A, @R" ∷ num (bit_and (opcode_at c position) 1) ∷ []), 1)

  unfoldable pub disasm_anl_mem_a : List ℕ × ℕ
  disasm_anl_mem_a =
      let mem = mem_memonic (operand1_at c position) in
      (sprintf (lit "ANL   " ∷ str mem ∷ lit ", A" ∷ []), 2)

  unfoldable pub disasm_anl_mem_imm : List ℕ × ℕ
  disasm_anl_mem_imm =
      let mem = mem_memonic (operand1_at c position) in
      (
        sprintf
            (lit "ANL   " ∷ str mem ∷ lit ", #" ∷ hex 2 (operand2_at c position) ∷ lit "h" ∷ []),
        3,
      )

  unfoldable pub disasm_anl_a_imm : List ℕ × ℕ
  disasm_anl_a_imm = (sprintf (lit "ANL   A, #" ∷ hex 2 (operand1_at c position) ∷ lit "h" ∷ []), 2)

  unfoldable pub disasm_anl_a_mem : List ℕ × ℕ
  disasm_anl_a_mem =
      let mem = mem_memonic (operand1_at c position) in
      (sprintf (lit "ANL   A, " ∷ str mem ∷ []), 2)

  unfoldable pub disasm_anl_a_indir_rx : List ℕ × ℕ
  disasm_anl_a_indir_rx =
      (sprintf (lit "ANL   A, @R" ∷ num (bit_and (opcode_at c position) 1) ∷ []), 1)

  unfoldable pub disasm_xrl_mem_a : List ℕ × ℕ
  disasm_xrl_mem_a =
      let mem = mem_memonic (operand1_at c position) in
      (sprintf (lit "XRL   " ∷ str mem ∷ lit ", A" ∷ []), 2)

  unfoldable pub disasm_xrl_mem_imm : List ℕ × ℕ
  disasm_xrl_mem_imm =
      let mem = mem_memonic (operand1_at c position) in
      (
        sprintf
            (lit "XRL   " ∷ str mem ∷ lit ", #" ∷ hex 2 (operand2_at c position) ∷ lit "h" ∷ []),
        3,
      )

  unfoldable pub disasm_xrl_a_imm : List ℕ × ℕ
  disasm_xrl_a_imm = (sprintf (lit "XRL   A, #" ∷ hex 2 (operand1_at c position) ∷ lit "h" ∷ []), 2)

  unfoldable pub disasm_xrl_a_mem : List ℕ × ℕ
  disasm_xrl_a_mem =
      let mem = mem_memonic (operand1_at c position) in
      (sprintf (lit "XRL   A, " ∷ str mem ∷ []), 2)

  unfoldable pub disasm_xrl_a_indir_rx : List ℕ × ℕ
  disasm_xrl_a_indir_rx =
      (sprintf (lit "XRL   A, @R" ∷ num (bit_and (opcode_at c position) 1) ∷ []), 1)

  unfoldable pub disasm_swap_a : List ℕ × ℕ
  disasm_swap_a = (sprintf (lit "SWAP  A" ∷ []), 1)

  unfoldable pub disasm_clr_a : List ℕ × ℕ
  disasm_clr_a = (sprintf (lit "CLR   A" ∷ []), 1)

  unfoldable pub disasm_cpl_a : List ℕ × ℕ
  disasm_cpl_a = (sprintf (lit "CPL   A" ∷ []), 1)
