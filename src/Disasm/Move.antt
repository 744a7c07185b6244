-- ===== src/Disasm/Move.antt =====
-- disasm.c: the decoders of the data moves.
use emu8051_stc.Prelude.{ℕ, List, [], ◌∷◌, bit_and, nonzero, if◌then◌else◌}
use emu8051_stc.Cpu.{Cpu}
use emu8051_stc.Disasm.Text.{lit, str, hex, num, sprintf}
use emu8051_stc.Disasm.Fetch.{opcode_at, operand1_at, operand2_at}
use emu8051_stc.Disasm.Names.{mem_memonic}

module _ {E : Type 0} (c : Cpu E) (position : ℕ) where
  unfoldable pub disasm_mov_rx_imm : List ℕ × ℕ
  disasm_mov_rx_imm = (
    sprintf (
        lit "MOV   R"
        ∷ num (bit_and (opcode_at c position) 7)
        ∷ lit ", #"
        ∷ hex 2 (operand1_at c position)
        ∷ lit "h"
        ∷ []),
    2,
  )

  unfoldable pub disasm_mov_mem_rx : List ℕ × ℕ
  disasm_mov_mem_rx =
      let mem = mem_memonic (operand1_at c position) in
      (
        sprintf (lit "MOV   " ∷ str mem ∷ lit ", R" ∷ num (bit_and (opcode_at c position) 7) ∷ []),
        2,
      )

  unfoldable pub disasm_mov_rx_mem : List ℕ × ℕ
  disasm_mov_rx_mem =
      let mem = mem_memonic (operand1_at c position) in
      (
        sprintf (lit "MOV   R" ∷ num (bit_and (opcode_at c position) 7) ∷ lit ", " ∷ str mem ∷ []),
        2,
      )

  unfoldable pub disasm_xch_a_rx : List ℕ × ℕ
  disasm_xch_a_rx = (sprintf (lit "XCH   A, R" ∷ num (bit_and (opcode_at c position) 7) ∷ []), 1)

  unfoldable pub disasm_mov_a_rx : List ℕ × ℕ
  disasm_mov_a_rx = (sprintf (lit "MOV   A, R" ∷ num (bit_and (opcode_at c position) 7) ∷ []), 1)

  unfoldable pub disasm_mov_rx_a : List ℕ × ℕ
  disasm_mov_rx_a =
      (sprintf (lit "MOV   R" ∷ num (bit_and (opcode_at c position) 7) ∷ lit ", A" ∷ []), 1)

  unfoldable pub disasm_nop : List ℕ × ℕ
  disasm_nop =
      (sprintf ((if nonzero (opcode_at c position) then lit "??UNKNOWN" else lit "NOP") ∷ []), 1)

  unfoldable pub disasm_mov_a_imm : List ℕ × ℕ
  disasm_mov_a_imm = (sprintf (lit "MOV   A, #" ∷ hex 2 (operand1_at c position) ∷ lit "h" ∷ []), 2)

  unfoldable pub disasm_mov_mem_imm : List ℕ × ℕ
  disasm_mov_mem_imm =
      let mem = mem_memonic (operand1_at c position) in
      (
        sprintf
            (lit "MOV   " ∷ str mem ∷ lit ", #" ∷ hex 2 (operand2_at c position) ∷ lit "h" ∷ []),
        3,
      )

  unfoldable pub disasm_mov_indir_rx_imm : List ℕ × ℕ
  disasm_mov_indir_rx_imm = (
    sprintf (
        lit "MOV   @R"
        ∷ num (bit_and (opcode_at c position) 1)
        ∷ lit ", #"
        ∷ hex 2 (operand1_at c position)
        ∷ lit "h"
        ∷ []),
    2,
  )

  unfoldable pub disasm_movc_a_indir_a_pc : List ℕ × ℕ
  disasm_movc_a_indir_a_pc = (sprintf (lit "MOVC  A, @A+PC" ∷ []), 1)

  unfoldable pub disasm_mov_mem_mem : List ℕ × ℕ
  disasm_mov_mem_mem =
      let mem1 = mem_memonic (operand2_at c position) in
      let mem2 = mem_memonic (operand1_at c position) in
      (sprintf (lit "MOV   " ∷ str mem1 ∷ lit ", " ∷ str mem2 ∷ []), 3)

  unfoldable pub disasm_mov_mem_indir_rx : List ℕ × ℕ
  disasm_mov_mem_indir_rx =
      let mem = mem_memonic (operand1_at c position) in
      (
        sprintf (lit "MOV   " ∷ str mem ∷ lit ", @R" ∷ num (bit_and (opcode_at c position) 1) ∷ []),
        2,
      )

  unfoldable pub disasm_mov_dptr_imm : List ℕ × ℕ
  disasm_mov_dptr_imm = (
    sprintf (
        lit "MOV   DPTR, #0"
        ∷ hex 2 (operand1_at c position)
        ∷ hex 2 (operand2_at c position)
        ∷ lit "h"
        ∷ []),
    3,
  )

  unfoldable pub disasm_movc_a_indir_a_dptr : List ℕ × ℕ
  disasm_movc_a_indir_a_dptr = (sprintf (lit "MOVC  A, @A+DPTR" ∷ []), 1)

  unfoldable pub disasm_mov_indir_rx_mem : List ℕ × ℕ
  disasm_mov_indir_rx_mem =
      let mem = mem_memonic (operand1_at c position) in
      (
        sprintf (lit "MOV   @R" ∷ num (bit_and (opcode_at c position) 1) ∷ lit ", " ∷ str mem ∷ []),
        2,
      )

  unfoldable pub disasm_push_mem : List ℕ × ℕ
  disasm_push_mem =
      let mem = mem_memonic (operand1_at c position) in (sprintf (lit "PUSH  " ∷ str mem ∷ []), 2)

  unfoldable pub disasm_xch_a_mem : List ℕ × ℕ
  disasm_xch_a_mem =
      let mem = mem_memonic (operand1_at c position) in
      (sprintf (lit "XCH   A, " ∷ str mem ∷ []), 2)

  unfoldable pub disasm_xch_a_indir_rx : List ℕ × ℕ
  disasm_xch_a_indir_rx =
      (sprintf (lit "XCH   A, @R" ∷ num (bit_and (opcode_at c position) 1) ∷ []), 1)

  unfoldable pub disasm_pop_mem : List ℕ × ℕ
  disasm_pop_mem =
      let mem = mem_memonic (operand1_at c position) in (sprintf (lit "POP   " ∷ str mem ∷ []), 2)

  unfoldable pub disasm_xchd_a_indir_rx : List ℕ × ℕ
  disasm_xchd_a_indir_rx =
      (sprintf (lit "XCHD  A, @R" ∷ num (bit_and (opcode_at c position) 1) ∷ []), 1)

  unfoldable pub disasm_movx_a_indir_dptr : List ℕ × ℕ
  disasm_movx_a_indir_dptr = (sprintf (lit "MOVX  A, @DPTR" ∷ []), 1)

  unfoldable pub disasm_movx_a_indir_rx : List ℕ × ℕ
  disasm_movx_a_indir_rx =
      (sprintf (lit "MOVX  A, @R" ∷ num (bit_and (opcode_at c position) 1) ∷ []), 1)

  unfoldable pub disasm_mov_a_mem : List ℕ × ℕ
  disasm_mov_a_mem =
      let mem = mem_memonic (operand1_at c position) in
      (sprintf (lit "MOV   A, " ∷ str mem ∷ []), 2)

  unfoldable pub disasm_mov_a_indir_rx : List ℕ × ℕ
  disasm_mov_a_indir_rx =
      (sprintf (lit "MOV   A, @R" ∷ num (bit_and (opcode_at c position) 1) ∷ []), 1)

  unfoldable pub disasm_movx_indir_dptr_a : List ℕ × ℕ
  disasm_movx_indir_dptr_a = (sprintf (lit "MOVX  @DPTR, A" ∷ []), 1)

  unfoldable pub disasm_movx_indir_rx_a : List ℕ × ℕ
  disasm_movx_indir_rx_a =
      (sprintf (lit "MOVX  @R" ∷ num (bit_and (opcode_at c position) 1) ∷ lit ", A" ∷ []), 1)

  unfoldable pub disasm_mov_mem_a : List ℕ × ℕ
  disasm_mov_mem_a =
      let mem = mem_memonic (operand1_at c position) in
      (sprintf (lit "MOV   " ∷ str mem ∷ lit ", A" ∷ []), 2)

  unfoldable pub disasm_mov_indir_rx_a : List ℕ × ℕ
  disasm_mov_indir_rx_a =
      (sprintf (lit "MOV   @R" ∷ num (bit_and (opcode_at c position) 1) ∷ lit ", A" ∷ []), 1)
