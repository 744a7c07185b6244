-- ===== src/Disasm/Jump.antt =====
-- disasm.c: the decoders of the jumps, calls, returns and compare-and-branch instructions.
use emu8051_stc.Prelude.{ℕ, List, [], ◌∷◌, bit_and}
use emu8051_stc.Cpu.{Cpu}
use emu8051_stc.Disasm.Text.{lit, str, hex, num, plus_num, sprintf, signed_int}
use emu8051_stc.Disasm.Fetch.{opcode_at, operand1_at, operand2_at, page_at, word_at}
use emu8051_stc.Disasm.Names.{mem_memonic}

module _ {E : Type 0} (c : Cpu E) (position : ℕ) where
  unfoldable pub disasm_cjne_rx_imm_offset : List ℕ × ℕ
  disasm_cjne_rx_imm_offset = (
    sprintf (
        lit "CJNE  R"
        ∷ num (bit_and (opcode_at c position) 7)
        ∷ lit ", #"
        ∷ hex 2 (operand1_at c position)
        ∷ lit "h, #"
        ∷ plus_num (signed_int (operand2_at c position))
        ∷ []),
    3,
  )

  unfoldable pub disasm_djnz_rx_offset : List ℕ × ℕ
  disasm_djnz_rx_offset = (
    sprintf (
        lit "DJNZ  R"
        ∷ num (bit_and (opcode_at c position) 7)
        ∷ lit ", #"
        ∷ plus_num (signed_int (operand1_at c position))
        ∷ []),
    2,
  )

  unfoldable pub disasm_ajmp_offset : List ℕ × ℕ
  disasm_ajmp_offset = (sprintf (lit "AJMP  #" ∷ hex 4 (page_at c position) ∷ lit "h" ∷ []), 2)

  unfoldable pub disasm_ljmp_address : List ℕ × ℕ
  disasm_ljmp_address = (sprintf (lit "LJMP  #" ∷ hex 4 (word_at c position) ∷ lit "h" ∷ []), 3)

  unfoldable pub disasm_acall_offset : List ℕ × ℕ
  disasm_acall_offset = (sprintf (lit "ACALL " ∷ hex 4 (page_at c position) ∷ lit "h" ∷ []), 2)

  unfoldable pub disasm_lcall_address : List ℕ × ℕ
  disasm_lcall_address = (sprintf (lit "LCALL #" ∷ hex 4 (word_at c position) ∷ lit "h" ∷ []), 3)

  unfoldable pub disasm_ret : List ℕ × ℕ
  disasm_ret = (sprintf (lit "RET" ∷ []), 1)

  unfoldable pub disasm_reti : List ℕ × ℕ
  disasm_reti = (sprintf (lit "RETI" ∷ []), 1)

  unfoldable pub disasm_jc_offset : List ℕ × ℕ
  disasm_jc_offset =
      (sprintf (lit "JC    #" ∷ plus_num (signed_int (operand1_at c position)) ∷ []), 2)

  unfoldable pub disasm_jnc_offset : List ℕ × ℕ
  disasm_jnc_offset =
      (sprintf (lit "JNC   #" ∷ plus_num (signed_int (operand1_at c position)) ∷ []), 2)

  unfoldable pub disasm_jz_offset : List ℕ × ℕ
  disasm_jz_offset =
      (sprintf (lit "JZ    #" ∷ plus_num (signed_int (operand1_at c position)) ∷ []), 2)

  unfoldable pub disasm_jnz_offset : List ℕ × ℕ
  disasm_jnz_offset =
      (sprintf (lit "JNZ   #" ∷ plus_num (signed_int (operand1_at c position)) ∷ []), 2)

  unfoldable pub disasm_jmp_indir_a_dptr : List ℕ × ℕ
  disasm_jmp_indir_a_dptr = (sprintf (lit "JMP   @A+DPTR" ∷ []), 1)

  unfoldable pub disasm_sjmp_offset : List ℕ × ℕ
  disasm_sjmp_offset =
      (sprintf (lit "SJMP  #" ∷ plus_num (signed_int (operand1_at c position)) ∷ []), 2)

  unfoldable pub disasm_cjne_a_imm_offset : List ℕ × ℕ
  disasm_cjne_a_imm_offset = (
    sprintf (
        lit "CJNE  A, #"
        ∷ hex 2 (operand1_at c position)
        ∷ lit "h, #"
        ∷ plus_num (signed_int (operand2_at c position))
        ∷ []),
    3,
  )

  unfoldable pub disasm_cjne_a_mem_offset : List ℕ × ℕ
  disasm_cjne_a_mem_offset =
      let mem = mem_memonic (operand1_at c position) in
      (
        sprintf (
            lit "CJNE  A, "
            ∷ str mem
            ∷ lit ", #"
            ∷ plus_num (signed_int (operand2_at c position))
            ∷ []),
        3,
      )

  unfoldable pub disasm_cjne_indir_rx_imm_offset : List ℕ × ℕ
  disasm_cjne_indir_rx_imm_offset = (
    sprintf (
        lit "CJNE  @R"
        ∷ num (bit_and (opcode_at c position) 1)
        ∷ lit ", #"
        ∷ hex 2 (operand1_at c position)
        ∷ lit "h, #"
        ∷ plus_num (signed_int (operand2_at c position))
        ∷ []),
    3,
  )

  unfoldable pub disasm_djnz_mem_offset : List ℕ × ℕ
  disasm_djnz_mem_offset =
      let mem = mem_memonic (operand1_at c position) in
      (
        sprintf (
            lit "DJNZ  "
            ∷ str mem
            ∷ lit ", #"
            ∷ plus_num (signed_int (operand2_at c position))
            ∷ []),
        3,
      )
