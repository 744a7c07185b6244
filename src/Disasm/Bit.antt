-- ===== src/Disasm/Bit.antt =====
-- disasm.c: the decoders of single bits.
use emu8051_stc.Prelude.{ℕ, List, [], ◌∷◌}
use emu8051_stc.Cpu.{Cpu}
use emu8051_stc.Disasm.Text.{lit, str, plus_num, sprintf, signed_int}
use emu8051_stc.Disasm.Fetch.{operand1_at, operand2_at}
use emu8051_stc.Disasm.Names.{bitaddr_memonic}

module _ {E : Type 0} (c : Cpu E) (position : ℕ) where
  unfoldable pub disasm_jbc_bitaddr_offset : List ℕ × ℕ
  disasm_jbc_bitaddr_offset =
      let baddr = bitaddr_memonic (operand1_at c position) in
      (
        sprintf (
            lit "JBC   "
            ∷ str baddr
            ∷ lit ", #"
            ∷ plus_num (signed_int (operand2_at c position))
            ∷ []),
        3,
      )

  unfoldable pub disasm_jb_bitaddr_offset : List ℕ × ℕ
  disasm_jb_bitaddr_offset =
      let baddr = bitaddr_memonic (operand1_at c position) in
      (
        sprintf (
            lit "JB   "
            ∷ str baddr
            ∷ lit ", #"
            ∷ plus_num (signed_int (operand2_at c position))
            ∷ []),
        3,
      )

  unfoldable pub disasm_jnb_bitaddr_offset : List ℕ × ℕ
  disasm_jnb_bitaddr_offset =
      let baddr = bitaddr_memonic (operand1_at c position) in
      (
        sprintf (
            lit "JNB   "
            ∷ str baddr
            ∷ lit ", #"
            ∷ plus_num (signed_int (operand2_at c position))
            ∷ []),
        3,
      )

  unfoldable pub disasm_orl_c_bitaddr : List ℕ × ℕ
  disasm_orl_c_bitaddr =
      let baddr = bitaddr_memonic (operand1_at c position) in
      (sprintf (lit "ORL   C, " ∷ str baddr ∷ []), 2)

  unfoldable pub disasm_anl_c_bitaddr : List ℕ × ℕ
  disasm_anl_c_bitaddr =
      let baddr = bitaddr_memonic (operand1_at c position) in
      (sprintf (lit "ANL   C, " ∷ str baddr ∷ []), 2)

  unfoldable pub disasm_mov_bitaddr_c : List ℕ × ℕ
  disasm_mov_bitaddr_c =
      let baddr = bitaddr_memonic (operand1_at c position) in
      (sprintf (lit "MOV   " ∷ str baddr ∷ lit ", C" ∷ []), 2)

  unfoldable pub disasm_orl_c_compl_bitaddr : List ℕ × ℕ
  disasm_orl_c_compl_bitaddr =
      let baddr = bitaddr_memonic (operand1_at c position) in
      (sprintf (lit "ORL   C, /" ∷ str baddr ∷ []), 2)

  unfoldable pub disasm_mov_c_bitaddr : List ℕ × ℕ
  disasm_mov_c_bitaddr =
      let baddr = bitaddr_memonic (operand1_at c position) in
      (sprintf (lit "MOV   C, " ∷ str baddr ∷ []), 2)

  unfoldable pub disasm_anl_c_compl_bitaddr : List ℕ × ℕ
  disasm_anl_c_compl_bitaddr =
      let baddr = bitaddr_memonic (operand1_at c position) in
      (sprintf (lit "ANL   C, /" ∷ str baddr ∷ []), 2)

  unfoldable pub disasm_cpl_bitaddr : List ℕ × ℕ
  disasm_cpl_bitaddr =
      let baddr = bitaddr_memonic (operand1_at c position) in
      (sprintf (lit "CPL   " ∷ str baddr ∷ []), 2)

  unfoldable pub disasm_cpl_c : List ℕ × ℕ
  disasm_cpl_c = (sprintf (lit "CPL   C" ∷ []), 1)

  unfoldable pub disasm_clr_bitaddr : List ℕ × ℕ
  disasm_clr_bitaddr =
      let baddr = bitaddr_memonic (operand1_at c position) in
      (sprintf (lit "CLR   " ∷ str baddr ∷ []), 2)

  unfoldable pub disasm_clr_c : List ℕ × ℕ
  disasm_clr_c = (sprintf (lit "CLR   C" ∷ []), 1)

  unfoldable pub disasm_setb_bitaddr : List ℕ × ℕ
  disasm_setb_bitaddr =
      let baddr = bitaddr_memonic (operand1_at c position) in
      (sprintf (lit "SETB  " ∷ str baddr ∷ []), 2)

  unfoldable pub disasm_setb_c : List ℕ × ℕ
  disasm_setb_c = (sprintf (lit "SETB  C" ∷ []), 1)
