-- ===== src/Disasm/Short.antt =====
-- disasm.c: how long the texts of the decoders are.
use emu8051_stc.Prelude.{
  length, ℕ, ◌<◌, ◌≤◌, ◌≡◌, refl, bit_and, nonzero, if_keeps, Option, none, some, List, [], ◌∷◌,
}
use emu8051_stc.Cpu.{Cpu}
use mathlib.Core.Path.{subst}
use emu8051_stc.Cpu.Regs.{reg_pcon}
use emu8051_stc.Disasm.{decode}
use emu8051_stc.Cpu.Valid.{IsValid}
use emu8051_stc.Ops.Handler.{Op}
use emu8051_stc.Ops.Table.{OpTable}
use emu8051_stc.Disasm.Fetch.{opcode_at, operand1_at, operand2_at}
use emu8051_stc.Disasm.Text.{Piece, lit, sprintf}
use emu8051_stc.Disasm.Names.{mem_memonic, bitaddr_memonic}
use emu8051_stc.Disasm.Decoder.{call_decoder}
use emu8051_stc.Mem.{codemem}
use emu8051_stc.Disasm.Bounds.{
  narrow, bound, bounds, IsShort, mem_memonic-length, bitaddr_memonic-length,
}
use emu8051_stc.Disasm.Alu.{
  disasm_inc_rx, disasm_dec_rx, disasm_add_a_rx, disasm_addc_a_rx, disasm_subb_a_rx, disasm_inc_a,
  disasm_inc_mem, disasm_inc_indir_rx, disasm_dec_a, disasm_dec_mem, disasm_dec_indir_rx,
  disasm_add_a_imm, disasm_add_a_mem, disasm_add_a_indir_rx, disasm_addc_a_imm, disasm_addc_a_mem,
  disasm_addc_a_indir_rx, disasm_div_ab, disasm_subb_a_imm, disasm_subb_a_mem,
  disasm_subb_a_indir_rx, disasm_inc_dptr, disasm_mul_ab, disasm_da_a,
}
use emu8051_stc.Disasm.Logic.{
  disasm_orl_a_rx, disasm_anl_a_rx, disasm_xrl_a_rx, disasm_rr_a, disasm_rrc_a, disasm_rl_a,
  disasm_rlc_a, disasm_orl_mem_a, disasm_orl_mem_imm, disasm_orl_a_imm, disasm_orl_a_mem,
  disasm_orl_a_indir_rx, disasm_anl_mem_a, disasm_anl_mem_imm, disasm_anl_a_imm, disasm_anl_a_mem,
  disasm_anl_a_indir_rx, disasm_xrl_mem_a, disasm_xrl_mem_imm, disasm_xrl_a_imm, disasm_xrl_a_mem,
  disasm_xrl_a_indir_rx, disasm_swap_a, disasm_clr_a, disasm_cpl_a,
}
use emu8051_stc.Disasm.Jump.{
  disasm_cjne_rx_imm_offset, disasm_djnz_rx_offset, disasm_ajmp_offset, disasm_ljmp_address,
  disasm_acall_offset, disasm_lcall_address, disasm_ret, disasm_reti, disasm_jc_offset,
  disasm_jnc_offset, disasm_jz_offset, disasm_jnz_offset, disasm_jmp_indir_a_dptr,
  disasm_sjmp_offset, disasm_cjne_a_imm_offset, disasm_cjne_a_mem_offset,
  disasm_cjne_indir_rx_imm_offset, disasm_djnz_mem_offset,
}
use emu8051_stc.Disasm.Bit.{
  disasm_jbc_bitaddr_offset, disasm_jb_bitaddr_offset, disasm_jnb_bitaddr_offset,
  disasm_orl_c_bitaddr, disasm_anl_c_bitaddr, disasm_mov_bitaddr_c, disasm_orl_c_compl_bitaddr,
  disasm_mov_c_bitaddr, disasm_anl_c_compl_bitaddr, disasm_cpl_bitaddr, disasm_cpl_c,
  disasm_clr_bitaddr, disasm_clr_c, disasm_setb_bitaddr, disasm_setb_c,
}
use emu8051_stc.Disasm.Move.{
  disasm_mov_rx_imm, disasm_mov_mem_rx, disasm_mov_rx_mem, disasm_xch_a_rx, disasm_mov_a_rx,
  disasm_mov_rx_a, disasm_nop, disasm_mov_a_imm, disasm_mov_mem_imm, disasm_mov_indir_rx_imm,
  disasm_movc_a_indir_a_pc, disasm_mov_mem_mem, disasm_mov_mem_indir_rx, disasm_mov_dptr_imm,
  disasm_movc_a_indir_a_dptr, disasm_mov_indir_rx_mem, disasm_push_mem, disasm_xch_a_mem,
  disasm_xch_a_indir_rx, disasm_pop_mem, disasm_xchd_a_indir_rx, disasm_movx_a_indir_dptr,
  disasm_movx_a_indir_rx, disasm_mov_a_mem, disasm_mov_a_indir_rx, disasm_movx_indir_dptr_a,
  disasm_movx_indir_rx_a, disasm_mov_mem_a, disasm_mov_indir_rx_a,
}

module _ {E : Type 0} (c : Cpu E) (h : IsValid c) (position : ℕ) where
  mem1 : length (mem_memonic (operand1_at c position)) ≤ 6
  unfolding operand1_at codemem
  mem1 = mem_memonic-length _ (h.code _)

  mem2 : length (mem_memonic (operand2_at c position)) ≤ 6
  unfolding operand2_at codemem
  mem2 = mem_memonic-length _ (h.code _)

  bit1 : length (bitaddr_memonic (operand1_at c position)) ≤ 6
  unfolding operand1_at codemem
  bit1 = bitaddr_memonic-length _ (h.code _)

  call_decoder_short : (o : Op) → length ((call_decoder c position o).0) < 64
  unfolding call_decoder bounds bound IsShort disasm_inc_rx disasm_dec_rx disasm_add_a_rx
      disasm_addc_a_rx disasm_orl_a_rx disasm_anl_a_rx disasm_xrl_a_rx disasm_mov_rx_imm
      disasm_mov_mem_rx disasm_subb_a_rx disasm_mov_rx_mem disasm_cjne_rx_imm_offset disasm_xch_a_rx
      disasm_djnz_rx_offset disasm_mov_a_rx disasm_mov_rx_a disasm_nop disasm_ajmp_offset
      disasm_ljmp_address disasm_rr_a disasm_inc_a disasm_inc_mem disasm_inc_indir_rx
      disasm_jbc_bitaddr_offset disasm_acall_offset disasm_lcall_address disasm_rrc_a disasm_dec_a
      disasm_dec_mem disasm_dec_indir_rx disasm_jb_bitaddr_offset disasm_ret disasm_rl_a
      disasm_add_a_imm disasm_add_a_mem disasm_add_a_indir_rx disasm_jnb_bitaddr_offset disasm_reti
      disasm_rlc_a disasm_addc_a_imm disasm_addc_a_mem disasm_addc_a_indir_rx disasm_jc_offset
      disasm_orl_mem_a disasm_orl_mem_imm disasm_orl_a_imm disasm_orl_a_mem disasm_orl_a_indir_rx
      disasm_jnc_offset disasm_anl_mem_a disasm_anl_mem_imm disasm_anl_a_imm disasm_anl_a_mem
      disasm_anl_a_indir_rx disasm_jz_offset disasm_xrl_mem_a disasm_xrl_mem_imm disasm_xrl_a_imm
      disasm_xrl_a_mem disasm_xrl_a_indir_rx disasm_jnz_offset disasm_orl_c_bitaddr
      disasm_jmp_indir_a_dptr disasm_mov_a_imm disasm_mov_mem_imm disasm_mov_indir_rx_imm
      disasm_sjmp_offset disasm_anl_c_bitaddr disasm_movc_a_indir_a_pc disasm_div_ab
      disasm_mov_mem_mem disasm_mov_mem_indir_rx disasm_mov_dptr_imm disasm_mov_bitaddr_c
      disasm_movc_a_indir_a_dptr disasm_subb_a_imm disasm_subb_a_mem disasm_subb_a_indir_rx
      disasm_orl_c_compl_bitaddr disasm_mov_c_bitaddr disasm_inc_dptr disasm_mul_ab
      disasm_mov_indir_rx_mem disasm_anl_c_compl_bitaddr disasm_cpl_bitaddr disasm_cpl_c
      disasm_cjne_a_imm_offset disasm_cjne_a_mem_offset disasm_cjne_indir_rx_imm_offset
      disasm_push_mem disasm_clr_bitaddr disasm_clr_c disasm_swap_a disasm_xch_a_mem
      disasm_xch_a_indir_rx disasm_pop_mem disasm_setb_bitaddr disasm_setb_c disasm_da_a
      disasm_djnz_mem_offset disasm_xchd_a_indir_rx disasm_movx_a_indir_dptr disasm_movx_a_indir_rx
      disasm_clr_a disasm_mov_a_mem disasm_mov_a_indir_rx disasm_movx_indir_dptr_a
      disasm_movx_indir_rx_a disasm_cpl_a disasm_mov_mem_a disasm_mov_indir_rx_a
  call_decoder_short Op.inc_rx = narrow _ tt refl
  call_decoder_short Op.dec_rx = narrow _ tt refl
  call_decoder_short Op.add_a_rx = narrow _ tt refl
  call_decoder_short Op.addc_a_rx = narrow _ tt refl
  call_decoder_short Op.orl_a_rx = narrow _ tt refl
  call_decoder_short Op.anl_a_rx = narrow _ tt refl
  call_decoder_short Op.xrl_a_rx = narrow _ tt refl
  call_decoder_short Op.mov_rx_imm = narrow _ tt refl
  call_decoder_short Op.mov_mem_rx = narrow _ (mem1, tt) refl
  call_decoder_short Op.subb_a_rx = narrow _ tt refl
  call_decoder_short Op.mov_rx_mem = narrow _ (mem1, tt) refl
  call_decoder_short Op.cjne_rx_imm_offset = narrow _ tt refl
  call_decoder_short Op.xch_a_rx = narrow _ tt refl
  call_decoder_short Op.djnz_rx_offset = narrow _ tt refl
  call_decoder_short Op.mov_a_rx = narrow _ tt refl
  call_decoder_short Op.mov_rx_a = narrow _ tt refl
  call_decoder_short Op.nop =
      if_keeps (λ (p : Piece). length (sprintf (p ∷ [])) < 64) (nonzero (opcode_at c position))
        (lit "??UNKNOWN") (lit "NOP") (λ e. narrow _ tt refl) (λ e. narrow _ tt refl)
  call_decoder_short Op.ajmp_offset = narrow _ tt refl
  call_decoder_short Op.ljmp_address = narrow _ tt refl
  call_decoder_short Op.rr_a = narrow _ tt refl
  call_decoder_short Op.inc_a = narrow _ tt refl
  call_decoder_short Op.inc_mem = narrow _ (mem1, tt) refl
  call_decoder_short Op.inc_indir_rx = narrow _ tt refl
  call_decoder_short Op.jbc_bitaddr_offset = narrow _ (bit1, tt) refl
  call_decoder_short Op.acall_offset = narrow _ tt refl
  call_decoder_short Op.lcall_address = narrow _ tt refl
  call_decoder_short Op.rrc_a = narrow _ tt refl
  call_decoder_short Op.dec_a = narrow _ tt refl
  call_decoder_short Op.dec_mem = narrow _ (mem1, tt) refl
  call_decoder_short Op.dec_indir_rx = narrow _ tt refl
  call_decoder_short Op.jb_bitaddr_offset = narrow _ (bit1, tt) refl
  call_decoder_short Op.ret = narrow _ tt refl
  call_decoder_short Op.rl_a = narrow _ tt refl
  call_decoder_short Op.add_a_imm = narrow _ tt refl
  call_decoder_short Op.add_a_mem = narrow _ (mem1, tt) refl
  call_decoder_short Op.add_a_indir_rx = narrow _ tt refl
  call_decoder_short Op.jnb_bitaddr_offset = narrow _ (bit1, tt) refl
  call_decoder_short Op.reti = narrow _ tt refl
  call_decoder_short Op.rlc_a = narrow _ tt refl
  call_decoder_short Op.addc_a_imm = narrow _ tt refl
  call_decoder_short Op.addc_a_mem = narrow _ (mem1, tt) refl
  call_decoder_short Op.addc_a_indir_rx = narrow _ tt refl
  call_decoder_short Op.jc_offset = narrow _ tt refl
  call_decoder_short Op.orl_mem_a = narrow _ (mem1, tt) refl
  call_decoder_short Op.orl_mem_imm = narrow _ (mem1, tt) refl
  call_decoder_short Op.orl_a_imm = narrow _ tt refl
  call_decoder_short Op.orl_a_mem = narrow _ (mem1, tt) refl
  call_decoder_short Op.orl_a_indir_rx = narrow _ tt refl
  call_decoder_short Op.jnc_offset = narrow _ tt refl
  call_decoder_short Op.anl_mem_a = narrow _ (mem1, tt) refl
  call_decoder_short Op.anl_mem_imm = narrow _ (mem1, tt) refl
  call_decoder_short Op.anl_a_imm = narrow _ tt refl
  call_decoder_short Op.anl_a_mem = narrow _ (mem1, tt) refl
  call_decoder_short Op.anl_a_indir_rx = narrow _ tt refl
  call_decoder_short Op.jz_offset = narrow _ tt refl
  call_decoder_short Op.xrl_mem_a = narrow _ (mem1, tt) refl
  call_decoder_short Op.xrl_mem_imm = narrow _ (mem1, tt) refl
  call_decoder_short Op.xrl_a_imm = narrow _ tt refl
  call_decoder_short Op.xrl_a_mem = narrow _ (mem1, tt) refl
  call_decoder_short Op.xrl_a_indir_rx = narrow _ tt refl
  call_decoder_short Op.jnz_offset = narrow _ tt refl
  call_decoder_short Op.orl_c_bitaddr = narrow _ (bit1, tt) refl
  call_decoder_short Op.jmp_indir_a_dptr = narrow _ tt refl
  call_decoder_short Op.mov_a_imm = narrow _ tt refl
  call_decoder_short Op.mov_mem_imm = narrow _ (mem1, tt) refl
  call_decoder_short Op.mov_indir_rx_imm = narrow _ tt refl
  call_decoder_short Op.sjmp_offset = narrow _ tt refl
  call_decoder_short Op.anl_c_bitaddr = narrow _ (bit1, tt) refl
  call_decoder_short Op.movc_a_indir_a_pc = narrow _ tt refl
  call_decoder_short Op.div_ab = narrow _ tt refl
  call_decoder_short Op.mov_mem_mem = narrow _ (mem2, (mem1, tt)) refl
  call_decoder_short Op.mov_mem_indir_rx = narrow _ (mem1, tt) refl
  call_decoder_short Op.mov_dptr_imm = narrow _ tt refl
  call_decoder_short Op.mov_bitaddr_c = narrow _ (bit1, tt) refl
  call_decoder_short Op.movc_a_indir_a_dptr = narrow _ tt refl
  call_decoder_short Op.subb_a_imm = narrow _ tt refl
  call_decoder_short Op.subb_a_mem = narrow _ (mem1, tt) refl
  call_decoder_short Op.subb_a_indir_rx = narrow _ tt refl
  call_decoder_short Op.orl_c_compl_bitaddr = narrow _ (bit1, tt) refl
  call_decoder_short Op.mov_c_bitaddr = narrow _ (bit1, tt) refl
  call_decoder_short Op.inc_dptr = narrow _ tt refl
  call_decoder_short Op.mul_ab = narrow _ tt refl
  call_decoder_short Op.mov_indir_rx_mem = narrow _ (mem1, tt) refl
  call_decoder_short Op.anl_c_compl_bitaddr = narrow _ (bit1, tt) refl
  call_decoder_short Op.cpl_bitaddr = narrow _ (bit1, tt) refl
  call_decoder_short Op.cpl_c = narrow _ tt refl
  call_decoder_short Op.cjne_a_imm_offset = narrow _ tt refl
  call_decoder_short Op.cjne_a_mem_offset = narrow _ (mem1, tt) refl
  call_decoder_short Op.cjne_indir_rx_imm_offset = narrow _ tt refl
  call_decoder_short Op.push_mem = narrow _ (mem1, tt) refl
  call_decoder_short Op.clr_bitaddr = narrow _ (bit1, tt) refl
  call_decoder_short Op.clr_c = narrow _ tt refl
  call_decoder_short Op.swap_a = narrow _ tt refl
  call_decoder_short Op.xch_a_mem = narrow _ (mem1, tt) refl
  call_decoder_short Op.xch_a_indir_rx = narrow _ tt refl
  call_decoder_short Op.pop_mem = narrow _ (mem1, tt) refl
  call_decoder_short Op.setb_bitaddr = narrow _ (bit1, tt) refl
  call_decoder_short Op.setb_c = narrow _ tt refl
  call_decoder_short Op.da_a = narrow _ tt refl
  call_decoder_short Op.djnz_mem_offset = narrow _ (mem1, tt) refl
  call_decoder_short Op.xchd_a_indir_rx = narrow _ tt refl
  call_decoder_short Op.movx_a_indir_dptr = narrow _ tt refl
  call_decoder_short Op.movx_a_indir_rx = narrow _ tt refl
  call_decoder_short Op.clr_a = narrow _ tt refl
  call_decoder_short Op.mov_a_mem = narrow _ (mem1, tt) refl
  call_decoder_short Op.mov_a_indir_rx = narrow _ tt refl
  call_decoder_short Op.movx_indir_dptr_a = narrow _ tt refl
  call_decoder_short Op.movx_indir_rx_a = narrow _ tt refl
  call_decoder_short Op.cpl_a = narrow _ tt refl
  call_decoder_short Op.mov_mem_a = narrow _ (mem1, tt) refl
  call_decoder_short Op.mov_indir_rx_a = narrow _ tt refl

-- What is written, if anything is.
AllFit : Option (List ℕ × ℕ) → Type 0
AllFit none = Unit {0}
AllFit (some r) = length (r.0) < 64

AllFit-some : (o : Option (List ℕ × ℕ)) (r : List ℕ × ℕ) → AllFit o → o ≡ some r → length (r.0) < 64
unfolding AllFit
AllFit-some o r fit e = subst AllFit e fit

module _ {E : Type 0} (c : Cpu E) (h : IsValid c) (position : ℕ) where
  called :
      (o : Option Op) → AllFit (elim o [ none ↦ none | some f ↦ some (call_decoder c position f) ])
  unfolding AllFit
  called none = tt
  called (some f) = call_decoder_short c h position f

  decode-AllFit : (dec : OpTable) → AllFit (decode dec c position)
  unfolding decode AllFit bounds bound IsShort
  decode-AllFit dec =
      if_keeps AllFit (nonzero (bit_and (c.sfr reg_pcon) 0x01))
        (some (sprintf (lit "IDLE" ∷ []), 0)) _ (λ e. narrow _ tt refl)
        (λ e.
          if_keeps AllFit (nonzero (bit_and (c.sfr reg_pcon) 0x02))
            (some (sprintf (lit "POWER DOWN" ∷ []), 0)) _ (λ e. narrow _ tt refl)
            (λ e. called (dec (c.code_mem (bit_and position c.code_mem_max_idx)))))

  -- In a machine whose memories and registers hold bytes and whose counter has 16 bits, what
  -- `decode` writes, whatever the table, fits a buffer of 64 characters with the NUL behind it.
  pub decode_fits :
      (dec : OpTable) (r : List ℕ × ℕ) → decode dec c position ≡ some r → length (r.0) < 64
  decode_fits dec r e = AllFit-some (decode dec c position) r (decode-AllFit dec) e
