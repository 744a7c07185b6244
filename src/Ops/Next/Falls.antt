-- ===== src/Ops/Next/Falls.antt =====
-- The counter behind each handler and the length that the decoder of its instruction returns.
use emu8051_stc.Prelude.{◌+◌, ◌≡◌, u16, sym, Bool, true, false}
use mathlib.Core.Bool.{false≢true}
use emu8051_stc.Cpu.{Cpu, Hooks}
use emu8051_stc.Ops.Handler.{Op, exec}
use emu8051_stc.Disasm.Decoder.{call_decoder}
use emu8051_stc.Ops.Next.{KeepCounter, At}
use emu8051_stc.Ops.Next.Rules.{handler_rules}
use emu8051_stc.Ops.Alu.{
  inc_rx, dec_rx, add_a_rx, addc_a_rx, subb_a_rx, inc_a, inc_mem, inc_indir_rx, dec_a, dec_mem,
  dec_indir_rx, add_a_imm, add_a_mem, add_a_indir_rx, addc_a_imm, addc_a_mem, addc_a_indir_rx,
  div_ab, subb_a_imm, subb_a_mem, subb_a_indir_rx, inc_dptr, mul_ab, da_a,
}
use emu8051_stc.Ops.Logic.{
  orl_a_rx, anl_a_rx, xrl_a_rx, rr_a, rrc_a, rl_a, rlc_a, orl_mem_a, orl_mem_imm, orl_a_imm,
  orl_a_mem, orl_a_indir_rx, anl_mem_a, anl_mem_imm, anl_a_imm, anl_a_mem, anl_a_indir_rx,
  xrl_mem_a, xrl_mem_imm, xrl_a_imm, xrl_a_mem, xrl_a_indir_rx, swap_a, clr_a, cpl_a,
}
use emu8051_stc.Ops.Bit.{
  orl_c_bitaddr, anl_c_bitaddr, mov_bitaddr_c, orl_c_compl_bitaddr, mov_c_bitaddr,
  anl_c_compl_bitaddr, cpl_bitaddr, cpl_c, clr_bitaddr, clr_c, setb_bitaddr, setb_c,
}
use emu8051_stc.Ops.Move.{
  mov_rx_imm, mov_mem_rx, mov_rx_mem, xch_a_rx, mov_a_rx, mov_rx_a, nop, mov_a_imm, mov_mem_imm,
  mov_indir_rx_imm, movc_a_indir_a_pc, mov_mem_mem, mov_mem_indir_rx, mov_dptr_imm,
  movc_a_indir_a_dptr, mov_indir_rx_mem, push_mem, xch_a_mem, xch_a_indir_rx, pop_mem,
  xchd_a_indir_rx, movx_a_indir_dptr, movx_a_indir_rx, mov_a_mem, mov_a_indir_rx, movx_indir_dptr_a,
  movx_indir_rx_a, mov_mem_a, mov_indir_rx_a,
}
use emu8051_stc.Disasm.Alu.{
  disasm_inc_rx, disasm_dec_rx, disasm_add_a_rx, disasm_addc_a_rx, disasm_subb_a_rx, disasm_inc_a,
  disasm_inc_mem, disasm_inc_indir_rx, disasm_dec_a, disasm_dec_mem, disasm_dec_indir_rx,
  disasm_add_a_imm, disasm_add_a_mem, disasm_add_a_indir_rx, disasm_addc_a_imm, disasm_addc_a_mem,
  disasm_addc_a_indir_rx, disasm_div_ab, disasm_subb_a_imm, disasm_subb_a_mem,
  disasm_subb_a_indir_rx, disasm_inc_dptr, disasm_mul_ab, disasm_da_a,
}
use emu8051_stc.Disasm.Logic.{
  disasm_orl_a_rx, disasm_anl_a_rx, disasm_xrl_a_rx, disasm_rr_a, disasm_rrc_a, disasm_rl_a,
  disasm_rlc_a, disasm_orl_mem_a, disasm_orl_mem_imm, disasm_orl_a_imm, disasm_orl_a_mem,
  disasm_orl_a_indir_rx, disasm_anl_mem_a, disasm_anl_mem_imm, disasm_anl_a_imm, disasm_anl_a_mem,
  disasm_anl_a_indir_rx, disasm_xrl_mem_a, disasm_xrl_mem_imm, disasm_xrl_a_imm, disasm_xrl_a_mem,
  disasm_xrl_a_indir_rx, disasm_swap_a, disasm_clr_a, disasm_cpl_a,
}
use emu8051_stc.Disasm.Bit.{
  disasm_orl_c_bitaddr, disasm_anl_c_bitaddr, disasm_mov_bitaddr_c, disasm_orl_c_compl_bitaddr,
  disasm_mov_c_bitaddr, disasm_anl_c_compl_bitaddr, disasm_cpl_bitaddr, disasm_cpl_c,
  disasm_clr_bitaddr, disasm_clr_c, disasm_setb_bitaddr, disasm_setb_c,
}
use emu8051_stc.Disasm.Move.{
  disasm_mov_rx_imm, disasm_mov_mem_rx, disasm_mov_rx_mem, disasm_xch_a_rx, disasm_mov_a_rx,
  disasm_mov_rx_a, disasm_nop, disasm_mov_a_imm, disasm_mov_mem_imm, disasm_mov_indir_rx_imm,
  disasm_movc_a_indir_a_pc, disasm_mov_mem_mem, disasm_mov_mem_indir_rx, disasm_mov_dptr_imm,
  disasm_movc_a_indir_a_dptr, disasm_mov_indir_rx_mem, disasm_push_mem, disasm_xch_a_mem,
  disasm_xch_a_indir_rx, disasm_pop_mem, disasm_xchd_a_indir_rx, disasm_movx_a_indir_dptr,
  disasm_movx_a_indir_rx, disasm_mov_a_mem, disasm_mov_a_indir_rx, disasm_movx_indir_dptr_a,
  disasm_movx_indir_rx_a, disasm_mov_mem_a, disasm_mov_indir_rx_a,
}

-- The instructions that set the counter themselves.
unfoldable pub jumps : Op → Bool
jumps Op.cjne_rx_imm_offset = true
jumps Op.djnz_rx_offset = true
jumps Op.ajmp_offset = true
jumps Op.ljmp_address = true
jumps Op.jbc_bitaddr_offset = true
jumps Op.acall_offset = true
jumps Op.lcall_address = true
jumps Op.jb_bitaddr_offset = true
jumps Op.ret = true
jumps Op.jnb_bitaddr_offset = true
jumps Op.reti = true
jumps Op.jc_offset = true
jumps Op.jnc_offset = true
jumps Op.jz_offset = true
jumps Op.jnz_offset = true
jumps Op.jmp_indir_a_dptr = true
jumps Op.sjmp_offset = true
jumps Op.cjne_a_imm_offset = true
jumps Op.cjne_a_mem_offset = true
jumps Op.cjne_indir_rx_imm_offset = true
jumps Op.djnz_mem_offset = true
jumps _ = false

module _ {E : Type 0} (hooks : Hooks E) (ok : KeepCounter hooks) (c : Cpu E) where
  pub falls :
      (o : Op) → jumps o ≡ false → At (u16 (c.pc + (call_decoder c c.pc o).1)) ((exec hooks o c).1)
  unfolding jumps exec call_decoder inc_rx disasm_inc_rx dec_rx disasm_dec_rx add_a_rx
      disasm_add_a_rx addc_a_rx disasm_addc_a_rx orl_a_rx disasm_orl_a_rx anl_a_rx disasm_anl_a_rx
      xrl_a_rx disasm_xrl_a_rx mov_rx_imm disasm_mov_rx_imm mov_mem_rx disasm_mov_mem_rx subb_a_rx
      disasm_subb_a_rx mov_rx_mem disasm_mov_rx_mem xch_a_rx disasm_xch_a_rx mov_a_rx
      disasm_mov_a_rx mov_rx_a disasm_mov_rx_a nop disasm_nop rr_a disasm_rr_a inc_a disasm_inc_a
      inc_mem disasm_inc_mem inc_indir_rx disasm_inc_indir_rx rrc_a disasm_rrc_a dec_a disasm_dec_a
      dec_mem disasm_dec_mem dec_indir_rx disasm_dec_indir_rx rl_a disasm_rl_a add_a_imm
      disasm_add_a_imm add_a_mem disasm_add_a_mem add_a_indir_rx disasm_add_a_indir_rx rlc_a
      disasm_rlc_a addc_a_imm disasm_addc_a_imm addc_a_mem disasm_addc_a_mem addc_a_indir_rx
      disasm_addc_a_indir_rx orl_mem_a disasm_orl_mem_a orl_mem_imm disasm_orl_mem_imm orl_a_imm
      disasm_orl_a_imm orl_a_mem disasm_orl_a_mem orl_a_indir_rx disasm_orl_a_indir_rx anl_mem_a
      disasm_anl_mem_a anl_mem_imm disasm_anl_mem_imm anl_a_imm disasm_anl_a_imm anl_a_mem
      disasm_anl_a_mem anl_a_indir_rx disasm_anl_a_indir_rx xrl_mem_a disasm_xrl_mem_a xrl_mem_imm
      disasm_xrl_mem_imm xrl_a_imm disasm_xrl_a_imm xrl_a_mem disasm_xrl_a_mem xrl_a_indir_rx
      disasm_xrl_a_indir_rx orl_c_bitaddr disasm_orl_c_bitaddr mov_a_imm disasm_mov_a_imm
      mov_mem_imm disasm_mov_mem_imm mov_indir_rx_imm disasm_mov_indir_rx_imm anl_c_bitaddr
      disasm_anl_c_bitaddr movc_a_indir_a_pc disasm_movc_a_indir_a_pc div_ab disasm_div_ab
      mov_mem_mem disasm_mov_mem_mem mov_mem_indir_rx disasm_mov_mem_indir_rx mov_dptr_imm
      disasm_mov_dptr_imm mov_bitaddr_c disasm_mov_bitaddr_c movc_a_indir_a_dptr
      disasm_movc_a_indir_a_dptr subb_a_imm disasm_subb_a_imm subb_a_mem disasm_subb_a_mem
      subb_a_indir_rx disasm_subb_a_indir_rx orl_c_compl_bitaddr disasm_orl_c_compl_bitaddr
      mov_c_bitaddr disasm_mov_c_bitaddr inc_dptr disasm_inc_dptr mul_ab disasm_mul_ab
      mov_indir_rx_mem disasm_mov_indir_rx_mem anl_c_compl_bitaddr disasm_anl_c_compl_bitaddr
      cpl_bitaddr disasm_cpl_bitaddr cpl_c disasm_cpl_c push_mem disasm_push_mem clr_bitaddr
      disasm_clr_bitaddr clr_c disasm_clr_c swap_a disasm_swap_a xch_a_mem disasm_xch_a_mem
      xch_a_indir_rx disasm_xch_a_indir_rx pop_mem disasm_pop_mem setb_bitaddr disasm_setb_bitaddr
      setb_c disasm_setb_c da_a disasm_da_a xchd_a_indir_rx disasm_xchd_a_indir_rx movx_a_indir_dptr
      disasm_movx_a_indir_dptr movx_a_indir_rx disasm_movx_a_indir_rx clr_a disasm_clr_a mov_a_mem
      disasm_mov_a_mem mov_a_indir_rx disasm_mov_a_indir_rx movx_indir_dptr_a
      disasm_movx_indir_dptr_a movx_indir_rx_a disasm_movx_indir_rx_a cpl_a disasm_cpl_a mov_mem_a
      disasm_mov_mem_a mov_indir_rx_a disasm_mov_indir_rx_a
  falls Op.inc_rx e = search handler_rules
  falls Op.dec_rx e = search handler_rules
  falls Op.add_a_rx e = search handler_rules
  falls Op.addc_a_rx e = search handler_rules
  falls Op.orl_a_rx e = search handler_rules
  falls Op.anl_a_rx e = search handler_rules
  falls Op.xrl_a_rx e = search handler_rules
  falls Op.mov_rx_imm e = search handler_rules
  falls Op.mov_mem_rx e = search handler_rules
  falls Op.subb_a_rx e = search handler_rules
  falls Op.mov_rx_mem e = search handler_rules
  falls Op.cjne_rx_imm_offset e = absurd (false≢true (sym e))
  falls Op.xch_a_rx e = search handler_rules
  falls Op.djnz_rx_offset e = absurd (false≢true (sym e))
  falls Op.mov_a_rx e = search handler_rules
  falls Op.mov_rx_a e = search handler_rules
  falls Op.nop e = search handler_rules
  falls Op.ajmp_offset e = absurd (false≢true (sym e))
  falls Op.ljmp_address e = absurd (false≢true (sym e))
  falls Op.rr_a e = search handler_rules
  falls Op.inc_a e = search handler_rules
  falls Op.inc_mem e = search handler_rules
  falls Op.inc_indir_rx e = search handler_rules
  falls Op.jbc_bitaddr_offset e = absurd (false≢true (sym e))
  falls Op.acall_offset e = absurd (false≢true (sym e))
  falls Op.lcall_address e = absurd (false≢true (sym e))
  falls Op.rrc_a e = search handler_rules
  falls Op.dec_a e = search handler_rules
  falls Op.dec_mem e = search handler_rules
  falls Op.dec_indir_rx e = search handler_rules
  falls Op.jb_bitaddr_offset e = absurd (false≢true (sym e))
  falls Op.ret e = absurd (false≢true (sym e))
  falls Op.rl_a e = search handler_rules
  falls Op.add_a_imm e = search handler_rules
  falls Op.add_a_mem e = search handler_rules
  falls Op.add_a_indir_rx e = search handler_rules
  falls Op.jnb_bitaddr_offset e = absurd (false≢true (sym e))
  falls Op.reti e = absurd (false≢true (sym e))
  falls Op.rlc_a e = search handler_rules
  falls Op.addc_a_imm e = search handler_rules
  falls Op.addc_a_mem e = search handler_rules
  falls Op.addc_a_indir_rx e = search handler_rules
  falls Op.jc_offset e = absurd (false≢true (sym e))
  falls Op.orl_mem_a e = search handler_rules
  falls Op.orl_mem_imm e = search handler_rules
  falls Op.orl_a_imm e = search handler_rules
  falls Op.orl_a_mem e = search handler_rules
  falls Op.orl_a_indir_rx e = search handler_rules
  falls Op.jnc_offset e = absurd (false≢true (sym e))
  falls Op.anl_mem_a e = search handler_rules
  falls Op.anl_mem_imm e = search handler_rules
  falls Op.anl_a_imm e = search handler_rules
  falls Op.anl_a_mem e = search handler_rules
  falls Op.anl_a_indir_rx e = search handler_rules
  falls Op.jz_offset e = absurd (false≢true (sym e))
  falls Op.xrl_mem_a e = search handler_rules
  falls Op.xrl_mem_imm e = search handler_rules
  falls Op.xrl_a_imm e = search handler_rules
  falls Op.xrl_a_mem e = search handler_rules
  falls Op.xrl_a_indir_rx e = search handler_rules
  falls Op.jnz_offset e = absurd (false≢true (sym e))
  falls Op.orl_c_bitaddr e = search handler_rules
  falls Op.jmp_indir_a_dptr e = absurd (false≢true (sym e))
  falls Op.mov_a_imm e = search handler_rules
  falls Op.mov_mem_imm e = search handler_rules
  falls Op.mov_indir_rx_imm e = search handler_rules
  falls Op.sjmp_offset e = absurd (false≢true (sym e))
  falls Op.anl_c_bitaddr e = search handler_rules
  falls Op.movc_a_indir_a_pc e = search handler_rules
  falls Op.div_ab e = search handler_rules depth 9
  falls Op.mov_mem_mem e = search handler_rules
  falls Op.mov_mem_indir_rx e = search handler_rules
  falls Op.mov_dptr_imm e = search handler_rules
  falls Op.mov_bitaddr_c e = search handler_rules
  falls Op.movc_a_indir_a_dptr e = search handler_rules
  falls Op.subb_a_imm e = search handler_rules
  falls Op.subb_a_mem e = search handler_rules
  falls Op.subb_a_indir_rx e = search handler_rules
  falls Op.orl_c_compl_bitaddr e = search handler_rules
  falls Op.mov_c_bitaddr e = search handler_rules
  falls Op.inc_dptr e = search handler_rules depth 9
  falls Op.mul_ab e = search handler_rules depth 9
  falls Op.mov_indir_rx_mem e = search handler_rules
  falls Op.anl_c_compl_bitaddr e = search handler_rules
  falls Op.cpl_bitaddr e = search handler_rules
  falls Op.cpl_c e = search handler_rules
  falls Op.cjne_a_imm_offset e = absurd (false≢true (sym e))
  falls Op.cjne_a_mem_offset e = absurd (false≢true (sym e))
  falls Op.cjne_indir_rx_imm_offset e = absurd (false≢true (sym e))
  falls Op.push_mem e = search handler_rules
  falls Op.clr_bitaddr e = search handler_rules
  falls Op.clr_c e = search handler_rules
  falls Op.swap_a e = search handler_rules
  falls Op.xch_a_mem e = search handler_rules
  falls Op.xch_a_indir_rx e = search handler_rules
  falls Op.pop_mem e = search handler_rules
  falls Op.setb_bitaddr e = search handler_rules
  falls Op.setb_c e = search handler_rules
  falls Op.da_a e = search handler_rules depth 9
  falls Op.djnz_mem_offset e = absurd (false≢true (sym e))
  falls Op.xchd_a_indir_rx e = search handler_rules
  falls Op.movx_a_indir_dptr e = search handler_rules
  falls Op.movx_a_indir_rx e = search handler_rules
  falls Op.clr_a e = search handler_rules
  falls Op.mov_a_mem e = search handler_rules depth 9
  falls Op.mov_a_indir_rx e = search handler_rules
  falls Op.movx_indir_dptr_a e = search handler_rules
  falls Op.movx_indir_rx_a e = search handler_rules
  falls Op.cpl_a e = search handler_rules
  falls Op.mov_mem_a e = search handler_rules
  falls Op.mov_indir_rx_a e = search handler_rules
