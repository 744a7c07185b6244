-- ===== src/Disasm/Decoder.antt =====
-- disasm.c: the decoders as values, and `decode` of core.c. A decoder is named as the handler of its
-- instruction, so a pointer to one is a value of `Op` too.
use emu8051_stc.Prelude.{ℕ, List}
use emu8051_stc.Cpu.{Cpu}
use emu8051_stc.Disasm.Alu
use emu8051_stc.Disasm.Logic
use emu8051_stc.Disasm.Jump
use emu8051_stc.Disasm.Bit
use emu8051_stc.Disasm.Move
use emu8051_stc.Ops.Handler.{Op}

module _ {E : Type 0} (c : Cpu E) (position : ℕ) where
  unfoldable pub call_decoder : Op → List ℕ × ℕ
  call_decoder Op.inc_rx = Alu.disasm_inc_rx c position
  call_decoder Op.dec_rx = Alu.disasm_dec_rx c position
  call_decoder Op.add_a_rx = Alu.disasm_add_a_rx c position
  call_decoder Op.addc_a_rx = Alu.disasm_addc_a_rx c position
  call_decoder Op.orl_a_rx = Logic.disasm_orl_a_rx c position
  call_decoder Op.anl_a_rx = Logic.disasm_anl_a_rx c position
  call_decoder Op.xrl_a_rx = Logic.disasm_xrl_a_rx c position
  call_decoder Op.mov_rx_imm = Move.disasm_mov_rx_imm c position
  call_decoder Op.mov_mem_rx = Move.disasm_mov_mem_rx c position
  call_decoder Op.subb_a_rx = Alu.disasm_subb_a_rx c position
  call_decoder Op.mov_rx_mem = Move.disasm_mov_rx_mem c position
  call_decoder Op.cjne_rx_imm_offset = Jump.disasm_cjne_rx_imm_offset c position
  call_decoder Op.xch_a_rx = Move.disasm_xch_a_rx c position
  call_decoder Op.djnz_rx_offset = Jump.disasm_djnz_rx_offset c position
  call_decoder Op.mov_a_rx = Move.disasm_mov_a_rx c position
  call_decoder Op.mov_rx_a = Move.disasm_mov_rx_a c position
  call_decoder Op.nop = Move.disasm_nop c position
  call_decoder Op.ajmp_offset = Jump.disasm_ajmp_offset c position
  call_decoder Op.ljmp_address = Jump.disasm_ljmp_address c position
  call_decoder Op.rr_a = Logic.disasm_rr_a c position
  call_decoder Op.inc_a = Alu.disasm_inc_a c position
  call_decoder Op.inc_mem = Alu.disasm_inc_mem c position
  call_decoder Op.inc_indir_rx = Alu.disasm_inc_indir_rx c position
  call_decoder Op.jbc_bitaddr_offset = Bit.disasm_jbc_bitaddr_offset c position
  call_decoder Op.acall_offset = Jump.disasm_acall_offset c position
  call_decoder Op.lcall_address = Jump.disasm_lcall_address c position
  call_decoder Op.rrc_a = Logic.disasm_rrc_a c position
  call_decoder Op.dec_a = Alu.disasm_dec_a c position
  call_decoder Op.dec_mem = Alu.disasm_dec_mem c position
  call_decoder Op.dec_indir_rx = Alu.disasm_dec_indir_rx c position
  call_decoder Op.jb_bitaddr_offset = Bit.disasm_jb_bitaddr_offset c position
  call_decoder Op.ret = Jump.disasm_ret c position
  call_decoder Op.rl_a = Logic.disasm_rl_a c position
  call_decoder Op.add_a_imm = Alu.disasm_add_a_imm c position
  call_decoder Op.add_a_mem = Alu.disasm_add_a_mem c position
  call_decoder Op.add_a_indir_rx = Alu.disasm_add_a_indir_rx c position
  call_decoder Op.jnb_bitaddr_offset = Bit.disasm_jnb_bitaddr_offset c position
  call_decoder Op.reti = Jump.disasm_reti c position
  call_decoder Op.rlc_a = Logic.disasm_rlc_a c position
  call_decoder Op.addc_a_imm = Alu.disasm_addc_a_imm c position
  call_decoder Op.addc_a_mem = Alu.disasm_addc_a_mem c position
  call_decoder Op.addc_a_indir_rx = Alu.disasm_addc_a_indir_rx c position
  call_decoder Op.jc_offset = Jump.disasm_jc_offset c position
  call_decoder Op.orl_mem_a = Logic.disasm_orl_mem_a c position
  call_decoder Op.orl_mem_imm = Logic.disasm_orl_mem_imm c position
  call_decoder Op.orl_a_imm = Logic.disasm_orl_a_imm c position
  call_decoder Op.orl_a_mem = Logic.disasm_orl_a_mem c position
  call_decoder Op.orl_a_indir_rx = Logic.disasm_orl_a_indir_rx c position
  call_decoder Op.jnc_offset = Jump.disasm_jnc_offset c position
  call_decoder Op.anl_mem_a = Logic.disasm_anl_mem_a c position
  call_decoder Op.anl_mem_imm = Logic.disasm_anl_mem_imm c position
  call_decoder Op.anl_a_imm = Logic.disasm_anl_a_imm c position
  call_decoder Op.anl_a_mem = Logic.disasm_anl_a_mem c position
  call_decoder Op.anl_a_indir_rx = Logic.disasm_anl_a_indir_rx c position
  call_decoder Op.jz_offset = Jump.disasm_jz_offset c position
  call_decoder Op.xrl_mem_a = Logic.disasm_xrl_mem_a c position
  call_decoder Op.xrl_mem_imm = Logic.disasm_xrl_mem_imm c position
  call_decoder Op.xrl_a_imm = Logic.disasm_xrl_a_imm c position
  call_decoder Op.xrl_a_mem = Logic.disasm_xrl_a_mem c position
  call_decoder Op.xrl_a_indir_rx = Logic.disasm_xrl_a_indir_rx c position
  call_decoder Op.jnz_offset = Jump.disasm_jnz_offset c position
  call_decoder Op.orl_c_bitaddr = Bit.disasm_orl_c_bitaddr c position
  call_decoder Op.jmp_indir_a_dptr = Jump.disasm_jmp_indir_a_dptr c position
  call_decoder Op.mov_a_imm = Move.disasm_mov_a_imm c position
  call_decoder Op.mov_mem_imm = Move.disasm_mov_mem_imm c position
  call_decoder Op.mov_indir_rx_imm = Move.disasm_mov_indir_rx_imm c position
  call_decoder Op.sjmp_offset = Jump.disasm_sjmp_offset c position
  call_decoder Op.anl_c_bitaddr = Bit.disasm_anl_c_bitaddr c position
  call_decoder Op.movc_a_indir_a_pc = Move.disasm_movc_a_indir_a_pc c position
  call_decoder Op.div_ab = Alu.disasm_div_ab c position
  call_decoder Op.mov_mem_mem = Move.disasm_mov_mem_mem c position
  call_decoder Op.mov_mem_indir_rx = Move.disasm_mov_mem_indir_rx c position
  call_decoder Op.mov_dptr_imm = Move.disasm_mov_dptr_imm c position
  call_decoder Op.mov_bitaddr_c = Bit.disasm_mov_bitaddr_c c position
  call_decoder Op.movc_a_indir_a_dptr = Move.disasm_movc_a_indir_a_dptr c position
  call_decoder Op.subb_a_imm = Alu.disasm_subb_a_imm c position
  call_decoder Op.subb_a_mem = Alu.disasm_subb_a_mem c position
  call_decoder Op.subb_a_indir_rx = Alu.disasm_subb_a_indir_rx c position
  call_decoder Op.orl_c_compl_bitaddr = Bit.disasm_orl_c_compl_bitaddr c position
  call_decoder Op.mov_c_bitaddr = Bit.disasm_mov_c_bitaddr c position
  call_decoder Op.inc_dptr = Alu.disasm_inc_dptr c position
  call_decoder Op.mul_ab = Alu.disasm_mul_ab c position
  call_decoder Op.mov_indir_rx_mem = Move.disasm_mov_indir_rx_mem c position
  call_decoder Op.anl_c_compl_bitaddr = Bit.disasm_anl_c_compl_bitaddr c position
  call_decoder Op.cpl_bitaddr = Bit.disasm_cpl_bitaddr c position
  call_decoder Op.cpl_c = Bit.disasm_cpl_c c position
  call_decoder Op.cjne_a_imm_offset = Jump.disasm_cjne_a_imm_offset c position
  call_decoder Op.cjne_a_mem_offset = Jump.disasm_cjne_a_mem_offset c position
  call_decoder Op.cjne_indir_rx_imm_offset = Jump.disasm_cjne_indir_rx_imm_offset c position
  call_decoder Op.push_mem = Move.disasm_push_mem c position
  call_decoder Op.clr_bitaddr = Bit.disasm_clr_bitaddr c position
  call_decoder Op.clr_c = Bit.disasm_clr_c c position
  call_decoder Op.swap_a = Logic.disasm_swap_a c position
  call_decoder Op.xch_a_mem = Move.disasm_xch_a_mem c position
  call_decoder Op.xch_a_indir_rx = Move.disasm_xch_a_indir_rx c position
  call_decoder Op.pop_mem = Move.disasm_pop_mem c position
  call_decoder Op.setb_bitaddr = Bit.disasm_setb_bitaddr c position
  call_decoder Op.setb_c = Bit.disasm_setb_c c position
  call_decoder Op.da_a = Alu.disasm_da_a c position
  call_decoder Op.djnz_mem_offset = Jump.disasm_djnz_mem_offset c position
  call_decoder Op.xchd_a_indir_rx = Move.disasm_xchd_a_indir_rx c position
  call_decoder Op.movx_a_indir_dptr = Move.disasm_movx_a_indir_dptr c position
  call_decoder Op.movx_a_indir_rx = Move.disasm_movx_a_indir_rx c position
  call_decoder Op.clr_a = Logic.disasm_clr_a c position
  call_decoder Op.mov_a_mem = Move.disasm_mov_a_mem c position
  call_decoder Op.mov_a_indir_rx = Move.disasm_mov_a_indir_rx c position
  call_decoder Op.movx_indir_dptr_a = Move.disasm_movx_indir_dptr_a c position
  call_decoder Op.movx_indir_rx_a = Move.disasm_movx_indir_rx_a c position
  call_decoder Op.cpl_a = Logic.disasm_cpl_a c position
  call_decoder Op.mov_mem_a = Move.disasm_mov_mem_a c position
  call_decoder Op.mov_indir_rx_a = Move.disasm_mov_indir_rx_a c position
