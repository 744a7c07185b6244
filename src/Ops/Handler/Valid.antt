-- ===== src/Ops/Handler/Valid.antt =====
-- The handlers and the validity of the machine.
use emu8051_stc.Cpu.{Cpu, Hooks}
use emu8051_stc.Cpu.Valid.{IsValid}
use emu8051_stc.Mem.Valid.{AreValid}
use emu8051_stc.Ops.Handler.{Op, exec}
use emu8051_stc.Ops.Alu
use emu8051_stc.Ops.Logic
use emu8051_stc.Ops.Jump
use emu8051_stc.Ops.Bit
use emu8051_stc.Ops.Move

module _ {E : Type 0} (hooks : Hooks E) (ok : AreValid hooks) where
  -- A handler of a valid machine, whose callbacks keep it valid, leaves a valid machine.
  pub exec-IsValid : (o : Op) (c : Cpu E) → IsValid c → IsValid (exec hooks o c).1
  unfolding exec
  exec-IsValid Op.inc_rx c h = Alu.Valid.inc_rx-IsValid c h
  exec-IsValid Op.dec_rx c h = Alu.Valid.dec_rx-IsValid c h
  exec-IsValid Op.add_a_rx c h = Alu.Valid.add_a_rx-IsValid c h
  exec-IsValid Op.addc_a_rx c h = Alu.Valid.addc_a_rx-IsValid c h
  exec-IsValid Op.orl_a_rx c h = Logic.Valid.orl_a_rx-IsValid c h
  exec-IsValid Op.anl_a_rx c h = Logic.Valid.anl_a_rx-IsValid c h
  exec-IsValid Op.xrl_a_rx c h = Logic.Valid.xrl_a_rx-IsValid c h
  exec-IsValid Op.mov_rx_imm c h = Move.Valid.mov_rx_imm-IsValid c h
  exec-IsValid Op.mov_mem_rx c h = Move.Valid.mov_mem_rx-IsValid hooks ok c h
  exec-IsValid Op.subb_a_rx c h = Alu.Valid.subb_a_rx-IsValid c h
  exec-IsValid Op.mov_rx_mem c h = Move.Valid.mov_rx_mem-IsValid hooks ok c h
  exec-IsValid Op.cjne_rx_imm_offset c h = Jump.Valid.cjne_rx_imm_offset-IsValid c h
  exec-IsValid Op.xch_a_rx c h = Move.Valid.xch_a_rx-IsValid c h
  exec-IsValid Op.djnz_rx_offset c h = Jump.Valid.djnz_rx_offset-IsValid c h
  exec-IsValid Op.mov_a_rx c h = Move.Valid.mov_a_rx-IsValid c h
  exec-IsValid Op.mov_rx_a c h = Move.Valid.mov_rx_a-IsValid c h
  exec-IsValid Op.nop c h = Move.Valid.nop-IsValid hooks ok c h
  exec-IsValid Op.ajmp_offset c h = Jump.Valid.ajmp_offset-IsValid c h
  exec-IsValid Op.ljmp_address c h = Jump.Valid.ljmp_address-IsValid c h
  exec-IsValid Op.rr_a c h = Logic.Valid.rr_a-IsValid c h
  exec-IsValid Op.inc_a c h = Alu.Valid.inc_a-IsValid c h
  exec-IsValid Op.inc_mem c h = Alu.Valid.inc_mem-IsValid hooks ok c h
  exec-IsValid Op.inc_indir_rx c h = Alu.Valid.inc_indir_rx-IsValid c h
  exec-IsValid Op.jbc_bitaddr_offset c h = Bit.Valid.jbc_bitaddr_offset-IsValid hooks ok c h
  exec-IsValid Op.acall_offset c h = Jump.Valid.acall_offset-IsValid hooks ok c h
  exec-IsValid Op.lcall_address c h = Jump.Valid.lcall_address-IsValid hooks ok c h
  exec-IsValid Op.rrc_a c h = Logic.Valid.rrc_a-IsValid c h
  exec-IsValid Op.dec_a c h = Alu.Valid.dec_a-IsValid c h
  exec-IsValid Op.dec_mem c h = Alu.Valid.dec_mem-IsValid hooks ok c h
  exec-IsValid Op.dec_indir_rx c h = Alu.Valid.dec_indir_rx-IsValid c h
  exec-IsValid Op.jb_bitaddr_offset c h = Bit.Valid.jb_bitaddr_offset-IsValid hooks ok c h
  exec-IsValid Op.ret c h = Jump.Valid.ret-IsValid hooks ok c h
  exec-IsValid Op.rl_a c h = Logic.Valid.rl_a-IsValid c h
  exec-IsValid Op.add_a_imm c h = Alu.Valid.add_a_imm-IsValid c h
  exec-IsValid Op.add_a_mem c h = Alu.Valid.add_a_mem-IsValid hooks ok c h
  exec-IsValid Op.add_a_indir_rx c h = Alu.Valid.add_a_indir_rx-IsValid c h
  exec-IsValid Op.jnb_bitaddr_offset c h = Bit.Valid.jnb_bitaddr_offset-IsValid hooks ok c h
  exec-IsValid Op.reti c h = Jump.Valid.reti-IsValid hooks ok c h
  exec-IsValid Op.rlc_a c h = Logic.Valid.rlc_a-IsValid c h
  exec-IsValid Op.addc_a_imm c h = Alu.Valid.addc_a_imm-IsValid c h
  exec-IsValid Op.addc_a_mem c h = Alu.Valid.addc_a_mem-IsValid hooks ok c h
  exec-IsValid Op.addc_a_indir_rx c h = Alu.Valid.addc_a_indir_rx-IsValid c h
  exec-IsValid Op.jc_offset c h = Jump.Valid.jc_offset-IsValid c h
  exec-IsValid Op.orl_mem_a c h = Logic.Valid.orl_mem_a-IsValid hooks ok c h
  exec-IsValid Op.orl_mem_imm c h = Logic.Valid.orl_mem_imm-IsValid hooks ok c h
  exec-IsValid Op.orl_a_imm c h = Logic.Valid.orl_a_imm-IsValid c h
  exec-IsValid Op.orl_a_mem c h = Logic.Valid.orl_a_mem-IsValid hooks ok c h
  exec-IsValid Op.orl_a_indir_rx c h = Logic.Valid.orl_a_indir_rx-IsValid c h
  exec-IsValid Op.jnc_offset c h = Jump.Valid.jnc_offset-IsValid c h
  exec-IsValid Op.anl_mem_a c h = Logic.Valid.anl_mem_a-IsValid hooks ok c h
  exec-IsValid Op.anl_mem_imm c h = Logic.Valid.anl_mem_imm-IsValid hooks ok c h
  exec-IsValid Op.anl_a_imm c h = Logic.Valid.anl_a_imm-IsValid c h
  exec-IsValid Op.anl_a_mem c h = Logic.Valid.anl_a_mem-IsValid hooks ok c h
  exec-IsValid Op.anl_a_indir_rx c h = Logic.Valid.anl_a_indir_rx-IsValid c h
  exec-IsValid Op.jz_offset c h = Jump.Valid.jz_offset-IsValid c h
  exec-IsValid Op.xrl_mem_a c h = Logic.Valid.xrl_mem_a-IsValid hooks ok c h
  exec-IsValid Op.xrl_mem_imm c h = Logic.Valid.xrl_mem_imm-IsValid hooks ok c h
  exec-IsValid Op.xrl_a_imm c h = Logic.Valid.xrl_a_imm-IsValid c h
  exec-IsValid Op.xrl_a_mem c h = Logic.Valid.xrl_a_mem-IsValid hooks ok c h
  exec-IsValid Op.xrl_a_indir_rx c h = Logic.Valid.xrl_a_indir_rx-IsValid c h
  exec-IsValid Op.jnz_offset c h = Jump.Valid.jnz_offset-IsValid c h
  exec-IsValid Op.orl_c_bitaddr c h = Bit.Valid.orl_c_bitaddr-IsValid hooks ok c h
  exec-IsValid Op.jmp_indir_a_dptr c h = Jump.Valid.jmp_indir_a_dptr-IsValid c h
  exec-IsValid Op.mov_a_imm c h = Move.Valid.mov_a_imm-IsValid c h
  exec-IsValid Op.mov_mem_imm c h = Move.Valid.mov_mem_imm-IsValid hooks ok c h
  exec-IsValid Op.mov_indir_rx_imm c h = Move.Valid.mov_indir_rx_imm-IsValid c h
  exec-IsValid Op.sjmp_offset c h = Jump.Valid.sjmp_offset-IsValid c h
  exec-IsValid Op.anl_c_bitaddr c h = Bit.Valid.anl_c_bitaddr-IsValid hooks ok c h
  exec-IsValid Op.movc_a_indir_a_pc c h = Move.Valid.movc_a_indir_a_pc-IsValid c h
  exec-IsValid Op.div_ab c h = Alu.Valid.div_ab-IsValid c h
  exec-IsValid Op.mov_mem_mem c h = Move.Valid.mov_mem_mem-IsValid hooks ok c h
  exec-IsValid Op.mov_mem_indir_rx c h = Move.Valid.mov_mem_indir_rx-IsValid hooks ok c h
  exec-IsValid Op.mov_dptr_imm c h = Move.Valid.mov_dptr_imm-IsValid c h
  exec-IsValid Op.mov_bitaddr_c c h = Bit.Valid.mov_bitaddr_c-IsValid hooks ok c h
  exec-IsValid Op.movc_a_indir_a_dptr c h = Move.Valid.movc_a_indir_a_dptr-IsValid c h
  exec-IsValid Op.subb_a_imm c h = Alu.Valid.subb_a_imm-IsValid c h
  exec-IsValid Op.subb_a_mem c h = Alu.Valid.subb_a_mem-IsValid hooks ok c h
  exec-IsValid Op.subb_a_indir_rx c h = Alu.Valid.subb_a_indir_rx-IsValid c h
  exec-IsValid Op.orl_c_compl_bitaddr c h = Bit.Valid.orl_c_compl_bitaddr-IsValid hooks ok c h
  exec-IsValid Op.mov_c_bitaddr c h = Bit.Valid.mov_c_bitaddr-IsValid hooks ok c h
  exec-IsValid Op.inc_dptr c h = Alu.Valid.inc_dptr-IsValid c h
  exec-IsValid Op.mul_ab c h = Alu.Valid.mul_ab-IsValid c h
  exec-IsValid Op.mov_indir_rx_mem c h = Move.Valid.mov_indir_rx_mem-IsValid hooks ok c h
  exec-IsValid Op.anl_c_compl_bitaddr c h = Bit.Valid.anl_c_compl_bitaddr-IsValid hooks ok c h
  exec-IsValid Op.cpl_bitaddr c h = Bit.Valid.cpl_bitaddr-IsValid hooks ok c h
  exec-IsValid Op.cpl_c c h = Bit.Valid.cpl_c-IsValid c h
  exec-IsValid Op.cjne_a_imm_offset c h = Jump.Valid.cjne_a_imm_offset-IsValid c h
  exec-IsValid Op.cjne_a_mem_offset c h = Jump.Valid.cjne_a_mem_offset-IsValid hooks ok c h
  exec-IsValid Op.cjne_indir_rx_imm_offset c h = Jump.Valid.cjne_indir_rx_imm_offset-IsValid c h
  exec-IsValid Op.push_mem c h = Move.Valid.push_mem-IsValid hooks ok c h
  exec-IsValid Op.clr_bitaddr c h = Bit.Valid.clr_bitaddr-IsValid hooks ok c h
  exec-IsValid Op.clr_c c h = Bit.Valid.clr_c-IsValid c h
  exec-IsValid Op.swap_a c h = Logic.Valid.swap_a-IsValid c h
  exec-IsValid Op.xch_a_mem c h = Move.Valid.xch_a_mem-IsValid hooks ok c h
  exec-IsValid Op.xch_a_indir_rx c h = Move.Valid.xch_a_indir_rx-IsValid c h
  exec-IsValid Op.pop_mem c h = Move.Valid.pop_mem-IsValid hooks ok c h
  exec-IsValid Op.setb_bitaddr c h = Bit.Valid.setb_bitaddr-IsValid hooks ok c h
  exec-IsValid Op.setb_c c h = Bit.Valid.setb_c-IsValid c h
  exec-IsValid Op.da_a c h = Alu.Valid.da_a-IsValid c h
  exec-IsValid Op.djnz_mem_offset c h = Jump.Valid.djnz_mem_offset-IsValid hooks ok c h
  exec-IsValid Op.xchd_a_indir_rx c h = Move.Valid.xchd_a_indir_rx-IsValid c h
  exec-IsValid Op.movx_a_indir_dptr c h = Move.Valid.movx_a_indir_dptr-IsValid hooks ok c h
  exec-IsValid Op.movx_a_indir_rx c h = Move.Valid.movx_a_indir_rx-IsValid hooks ok c h
  exec-IsValid Op.clr_a c h = Logic.Valid.clr_a-IsValid c h
  exec-IsValid Op.mov_a_mem c h = Move.Valid.mov_a_mem-IsValid hooks ok c h
  exec-IsValid Op.mov_a_indir_rx c h = Move.Valid.mov_a_indir_rx-IsValid c h
  exec-IsValid Op.movx_indir_dptr_a c h = Move.Valid.movx_indir_dptr_a-IsValid hooks ok c h
  exec-IsValid Op.movx_indir_rx_a c h = Move.Valid.movx_indir_rx_a-IsValid hooks ok c h
  exec-IsValid Op.cpl_a c h = Logic.Valid.cpl_a-IsValid c h
  exec-IsValid Op.mov_mem_a c h = Move.Valid.mov_mem_a-IsValid hooks ok c h
  exec-IsValid Op.mov_indir_rx_a c h = Move.Valid.mov_indir_rx_a-IsValid c h
