-- ===== src/Ops/Handler.antt =====
-- opcodes.c: the handlers as values. A function pointer is a constructor of `Op`, and `exec` is
-- the call of it.
pub mod Valid
pub mod Delay
use emu8051_stc.Prelude.{ℕ}
use emu8051_stc.Cpu.{Cpu, Hooks}
use emu8051_stc.Ops.Alu
use emu8051_stc.Ops.Logic
use emu8051_stc.Ops.Jump
use emu8051_stc.Ops.Bit
use emu8051_stc.Ops.Move

pub data Op : Type 0 where
  inc_rx dec_rx add_a_rx addc_a_rx orl_a_rx anl_a_rx xrl_a_rx mov_rx_imm mov_mem_rx : Op
  subb_a_rx mov_rx_mem cjne_rx_imm_offset xch_a_rx djnz_rx_offset mov_a_rx mov_rx_a nop : Op
  ajmp_offset ljmp_address rr_a inc_a inc_mem inc_indir_rx jbc_bitaddr_offset acall_offset : Op
  lcall_address rrc_a dec_a dec_mem dec_indir_rx jb_bitaddr_offset ret rl_a add_a_imm : Op
  add_a_mem add_a_indir_rx jnb_bitaddr_offset reti rlc_a addc_a_imm addc_a_mem : Op
  addc_a_indir_rx jc_offset orl_mem_a orl_mem_imm orl_a_imm orl_a_mem orl_a_indir_rx : Op
  jnc_offset anl_mem_a anl_mem_imm anl_a_imm anl_a_mem anl_a_indir_rx jz_offset xrl_mem_a : Op
  xrl_mem_imm xrl_a_imm xrl_a_mem xrl_a_indir_rx jnz_offset orl_c_bitaddr jmp_indir_a_dptr : Op
  mov_a_imm mov_mem_imm mov_indir_rx_imm sjmp_offset anl_c_bitaddr movc_a_indir_a_pc div_ab : Op
  mov_mem_mem mov_mem_indir_rx mov_dptr_imm mov_bitaddr_c movc_a_indir_a_dptr subb_a_imm : Op
  subb_a_mem subb_a_indir_rx orl_c_compl_bitaddr mov_c_bitaddr inc_dptr mul_ab : Op
  mov_indir_rx_mem anl_c_compl_bitaddr cpl_bitaddr cpl_c cjne_a_imm_offset : Op
  cjne_a_mem_offset cjne_indir_rx_imm_offset push_mem clr_bitaddr clr_c swap_a xch_a_mem : Op
  xch_a_indir_rx pop_mem setb_bitaddr setb_c da_a djnz_mem_offset xchd_a_indir_rx : Op
  movx_a_indir_dptr movx_a_indir_rx clr_a mov_a_mem mov_a_indir_rx movx_indir_dptr_a : Op
  movx_indir_rx_a cpl_a mov_mem_a mov_indir_rx_a : Op

module _ {E : Type 0} (hooks : Hooks E) where
  unfoldable pub exec : Op → Cpu E → ℕ × Cpu E
  exec Op.inc_rx c = Alu.inc_rx c
  exec Op.dec_rx c = Alu.dec_rx c
  exec Op.add_a_rx c = Alu.add_a_rx c
  exec Op.addc_a_rx c = Alu.addc_a_rx c
  exec Op.orl_a_rx c = Logic.orl_a_rx c
  exec Op.anl_a_rx c = Logic.anl_a_rx c
  exec Op.xrl_a_rx c = Logic.xrl_a_rx c
  exec Op.mov_rx_imm c = Move.mov_rx_imm c
  exec Op.mov_mem_rx c = Move.mov_mem_rx hooks c
  exec Op.subb_a_rx c = Alu.subb_a_rx c
  exec Op.mov_rx_mem c = Move.mov_rx_mem hooks c
  exec Op.cjne_rx_imm_offset c = Jump.cjne_rx_imm_offset c
  exec Op.xch_a_rx c = Move.xch_a_rx c
  exec Op.djnz_rx_offset c = Jump.djnz_rx_offset c
  exec Op.mov_a_rx c = Move.mov_a_rx c
  exec Op.mov_rx_a c = Move.mov_rx_a c
  exec Op.nop c = Move.nop hooks c
  exec Op.ajmp_offset c = Jump.ajmp_offset c
  exec Op.ljmp_address c = Jump.ljmp_address c
  exec Op.rr_a c = Logic.rr_a c
  exec Op.inc_a c = Alu.inc_a c
  exec Op.inc_mem c = Alu.inc_mem hooks c
  exec Op.inc_indir_rx c = Alu.inc_indir_rx c
  exec Op.jbc_bitaddr_offset c = Bit.jbc_bitaddr_offset hooks c
  exec Op.acall_offset c = Jump.acall_offset hooks c
  exec Op.lcall_address c = Jump.lcall_address hooks c
  exec Op.rrc_a c = Logic.rrc_a c
  exec Op.dec_a c = Alu.dec_a c
  exec Op.dec_mem c = Alu.dec_mem hooks c
  exec Op.dec_indir_rx c = Alu.dec_indir_rx c
  exec Op.jb_bitaddr_offset c = Bit.jb_bitaddr_offset hooks c
  exec Op.ret c = Jump.ret hooks c
  exec Op.rl_a c = Logic.rl_a c
  exec Op.add_a_imm c = Alu.add_a_imm c
  exec Op.add_a_mem c = Alu.add_a_mem hooks c
  exec Op.add_a_indir_rx c = Alu.add_a_indir_rx c
  exec Op.jnb_bitaddr_offset c = Bit.jnb_bitaddr_offset hooks c
  exec Op.reti c = Jump.reti hooks c
  exec Op.rlc_a c = Logic.rlc_a c
  exec Op.addc_a_imm c = Alu.addc_a_imm c
  exec Op.addc_a_mem c = Alu.addc_a_mem hooks c
  exec Op.addc_a_indir_rx c = Alu.addc_a_indir_rx c
  exec Op.jc_offset c = Jump.jc_offset c
  exec Op.orl_mem_a c = Logic.orl_mem_a hooks c
  exec Op.orl_mem_imm c = Logic.orl_mem_imm hooks c
  exec Op.orl_a_imm c = Logic.orl_a_imm c
  exec Op.orl_a_mem c = Logic.orl_a_mem hooks c
  exec Op.orl_a_indir_rx c = Logic.orl_a_indir_rx c
  exec Op.jnc_offset c = Jump.jnc_offset c
  exec Op.anl_mem_a c = Logic.anl_mem_a hooks c
  exec Op.anl_mem_imm c = Logic.anl_mem_imm hooks c
  exec Op.anl_a_imm c = Logic.anl_a_imm c
  exec Op.anl_a_mem c = Logic.anl_a_mem hooks c
  exec Op.anl_a_indir_rx c = Logic.anl_a_indir_rx c
  exec Op.jz_offset c = Jump.jz_offset c
  exec Op.xrl_mem_a c = Logic.xrl_mem_a hooks c
  exec Op.xrl_mem_imm c = Logic.xrl_mem_imm hooks c
  exec Op.xrl_a_imm c = Logic.xrl_a_imm c
  exec Op.xrl_a_mem c = Logic.xrl_a_mem hooks c
  exec Op.xrl_a_indir_rx c = Logic.xrl_a_indir_rx c
  exec Op.jnz_offset c = Jump.jnz_offset c
  exec Op.orl_c_bitaddr c = Bit.orl_c_bitaddr hooks c
  exec Op.jmp_indir_a_dptr c = Jump.jmp_indir_a_dptr c
  exec Op.mov_a_imm c = Move.mov_a_imm c
  exec Op.mov_mem_imm c = Move.mov_mem_imm hooks c
  exec Op.mov_indir_rx_imm c = Move.mov_indir_rx_imm c
  exec Op.sjmp_offset c = Jump.sjmp_offset c
  exec Op.anl_c_bitaddr c = Bit.anl_c_bitaddr hooks c
  exec Op.movc_a_indir_a_pc c = Move.movc_a_indir_a_pc c
  exec Op.div_ab c = Alu.div_ab c
  exec Op.mov_mem_mem c = Move.mov_mem_mem hooks c
  exec Op.mov_mem_indir_rx c = Move.mov_mem_indir_rx hooks c
  exec Op.mov_dptr_imm c = Move.mov_dptr_imm c
  exec Op.mov_bitaddr_c c = Bit.mov_bitaddr_c hooks c
  exec Op.movc_a_indir_a_dptr c = Move.movc_a_indir_a_dptr c
  exec Op.subb_a_imm c = Alu.subb_a_imm c
  exec Op.subb_a_mem c = Alu.subb_a_mem hooks c
  exec Op.subb_a_indir_rx c = Alu.subb_a_indir_rx c
  exec Op.orl_c_compl_bitaddr c = Bit.orl_c_compl_bitaddr hooks c
  exec Op.mov_c_bitaddr c = Bit.mov_c_bitaddr hooks c
  exec Op.inc_dptr c = Alu.inc_dptr c
  exec Op.mul_ab c = Alu.mul_ab c
  exec Op.mov_indir_rx_mem c = Move.mov_indir_rx_mem hooks c
  exec Op.anl_c_compl_bitaddr c = Bit.anl_c_compl_bitaddr hooks c
  exec Op.cpl_bitaddr c = Bit.cpl_bitaddr hooks c
  exec Op.cpl_c c = Bit.cpl_c c
  exec Op.cjne_a_imm_offset c = Jump.cjne_a_imm_offset c
  exec Op.cjne_a_mem_offset c = Jump.cjne_a_mem_offset hooks c
  exec Op.cjne_indir_rx_imm_offset c = Jump.cjne_indir_rx_imm_offset c
  exec Op.push_mem c = Move.push_mem hooks c
  exec Op.clr_bitaddr c = Bit.clr_bitaddr hooks c
  exec Op.clr_c c = Bit.clr_c c
  exec Op.swap_a c = Logic.swap_a c
  exec Op.xch_a_mem c = Move.xch_a_mem hooks c
  exec Op.xch_a_indir_rx c = Move.xch_a_indir_rx c
  exec Op.pop_mem c = Move.pop_mem hooks c
  exec Op.setb_bitaddr c = Bit.setb_bitaddr hooks c
  exec Op.setb_c c = Bit.setb_c c
  exec Op.da_a c = Alu.da_a c
  exec Op.djnz_mem_offset c = Jump.djnz_mem_offset hooks c
  exec Op.xchd_a_indir_rx c = Move.xchd_a_indir_rx c
  exec Op.movx_a_indir_dptr c = Move.movx_a_indir_dptr hooks c
  exec Op.movx_a_indir_rx c = Move.movx_a_indir_rx hooks c
  exec Op.clr_a c = Logic.clr_a c
  exec Op.mov_a_mem c = Move.mov_a_mem hooks c
  exec Op.mov_a_indir_rx c = Move.mov_a_indir_rx c
  exec Op.movx_indir_dptr_a c = Move.movx_indir_dptr_a hooks c
  exec Op.movx_indir_rx_a c = Move.movx_indir_rx_a hooks c
  exec Op.cpl_a c = Logic.cpl_a c
  exec Op.mov_mem_a c = Move.mov_mem_a hooks c
  exec Op.mov_indir_rx_a c = Move.mov_indir_rx_a c
