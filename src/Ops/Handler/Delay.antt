-- ===== src/Ops/Handler/Delay.antt =====
-- Every handler asks for 0, 2 or 4 ticks.
use emu8051_stc.Prelude.{ℕ, ◌≡◌, refl, ◌⊎◌, inl, inr}
use emu8051_stc.Cpu.{Cpu, Hooks}
use emu8051_stc.Ops.Handler.{Op, exec}
use emu8051_stc.Ops.Alu
use emu8051_stc.Ops.Logic
use emu8051_stc.Ops.Jump
use emu8051_stc.Ops.Bit
use emu8051_stc.Ops.Move

-- The ticks of one, two and four machine cycles.
abbrev pub IsDelay : ℕ → Type 0
IsDelay n = (n ≡ 0) ⊎ (n ≡ 2) ⊎ (n ≡ 4)

module _ {E : Type 0} (hooks : Hooks E) where
  -- Whatever the machine, a handler asks for 0, 2 or 4 ticks.
  pub exec-IsDelay : (o : Op) (c : Cpu E) → IsDelay (exec hooks o c).0
  unfolding exec Alu.inc_rx Alu.dec_rx Alu.add_a_rx Alu.addc_a_rx Logic.orl_a_rx Logic.anl_a_rx
      Logic.xrl_a_rx Move.mov_rx_imm Move.mov_mem_rx Alu.subb_a_rx Move.mov_rx_mem
      Jump.cjne_rx_imm_offset Move.xch_a_rx Jump.djnz_rx_offset Move.mov_a_rx Move.mov_rx_a Move.nop
      Jump.ajmp_offset Jump.ljmp_address Logic.rr_a Alu.inc_a Alu.inc_mem Alu.inc_indir_rx
      Bit.jbc_bitaddr_offset Jump.acall_offset Jump.lcall_address Logic.rrc_a Alu.dec_a Alu.dec_mem
      Alu.dec_indir_rx Bit.jb_bitaddr_offset Jump.ret Logic.rl_a Alu.add_a_imm Alu.add_a_mem
      Alu.add_a_indir_rx Bit.jnb_bitaddr_offset Jump.reti Logic.rlc_a Alu.addc_a_imm Alu.addc_a_mem
      Alu.addc_a_indir_rx Jump.jc_offset Logic.orl_mem_a Logic.orl_mem_imm Logic.orl_a_imm
      Logic.orl_a_mem Logic.orl_a_indir_rx Jump.jnc_offset Logic.anl_mem_a Logic.anl_mem_imm
      Logic.anl_a_imm Logic.anl_a_mem Logic.anl_a_indir_rx Jump.jz_offset Logic.xrl_mem_a
      Logic.xrl_mem_imm Logic.xrl_a_imm Logic.xrl_a_mem Logic.xrl_a_indir_rx Jump.jnz_offset
      Bit.orl_c_bitaddr Jump.jmp_indir_a_dptr Move.mov_a_imm Move.mov_mem_imm Move.mov_indir_rx_imm
      Jump.sjmp_offset Bit.anl_c_bitaddr Move.movc_a_indir_a_pc Alu.div_ab Move.mov_mem_mem
      Move.mov_mem_indir_rx Move.mov_dptr_imm Bit.mov_bitaddr_c Move.movc_a_indir_a_dptr
      Alu.subb_a_imm Alu.subb_a_mem Alu.subb_a_indir_rx Bit.orl_c_compl_bitaddr Bit.mov_c_bitaddr
      Alu.inc_dptr Alu.mul_ab Move.mov_indir_rx_mem Bit.anl_c_compl_bitaddr Bit.cpl_bitaddr
      Bit.cpl_c Jump.cjne_a_imm_offset Jump.cjne_a_mem_offset Jump.cjne_indir_rx_imm_offset
      Move.push_mem Bit.clr_bitaddr Bit.clr_c Logic.swap_a Move.xch_a_mem Move.xch_a_indir_rx
      Move.pop_mem Bit.setb_bitaddr Bit.setb_c Alu.da_a Jump.djnz_mem_offset Move.xchd_a_indir_rx
      Move.movx_a_indir_dptr Move.movx_a_indir_rx Logic.clr_a Move.mov_a_mem Move.mov_a_indir_rx
      Move.movx_indir_dptr_a Move.movx_indir_rx_a Logic.cpl_a Move.mov_mem_a Move.mov_indir_rx_a
  exec-IsDelay Op.inc_rx c = inl refl
  exec-IsDelay Op.dec_rx c = inl refl
  exec-IsDelay Op.add_a_rx c = inl refl
  exec-IsDelay Op.addc_a_rx c = inl refl
  exec-IsDelay Op.orl_a_rx c = inl refl
  exec-IsDelay Op.anl_a_rx c = inl refl
  exec-IsDelay Op.xrl_a_rx c = inl refl
  exec-IsDelay Op.mov_rx_imm c = inl refl
  exec-IsDelay Op.mov_mem_rx c = inr (inl refl)
  exec-IsDelay Op.subb_a_rx c = inl refl
  exec-IsDelay Op.mov_rx_mem c = inr (inl refl)
  exec-IsDelay Op.cjne_rx_imm_offset c = inr (inl refl)
  exec-IsDelay Op.xch_a_rx c = inl refl
  exec-IsDelay Op.djnz_rx_offset c = inr (inl refl)
  exec-IsDelay Op.mov_a_rx c = inl refl
  exec-IsDelay Op.mov_rx_a c = inl refl
  exec-IsDelay Op.nop c = inl refl
  exec-IsDelay Op.ajmp_offset c = inr (inl refl)
  exec-IsDelay Op.ljmp_address c = inr (inl refl)
  exec-IsDelay Op.rr_a c = inl refl
  exec-IsDelay Op.inc_a c = inl refl
  exec-IsDelay Op.inc_mem c = inr (inl refl)
  exec-IsDelay Op.inc_indir_rx c = inl refl
  exec-IsDelay Op.jbc_bitaddr_offset c = inr (inl refl)
  exec-IsDelay Op.acall_offset c = inr (inl refl)
  exec-IsDelay Op.lcall_address c = inr (inl refl)
  exec-IsDelay Op.rrc_a c = inl refl
  exec-IsDelay Op.dec_a c = inl refl
  exec-IsDelay Op.dec_mem c = inr (inl refl)
  exec-IsDelay Op.dec_indir_rx c = inl refl
  exec-IsDelay Op.jb_bitaddr_offset c = inr (inl refl)
  exec-IsDelay Op.ret c = inr (inl refl)
  exec-IsDelay Op.rl_a c = inl refl
  exec-IsDelay Op.add_a_imm c = inl refl
  exec-IsDelay Op.add_a_mem c = inr (inl refl)
  exec-IsDelay Op.add_a_indir_rx c = inl refl
  exec-IsDelay Op.jnb_bitaddr_offset c = inr (inl refl)
  exec-IsDelay Op.reti c = inr (inl refl)
  exec-IsDelay Op.rlc_a c = inl refl
  exec-IsDelay Op.addc_a_imm c = inl refl
  exec-IsDelay Op.addc_a_mem c = inr (inl refl)
  exec-IsDelay Op.addc_a_indir_rx c = inl refl
  exec-IsDelay Op.jc_offset c = inr (inl refl)
  exec-IsDelay Op.orl_mem_a c = inr (inl refl)
  exec-IsDelay Op.orl_mem_imm c = inr (inl refl)
  exec-IsDelay Op.orl_a_imm c = inl refl
  exec-IsDelay Op.orl_a_mem c = inr (inl refl)
  exec-IsDelay Op.orl_a_indir_rx c = inl refl
  exec-IsDelay Op.jnc_offset c = inr (inl refl)
  exec-IsDelay Op.anl_mem_a c = inr (inl refl)
  exec-IsDelay Op.anl_mem_imm c = inr (inl refl)
  exec-IsDelay Op.anl_a_imm c = inl refl
  exec-IsDelay Op.anl_a_mem c = inr (inl refl)
  exec-IsDelay Op.anl_a_indir_rx c = inl refl
  exec-IsDelay Op.jz_offset c = inr (inl refl)
  exec-IsDelay Op.xrl_mem_a c = inr (inl refl)
  exec-IsDelay Op.xrl_mem_imm c = inr (inl refl)
  exec-IsDelay Op.xrl_a_imm c = inl refl
  exec-IsDelay Op.xrl_a_mem c = inr (inl refl)
  exec-IsDelay Op.xrl_a_indir_rx c = inl refl
  exec-IsDelay Op.jnz_offset c = inr (inl refl)
  exec-IsDelay Op.orl_c_bitaddr c = inr (inl refl)
  exec-IsDelay Op.jmp_indir_a_dptr c = inr (inl refl)
  exec-IsDelay Op.mov_a_imm c = inl refl
  exec-IsDelay Op.mov_mem_imm c = inr (inl refl)
  exec-IsDelay Op.mov_indir_rx_imm c = inl refl
  exec-IsDelay Op.sjmp_offset c = inr (inl refl)
  exec-IsDelay Op.anl_c_bitaddr c = inr (inl refl)
  exec-IsDelay Op.movc_a_indir_a_pc c = inr (inl refl)
  exec-IsDelay Op.div_ab c = inr (inr refl)
  exec-IsDelay Op.mov_mem_mem c = inr (inl refl)
  exec-IsDelay Op.mov_mem_indir_rx c = inr (inl refl)
  exec-IsDelay Op.mov_dptr_imm c = inr (inl refl)
  exec-IsDelay Op.mov_bitaddr_c c = inr (inl refl)
  exec-IsDelay Op.movc_a_indir_a_dptr c = inr (inl refl)
  exec-IsDelay Op.subb_a_imm c = inl refl
  exec-IsDelay Op.subb_a_mem c = inr (inl refl)
  exec-IsDelay Op.subb_a_indir_rx c = inl refl
  exec-IsDelay Op.orl_c_compl_bitaddr c = inr (inl refl)
  exec-IsDelay Op.mov_c_bitaddr c = inl refl
  exec-IsDelay Op.inc_dptr c = inr (inl refl)
  exec-IsDelay Op.mul_ab c = inr (inr refl)
  exec-IsDelay Op.mov_indir_rx_mem c = inr (inl refl)
  exec-IsDelay Op.anl_c_compl_bitaddr c = inr (inl refl)
  exec-IsDelay Op.cpl_bitaddr c = inl refl
  exec-IsDelay Op.cpl_c c = inl refl
  exec-IsDelay Op.cjne_a_imm_offset c = inr (inl refl)
  exec-IsDelay Op.cjne_a_mem_offset c = inr (inl refl)
  exec-IsDelay Op.cjne_indir_rx_imm_offset c = inr (inl refl)
  exec-IsDelay Op.push_mem c = inr (inl refl)
  exec-IsDelay Op.clr_bitaddr c = inl refl
  exec-IsDelay Op.clr_c c = inl refl
  exec-IsDelay Op.swap_a c = inl refl
  exec-IsDelay Op.xch_a_mem c = inr (inl refl)
  exec-IsDelay Op.xch_a_indir_rx c = inl refl
  exec-IsDelay Op.pop_mem c = inr (inl refl)
  exec-IsDelay Op.setb_bitaddr c = inl refl
  exec-IsDelay Op.setb_c c = inl refl
  exec-IsDelay Op.da_a c = inl refl
  exec-IsDelay Op.djnz_mem_offset c = inr (inl refl)
  exec-IsDelay Op.xchd_a_indir_rx c = inl refl
  exec-IsDelay Op.movx_a_indir_dptr c = inr (inl refl)
  exec-IsDelay Op.movx_a_indir_rx c = inr (inl refl)
  exec-IsDelay Op.clr_a c = inl refl
  exec-IsDelay Op.mov_a_mem c = inl refl
  exec-IsDelay Op.mov_a_indir_rx c = inl refl
  exec-IsDelay Op.movx_indir_dptr_a c = inr (inl refl)
  exec-IsDelay Op.movx_indir_rx_a c = inr (inl refl)
  exec-IsDelay Op.cpl_a c = inl refl
  exec-IsDelay Op.mov_mem_a c = inl refl
  exec-IsDelay Op.mov_indir_rx_a c = inl refl
