-- ===== src/Ops/Logic/Valid.antt =====
-- The bitwise handlers keep every field in its width.
use emu8051_stc.Prelude.{ℕ}
use emu8051_stc.Cpu.{Cpu, Hooks}
use emu8051_stc.Cpu.Valid.{IsValid}
use emu8051_stc.Mem.Valid.{AreValid, valid_rules}
use emu8051_stc.Ops.Logic.{
  orl_a_rx, anl_a_rx, xrl_a_rx, rr_a, rrc_a, rl_a, rlc_a, orl_mem_a, orl_mem_imm, orl_a_imm,
  orl_a_mem, orl_a_indir_rx, anl_mem_a, anl_mem_imm, anl_a_imm, anl_a_mem, anl_a_indir_rx,
  xrl_mem_a, xrl_mem_imm, xrl_a_imm, xrl_a_mem, xrl_a_indir_rx, swap_a, clr_a, cpl_a, latch_op,
}

latch_op-IsValid :
    {E : Type 0} {hooks : Hooks E} (ok : AreValid hooks) (op : ℕ → ℕ → ℕ) {c : Cpu E}
    → IsValid c
    → (address : ℕ) → IsValid (latch_op hooks op c address)
unfolding latch_op
latch_op-IsValid ok op h address = search valid_rules

ruleset rules = (valid_rules, latch_op-IsValid)

module _ {E : Type 0} (c : Cpu E) (h : IsValid c) where
  pub orl_a_rx-IsValid : IsValid (orl_a_rx c).1
  unfolding orl_a_rx
  orl_a_rx-IsValid = search rules

  pub anl_a_rx-IsValid : IsValid (anl_a_rx c).1
  unfolding anl_a_rx
  anl_a_rx-IsValid = search rules

  pub xrl_a_rx-IsValid : IsValid (xrl_a_rx c).1
  unfolding xrl_a_rx
  xrl_a_rx-IsValid = search rules

  pub rr_a-IsValid : IsValid (rr_a c).1
  unfolding rr_a
  rr_a-IsValid = search rules

  pub rrc_a-IsValid : IsValid (rrc_a c).1
  unfolding rrc_a
  rrc_a-IsValid = search rules

  pub rl_a-IsValid : IsValid (rl_a c).1
  unfolding rl_a
  rl_a-IsValid = search rules

  pub rlc_a-IsValid : IsValid (rlc_a c).1
  unfolding rlc_a
  rlc_a-IsValid = search rules

  pub orl_a_imm-IsValid : IsValid (orl_a_imm c).1
  unfolding orl_a_imm
  orl_a_imm-IsValid = search rules

  pub orl_a_indir_rx-IsValid : IsValid (orl_a_indir_rx c).1
  unfolding orl_a_indir_rx
  orl_a_indir_rx-IsValid = search rules

  pub anl_a_imm-IsValid : IsValid (anl_a_imm c).1
  unfolding anl_a_imm
  anl_a_imm-IsValid = search rules

  pub anl_a_indir_rx-IsValid : IsValid (anl_a_indir_rx c).1
  unfolding anl_a_indir_rx
  anl_a_indir_rx-IsValid = search rules

  pub xrl_a_imm-IsValid : IsValid (xrl_a_imm c).1
  unfolding xrl_a_imm
  xrl_a_imm-IsValid = search rules

  pub xrl_a_indir_rx-IsValid : IsValid (xrl_a_indir_rx c).1
  unfolding xrl_a_indir_rx
  xrl_a_indir_rx-IsValid = search rules

  pub swap_a-IsValid : IsValid (swap_a c).1
  unfolding swap_a
  swap_a-IsValid = search rules

  pub clr_a-IsValid : IsValid (clr_a c).1
  unfolding clr_a
  clr_a-IsValid = search rules

  pub cpl_a-IsValid : IsValid (cpl_a c).1
  unfolding cpl_a
  cpl_a-IsValid = search rules

module _ {E : Type 0} (hooks : Hooks E) (ok : AreValid hooks) (c : Cpu E) (h : IsValid c) where
  pub orl_mem_a-IsValid : IsValid (orl_mem_a hooks c).1
  unfolding orl_mem_a
  orl_mem_a-IsValid = search rules

  pub orl_mem_imm-IsValid : IsValid (orl_mem_imm hooks c).1
  unfolding orl_mem_imm
  orl_mem_imm-IsValid = search rules

  pub orl_a_mem-IsValid : IsValid (orl_a_mem hooks c).1
  unfolding orl_a_mem
  orl_a_mem-IsValid = search rules

  pub anl_mem_a-IsValid : IsValid (anl_mem_a hooks c).1
  unfolding anl_mem_a
  anl_mem_a-IsValid = search rules

  pub anl_mem_imm-IsValid : IsValid (anl_mem_imm hooks c).1
  unfolding anl_mem_imm
  anl_mem_imm-IsValid = search rules

  pub anl_a_mem-IsValid : IsValid (anl_a_mem hooks c).1
  unfolding anl_a_mem
  anl_a_mem-IsValid = search rules

  pub xrl_mem_a-IsValid : IsValid (xrl_mem_a hooks c).1
  unfolding xrl_mem_a
  xrl_mem_a-IsValid = search rules

  pub xrl_mem_imm-IsValid : IsValid (xrl_mem_imm hooks c).1
  unfolding xrl_mem_imm
  xrl_mem_imm-IsValid = search rules

  pub xrl_a_mem-IsValid : IsValid (xrl_a_mem hooks c).1
  unfolding xrl_a_mem
  xrl_a_mem-IsValid = search rules
