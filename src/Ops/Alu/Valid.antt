-- ===== src/Ops/Alu/Valid.antt =====
-- The arithmetic handlers keep every field in its width.
use emu8051_stc.Cpu.{Cpu, Hooks}
use emu8051_stc.Cpu.Valid.{IsValid}
use emu8051_stc.Mem.Valid.{AreValid, valid_rules}
use emu8051_stc.Flags.Laws.{add_solve_flags-IsValid, sub_solve_flags-IsValid}
use emu8051_stc.Ops.Alu.{
  inc_rx, dec_rx, add_a_rx, addc_a_rx, subb_a_rx, inc_a, inc_mem, inc_indir_rx, dec_a, dec_mem,
  dec_indir_rx, add_a_imm, add_a_mem, add_a_indir_rx, addc_a_imm, addc_a_mem, addc_a_indir_rx,
  div_ab, subb_a_imm, subb_a_mem, subb_a_indir_rx, inc_dptr, mul_ab, da_a,
}

ruleset rules = (valid_rules, add_solve_flags-IsValid, sub_solve_flags-IsValid)

module _ {E : Type 0} (c : Cpu E) (h : IsValid c) where
  pub inc_rx-IsValid : IsValid (inc_rx c).1
  unfolding inc_rx
  inc_rx-IsValid = search rules

  pub dec_rx-IsValid : IsValid (dec_rx c).1
  unfolding dec_rx
  dec_rx-IsValid = search rules

  pub add_a_rx-IsValid : IsValid (add_a_rx c).1
  unfolding add_a_rx
  add_a_rx-IsValid = search rules

  pub addc_a_rx-IsValid : IsValid (addc_a_rx c).1
  unfolding addc_a_rx
  addc_a_rx-IsValid = search rules

  pub subb_a_rx-IsValid : IsValid (subb_a_rx c).1
  unfolding subb_a_rx
  subb_a_rx-IsValid = search rules

  pub inc_a-IsValid : IsValid (inc_a c).1
  unfolding inc_a
  inc_a-IsValid = search rules

  pub inc_indir_rx-IsValid : IsValid (inc_indir_rx c).1
  unfolding inc_indir_rx
  inc_indir_rx-IsValid = search rules

  pub dec_a-IsValid : IsValid (dec_a c).1
  unfolding dec_a
  dec_a-IsValid = search rules

  pub dec_indir_rx-IsValid : IsValid (dec_indir_rx c).1
  unfolding dec_indir_rx
  dec_indir_rx-IsValid = search rules

  pub add_a_imm-IsValid : IsValid (add_a_imm c).1
  unfolding add_a_imm
  add_a_imm-IsValid = search rules

  pub add_a_indir_rx-IsValid : IsValid (add_a_indir_rx c).1
  unfolding add_a_indir_rx
  add_a_indir_rx-IsValid = search rules

  pub addc_a_imm-IsValid : IsValid (addc_a_imm c).1
  unfolding addc_a_imm
  addc_a_imm-IsValid = search rules

  pub addc_a_indir_rx-IsValid : IsValid (addc_a_indir_rx c).1
  unfolding addc_a_indir_rx
  addc_a_indir_rx-IsValid = search rules

  pub div_ab-IsValid : IsValid (div_ab c).1
  unfolding div_ab
  div_ab-IsValid = search rules depth 9

  pub subb_a_imm-IsValid : IsValid (subb_a_imm c).1
  unfolding subb_a_imm
  subb_a_imm-IsValid = search rules

  pub subb_a_indir_rx-IsValid : IsValid (subb_a_indir_rx c).1
  unfolding subb_a_indir_rx
  subb_a_indir_rx-IsValid = search rules

  pub inc_dptr-IsValid : IsValid (inc_dptr c).1
  unfolding inc_dptr
  inc_dptr-IsValid = search rules

  pub mul_ab-IsValid : IsValid (mul_ab c).1
  unfolding mul_ab
  mul_ab-IsValid = search rules depth 9

  pub da_a-IsValid : IsValid (da_a c).1
  unfolding da_a
  da_a-IsValid = search rules

module _ {E : Type 0} (hooks : Hooks E) (ok : AreValid hooks) (c : Cpu E) (h : IsValid c) where
  pub inc_mem-IsValid : IsValid (inc_mem hooks c).1
  unfolding inc_mem
  inc_mem-IsValid = search rules

  pub dec_mem-IsValid : IsValid (dec_mem hooks c).1
  unfolding dec_mem
  dec_mem-IsValid = search rules

  pub add_a_mem-IsValid : IsValid (add_a_mem hooks c).1
  unfolding add_a_mem
  add_a_mem-IsValid = search rules

  pub addc_a_mem-IsValid : IsValid (addc_a_mem hooks c).1
  unfolding addc_a_mem
  addc_a_mem-IsValid = search rules

  pub subb_a_mem-IsValid : IsValid (subb_a_mem hooks c).1
  unfolding subb_a_mem
  subb_a_mem-IsValid = search rules
