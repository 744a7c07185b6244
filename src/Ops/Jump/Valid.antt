-- ===== src/Ops/Jump/Valid.antt =====
-- The jump and call handlers keep every field in its width.
use emu8051_stc.Prelude.{ℕ, ◌<◌, ◌≡◌, refl, arith, ltb, Bool, true, Option, none, some}
use emu8051_stc.Prelude.Bits.{passes_below, passes_below_lem}
use emu8051_stc.Cpu.Valid.{set_interrupt_active-IsValid}
use emu8051_stc.Cpu.{Cpu, Hooks}
use emu8051_stc.Cpu.Valid.{IsValid, set_pc-IsValid}
use emu8051_stc.Mem.Valid.{
  AreValid, valid_rules, if-IsValid, set_psw-IsValid, branch-IsValid, raise-IsValid,
  pop_from_stack-IsValid,
}
use emu8051_stc.Ops.Jump.{
  cjne_rx_imm_offset, djnz_rx_offset, ajmp_offset, ljmp_address, acall_offset, lcall_address, ret,
  reti, jc_offset, jnc_offset, jz_offset, jnz_offset, jmp_indir_a_dptr, sjmp_offset,
  cjne_a_imm_offset, cjne_a_mem_offset, cjne_indir_rx_imm_offset, djnz_mem_offset, compare_branch,
  pop_pc, iret_check, raise_unless, active_left,
}

compare_branch-IsValid :
    {E : Type 0} {c : Cpu E} → IsValid c → (a b : ℕ) → IsValid (compare_branch c a b)
unfolding compare_branch
compare_branch-IsValid h a b = branch-IsValid (set_psw-IsValid h _) _ _ _

module _ {E : Type 0} {hooks : Hooks E} (ok : AreValid hooks) {c : Cpu E} (h : IsValid c) where
  pub pop_pc-IsValid : IsValid (pop_pc hooks c)
  unfolding pop_pc
  pop_pc-IsValid =
      set_pc-IsValid (pop_from_stack-IsValid ok (set_pc-IsValid (pop_from_stack-IsValid ok h) _)) _

module _ {E : Type 0} {hooks : Hooks E} (ok : AreValid hooks) {c : Cpu E} (h : IsValid c) where
  raise_unless-IsValid : (b : Bool) (code : ℕ) → IsValid (raise_unless hooks b c code)
  unfolding raise_unless
  raise_unless-IsValid b code = if-IsValid b _ _ h (raise-IsValid ok h code)

module _ {E : Type 0} {hooks : Hooks E} (ok : AreValid hooks) {c : Cpu E} (h : IsValid c) where
  pub iret_check-IsValid : IsValid (iret_check hooks c)
  unfolding iret_check
  iret_check-IsValid = search raise_unless-IsValid

active_table : passes_below 4 (λ a. ltb (active_left a) 4) ≡ true
unfolding passes_below active_left
active_table = refl

pub active_left-lt : (a : ℕ) → a < 4 → active_left a < 4
active_left-lt a lt =
    let h = passes_below_lem 4 (λ x. ltb (active_left x) 4) a active_table lt in ground arith

checked_reti-IsValid :
    {E : Type 0} (hooks : Hooks E) (ok : AreValid hooks) (c : Cpu E)
    → IsValid c
    → (o : Option (Cpu E → ℕ → Cpu E)) → IsValid (elim o [ none ↦ c | some _ ↦ iret_check hooks c ])
checked_reti-IsValid hooks ok c h none = h
checked_reti-IsValid hooks ok c h (some f) = iret_check-IsValid ok h

ruleset rules = (valid_rules, compare_branch-IsValid, pop_pc-IsValid)

module _ {E : Type 0} (c : Cpu E) (h : IsValid c) where
  pub cjne_rx_imm_offset-IsValid : IsValid (cjne_rx_imm_offset c).1
  unfolding cjne_rx_imm_offset
  cjne_rx_imm_offset-IsValid = search rules

  pub djnz_rx_offset-IsValid : IsValid (djnz_rx_offset c).1
  unfolding djnz_rx_offset
  djnz_rx_offset-IsValid = search rules

  pub ajmp_offset-IsValid : IsValid (ajmp_offset c).1
  unfolding ajmp_offset
  ajmp_offset-IsValid = search rules

  pub ljmp_address-IsValid : IsValid (ljmp_address c).1
  unfolding ljmp_address
  ljmp_address-IsValid = search rules

  pub jc_offset-IsValid : IsValid (jc_offset c).1
  unfolding jc_offset
  jc_offset-IsValid = search rules

  pub jnc_offset-IsValid : IsValid (jnc_offset c).1
  unfolding jnc_offset
  jnc_offset-IsValid = search rules

  pub jz_offset-IsValid : IsValid (jz_offset c).1
  unfolding jz_offset
  jz_offset-IsValid = search rules

  pub jnz_offset-IsValid : IsValid (jnz_offset c).1
  unfolding jnz_offset
  jnz_offset-IsValid = search rules

  pub jmp_indir_a_dptr-IsValid : IsValid (jmp_indir_a_dptr c).1
  unfolding jmp_indir_a_dptr
  jmp_indir_a_dptr-IsValid = search rules

  pub sjmp_offset-IsValid : IsValid (sjmp_offset c).1
  unfolding sjmp_offset
  sjmp_offset-IsValid = search rules

  pub cjne_a_imm_offset-IsValid : IsValid (cjne_a_imm_offset c).1
  unfolding cjne_a_imm_offset
  cjne_a_imm_offset-IsValid = search rules

  pub cjne_indir_rx_imm_offset-IsValid : IsValid (cjne_indir_rx_imm_offset c).1
  unfolding cjne_indir_rx_imm_offset
  cjne_indir_rx_imm_offset-IsValid = search rules

module _ {E : Type 0} (hooks : Hooks E) (ok : AreValid hooks) (c : Cpu E) (h : IsValid c) where
  pub acall_offset-IsValid : IsValid (acall_offset hooks c).1
  unfolding acall_offset
  acall_offset-IsValid = search rules

  pub lcall_address-IsValid : IsValid (lcall_address hooks c).1
  unfolding lcall_address
  lcall_address-IsValid = search rules

  pub ret-IsValid : IsValid (ret hooks c).1
  unfolding ret
  ret-IsValid = search rules

  pub reti-IsValid : IsValid (reti hooks c).1
  unfolding reti
  reti-IsValid =
      let v1 = checked_reti-IsValid hooks ok c h hooks.except in
      pop_pc-IsValid ok
        (if-IsValid _ _ _ (set_interrupt_active-IsValid v1 _ (active_left-lt _ v1.active_lt)) h)

  pub cjne_a_mem_offset-IsValid : IsValid (cjne_a_mem_offset hooks c).1
  unfolding cjne_a_mem_offset
  cjne_a_mem_offset-IsValid = search rules

  pub djnz_mem_offset-IsValid : IsValid (djnz_mem_offset hooks c).1
  unfolding djnz_mem_offset
  djnz_mem_offset-IsValid = search rules
