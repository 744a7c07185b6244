-- ===== src/Ops/Bit/Valid.antt =====
-- The single-bit handlers keep every field in its width.
use emu8051_stc.Prelude.{ℕ, ltb, Bool-cases, inl, inr}
use emu8051_stc.Cpu.{Cpu, Hooks}
use emu8051_stc.Cpu.Valid.{IsValid, set_sfr-IsValid, set_lower-IsValid}
use emu8051_stc.Mem.Valid.{
  AreValid, valid_rules, if-IsValid, set_psw-IsValid, branch-IsValid, sfr_written-IsValid,
  read_sfr-IsValid,
}
use emu8051_stc.Ops.Bit.{
  jbc_bitaddr_offset, jb_bitaddr_offset, jnb_bitaddr_offset, orl_c_bitaddr, anl_c_bitaddr,
  mov_bitaddr_c, orl_c_compl_bitaddr, mov_c_bitaddr, anl_c_compl_bitaddr, cpl_bitaddr, cpl_c,
  clr_bitaddr, clr_c, setb_bitaddr, setb_c, put_carry, read_bit, change_byte, jbc_sfr, jbc_lower,
}

put_carry-IsValid : {E : Type 0} {c : Cpu E} → IsValid c → (v : ℕ) → IsValid (put_carry c v)
unfolding put_carry
put_carry-IsValid h v = set_psw-IsValid h _

module _ {E : Type 0} {hooks : Hooks E} (ok : AreValid hooks) {c : Cpu E} (h : IsValid c) where
  read_bit-IsValid : (address : ℕ) → IsValid (read_bit hooks c address).1
  unfolding read_bit
  read_bit-IsValid address = elim (Bool-cases (ltb 0x7f address)) [
    | inl e ↦ rw e ((read_sfr-IsValid ok h _).1)
    | inr e ↦ rw e h
  ]

  change_byte-IsValid : (address : ℕ) (f : ℕ → ℕ) → IsValid (change_byte hooks c address f)
  unfolding change_byte
  change_byte-IsValid address f = search valid_rules

  jbc_sfr-IsValid : (address : ℕ) → IsValid (jbc_sfr hooks c address)
  unfolding jbc_sfr
  jbc_sfr-IsValid address =
      let jumped = branch-IsValid (if-IsValid _ _ _ (set_sfr-IsValid h _ _) h) _ _ _ in
      if-IsValid _ _ _ (sfr_written-IsValid ok jumped _) jumped

  jbc_lower-IsValid : (address : ℕ) → IsValid (jbc_lower hooks c address)
  unfolding jbc_lower
  jbc_lower-IsValid address = branch-IsValid (if-IsValid _ _ _ (set_lower-IsValid h _ _) h) _ _ _

ruleset rules = (
  valid_rules, put_carry-IsValid, read_bit-IsValid, change_byte-IsValid, jbc_sfr-IsValid,
  jbc_lower-IsValid,
)

module _ {E : Type 0} (c : Cpu E) (h : IsValid c) where
  pub cpl_c-IsValid : IsValid (cpl_c c).1
  unfolding cpl_c
  cpl_c-IsValid = search rules

  pub clr_c-IsValid : IsValid (clr_c c).1
  unfolding clr_c
  clr_c-IsValid = search rules

  pub setb_c-IsValid : IsValid (setb_c c).1
  unfolding setb_c
  setb_c-IsValid = search rules

module _ {E : Type 0} (hooks : Hooks E) (ok : AreValid hooks) (c : Cpu E) (h : IsValid c) where
  pub jbc_bitaddr_offset-IsValid : IsValid (jbc_bitaddr_offset hooks c).1
  unfolding jbc_bitaddr_offset
  jbc_bitaddr_offset-IsValid = search rules

  pub jb_bitaddr_offset-IsValid : IsValid (jb_bitaddr_offset hooks c).1
  unfolding jb_bitaddr_offset
  jb_bitaddr_offset-IsValid = search rules

  pub jnb_bitaddr_offset-IsValid : IsValid (jnb_bitaddr_offset hooks c).1
  unfolding jnb_bitaddr_offset
  jnb_bitaddr_offset-IsValid = search rules

  pub orl_c_bitaddr-IsValid : IsValid (orl_c_bitaddr hooks c).1
  unfolding orl_c_bitaddr
  orl_c_bitaddr-IsValid = search rules

  pub anl_c_bitaddr-IsValid : IsValid (anl_c_bitaddr hooks c).1
  unfolding anl_c_bitaddr
  anl_c_bitaddr-IsValid = search rules

  pub mov_bitaddr_c-IsValid : IsValid (mov_bitaddr_c hooks c).1
  unfolding mov_bitaddr_c
  mov_bitaddr_c-IsValid = search rules

  pub orl_c_compl_bitaddr-IsValid : IsValid (orl_c_compl_bitaddr hooks c).1
  unfolding orl_c_compl_bitaddr
  orl_c_compl_bitaddr-IsValid = search rules

  pub mov_c_bitaddr-IsValid : IsValid (mov_c_bitaddr hooks c).1
  unfolding mov_c_bitaddr
  mov_c_bitaddr-IsValid = search rules

  pub anl_c_compl_bitaddr-IsValid : IsValid (anl_c_compl_bitaddr hooks c).1
  unfolding anl_c_compl_bitaddr
  anl_c_compl_bitaddr-IsValid = search rules

  pub cpl_bitaddr-IsValid : IsValid (cpl_bitaddr hooks c).1
  unfolding cpl_bitaddr
  cpl_bitaddr-IsValid = search rules

  pub clr_bitaddr-IsValid : IsValid (clr_bitaddr hooks c).1
  unfolding clr_bitaddr
  clr_bitaddr-IsValid = search rules

  pub setb_bitaddr-IsValid : IsValid (setb_bitaddr hooks c).1
  unfolding setb_bitaddr
  setb_bitaddr-IsValid = search rules
