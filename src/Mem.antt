-- ===== src/Mem.antt =====
-- opcodes.c, its macros and the functions that read and write memory and the stack.
use emu8051_stc.Prelude.{
  ℕ, ◌+◌, ◌-◌, ◌*◌, ◌/◌, ◌%◌, bit_and, bit_or, ◌==◌, ltb, if◌then◌else◌, Bool, Option, none, some,
  signed_char,
}
use emu8051_stc.Cpu.{Cpu, Hooks, set_sfr, set_lower, set_upper, set_pc}
use emu8051_stc.Cpu.Regs.{
  reg_acc, reg_psw, reg_sp, reg_dpl, reg_dph, psw_c, psw_rs, exception_stack,
}
pub mod Valid
pub mod Stack

-- The macros.
abbrev pub bad_value : ℕ
bad_value = 0x77

module _ {E : Type 0} (c : Cpu E) where
  unfoldable pub psw : ℕ
  psw = c.sfr reg_psw

  unfoldable pub acc : ℕ
  acc = c.sfr reg_acc

  unfoldable pub dptr : ℕ
  dptr = bit_or (c.sfr reg_dph * 0x100) (c.sfr reg_dpl)

  unfoldable pub codemem : ℕ → ℕ
  codemem x = c.code_mem (bit_and x c.code_mem_max_idx)

  unfoldable pub opcode : ℕ
  opcode = codemem c.pc

  unfoldable pub operand1 : ℕ
  operand1 = codemem (c.pc + 1)

  unfoldable pub operand2 : ℕ
  operand2 = codemem (c.pc + 2)

  unfoldable pub psw_bank : ℕ
  psw_bank = bit_and psw psw_rs / 8

  unfoldable pub indir_rx_address : ℕ
  indir_rx_address = c.lower_data (bit_and opcode 1 + 8 * psw_bank)

  unfoldable pub rx_address : ℕ
  rx_address = bit_and opcode 7 + 8 * psw_bank

  unfoldable pub carry : ℕ
  carry = bit_and psw psw_c / 0x80

  -- Reading through an `@Ri` or a stack address: above 0x7f the upper memory, if there is one.
  unfoldable pub read_mem_indir : ℕ → ℕ
  read_mem_indir address =
      if ltb 0x7f address
      then elim c.upper_data [ none ↦ bad_value | some m ↦ m (address - 0x80) ]
      else c.lower_data address

-- `ACC = v` and `PSW = v`.
unfoldable pub set_acc : {E : Type 0} → Cpu E → ℕ → Cpu E
set_acc c v = set_sfr c reg_acc v

unfoldable pub set_psw : {E : Type 0} → Cpu E → ℕ → Cpu E
set_psw c v = set_sfr c reg_psw v

-- `PC += n`.
unfoldable pub add_pc : {E : Type 0} → Cpu E → ℕ → Cpu E
add_pc c n = set_pc c (c.pc + n)

unfoldable pub write_mem_indir : {E : Type 0} → Cpu E → ℕ → ℕ → Cpu E
write_mem_indir c address value =
    if ltb 0x7f address
    then elim c.upper_data [ none ↦ c | some _ ↦ set_upper c (address - 0x80) value ]
    else set_lower c address value

module _ {E : Type 0} (hooks : Hooks E) where
  -- `if (aCPU->except) aCPU->except(aCPU, code)`.
  unfoldable pub raise : Cpu E → ℕ → Cpu E
  raise c code = elim hooks.except [ none ↦ c | some f ↦ f c code ]

  -- A register above 0x7f, through its callback if it has one.
  unfoldable pub read_sfr : Cpu E → ℕ → ℕ × Cpu E
  read_sfr c address = elim (hooks.sfrread (address - 0x80)) [
    | none ↦ (c.sfr (address - 0x80), c)
    | some f ↦ f c address
  ]

  -- `if (aCPU->sfrwrite[address - 0x80]) …`, after a store.
  unfoldable pub sfr_written : Cpu E → ℕ → Cpu E
  sfr_written c address = elim (hooks.sfrwrite (address - 0x80)) [ none ↦ c | some f ↦ f c address ]

  unfoldable pub read_mem : Cpu E → ℕ → ℕ × Cpu E
  read_mem c address = if ltb 0x7f address then read_sfr c address else (c.lower_data address, c)

  unfoldable pub write_mem : Cpu E → ℕ → ℕ → Cpu E
  write_mem c address value =
      if ltb 0x7f address
      then sfr_written (set_sfr c (address - 0x80) value) address
      else set_lower c address value

  unfoldable pub push_to_stack : Cpu E → ℕ → Cpu E
  push_to_stack c value =
      let c1 = set_sfr c reg_sp (c.sfr reg_sp + 1) in
      let c2 = write_mem_indir c1 (c1.sfr reg_sp) value in
      if c2.sfr reg_sp == 0 then raise c2 exception_stack else c2

  unfoldable pub pop_from_stack : Cpu E → ℕ × Cpu E
  pop_from_stack c =
      let value = read_mem_indir c (c.sfr reg_sp) in
      let c1 = set_sfr c reg_sp (c.sfr reg_sp + 0x100 - 1) in
      (value, if c1.sfr reg_sp == 0xff then raise c1 exception_stack else c1)

-- A branch that is taken jumps relative to the instruction after this one, of `n` bytes.
unfoldable pub branch : {E : Type 0} → Cpu E → Bool → ℕ → ℕ → Cpu E
branch c taken offset n = add_pc c (if taken then signed_char offset + n else n)

-- Opens every store and every macro, for a proof that computes with them.
unfoldable pub opened : Unit {0}
unfolding set_sfr set_lower set_pc set_acc set_psw add_pc branch psw acc dptr codemem opcode
    operand1 operand2 psw_bank indir_rx_address rx_address carry
opened = tt
