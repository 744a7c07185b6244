-- ===== src/Cpu.antt =====
-- emu8051.h: `struct em8051`, its callbacks, and the stores into its fields.
pub mod Regs
pub mod Valid
use emu8051_stc.Prelude.{ℕ, ◌+◌, Bool, Option, none, some, u8, u16, update}

-- `struct em8051` without the tables `op` and `dec`, which are `Ops.Table`, and without the
-- callbacks, which are `Hooks`. A memory is a function of the index; `upper_data` and `ext_data`
-- are pointers that may be NULL. `env` is what the callbacks keep outside the struct.
pub record Cpu (E : Type 0) : Type 0 where
  pub code_mem : ℕ → ℕ
  pub code_mem_max_idx : ℕ
  pub ext_data : Option (ℕ → ℕ)
  pub ext_data_max_idx : ℕ
  pub lower_data : ℕ → ℕ
  pub upper_data : Option (ℕ → ℕ)
  pub sfr : ℕ → ℕ
  pub pc : ℕ
  pub tick_delay : ℕ
  pub machine_cycle_scale : ℕ
  pub interrupt_active : ℕ
  pub int_a : ℕ → ℕ
  pub int_psw : ℕ → ℕ
  pub int_sp : ℕ → ℕ
  pub serial_out : ℕ → ℕ
  pub serial_out_idx : ℕ
  pub serial_out_remaining_bits : ℕ
  pub serial_interrupt_trigger : Bool
  pub skip_timers : Bool
  pub env : E

-- The callbacks. Each is handed the machine and may change it; `none` is a NULL pointer. The
-- arrays `sfrread` and `sfrwrite` are indexed by the register less 0x80.
pub record Hooks (E : Type 0) : Type 0 where
  pub except : Option (Cpu E → ℕ → Cpu E)
  pub sfrread : ℕ → Option (Cpu E → ℕ → ℕ × Cpu E)
  pub sfrwrite : ℕ → Option (Cpu E → ℕ → Cpu E)
  pub xread : Option (Cpu E → ℕ → ℕ × Cpu E)
  pub xwrite : Option (Cpu E → ℕ → ℕ → Cpu E)

-- Stores into the fields, with what the field's width keeps.
unfoldable pub set_sfr : {E : Type 0} → Cpu E → ℕ → ℕ → Cpu E
set_sfr c i v = record c { sfr = update c.sfr i (u8 v) }

unfoldable pub set_lower : {E : Type 0} → Cpu E → ℕ → ℕ → Cpu E
set_lower c i v = record c { lower_data = update c.lower_data i (u8 v) }

-- A store through a pointer that is NULL does not happen: the callers test it.
unfoldable pub update? : Option (ℕ → ℕ) → ℕ → ℕ → Option (ℕ → ℕ)
update? none i v = none
update? (some m) i v = some (update m i (u8 v))

unfoldable pub set_upper : {E : Type 0} → Cpu E → ℕ → ℕ → Cpu E
unfolding update?
set_upper c i v = record c { upper_data = update? c.upper_data i v }

unfoldable pub set_ext : {E : Type 0} → Cpu E → ℕ → ℕ → Cpu E
unfolding update?
set_ext c i v = record c { ext_data = update? c.ext_data i v }

unfoldable pub set_pc : {E : Type 0} → Cpu E → ℕ → Cpu E
set_pc c v = record c { pc = u16 v }

unfoldable pub set_tick_delay : {E : Type 0} → Cpu E → ℕ → Cpu E
set_tick_delay c v = record c { tick_delay = u8 v }

unfoldable pub set_interrupt_active : {E : Type 0} → Cpu E → ℕ → Cpu E
set_interrupt_active c v = record c { interrupt_active = u8 v }
