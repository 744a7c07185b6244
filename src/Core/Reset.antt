-- ===== src/Core/Reset.antt =====
-- core.c, `reset`. What `rand()` returns is an argument. The tables of function pointers, which
-- `reset` builds too, are `Ops.Table`.
use emu8051_stc.Prelude.{
  ℕ, zero, suc, ◌+◌, bit_or, leb, ltb, if◌then◌else◌, Bool, false, Option, none, some, u8, update,
}
use emu8051_stc.Cpu.{Cpu, set_sfr}
use emu8051_stc.Cpu.Regs.{reg_sp, reg_p0, reg_p1, reg_p2, reg_p3, reg_pcon, reg_sbuf}
pub mod Laws

-- `memset(m, 0, n)`.
unfoldable pub cleared : (ℕ → ℕ) → ℕ → ℕ → ℕ
cleared m n i = if ltb i n then 0 else m i

cleared? : Option (ℕ → ℕ) → ℕ → Option (ℕ → ℕ)
cleared? none n = none
cleared? (some m) n = some (cleared m n)

module _ {E : Type 0} where
  unfoldable pub wipe : Cpu E → Cpu E
  unfolding cleared?
  wipe c = record c {
    code_mem = cleared c.code_mem (c.code_mem_max_idx + 1);
    ext_data = cleared? c.ext_data (c.ext_data_max_idx + 1);
    lower_data = cleared c.lower_data 128;
    upper_data = cleared? c.upper_data 128;
  }

  -- The registers, and what is left for every reset after them.
  unfoldable pub reset_registers : Cpu E → Cpu E
  reset_registers c =
      let c1 = record c { sfr = cleared c.sfr 128; pc = 0; tick_delay = 0 } in
      let c2 = set_sfr (set_sfr c1 reg_sp 7) reg_p0 0xff in
      set_sfr (set_sfr (set_sfr c2 reg_p1 0xff) reg_p2 0xff) reg_p3 0xff

  unfoldable pub reset_internal : Cpu E → Cpu E
  reset_internal c = record c {
    interrupt_active = 0;
    serial_interrupt_trigger = false;
    serial_out_remaining_bits = 0;
  }

  unfoldable pub reset : ℕ → Cpu E → Bool → Cpu E
  reset rand c a_wipe =
      let c1 = reset_registers (if a_wipe then wipe c else c) in
      let c2 = set_sfr c1 reg_pcon (bit_or (c1.sfr reg_pcon) 0x10) in
      let c3 = set_sfr c2 reg_sbuf rand in reset_internal (if a_wipe then c3 else c1)
