-- ===== src/Core/Reset/Laws.antt =====
-- The state that `reset` leaves.
use emu8051_stc.Prelude.{
  ℕ, ◌||◌, ◌&&◌, ◌%◌, ◌<◌, ◌≡◌, refl, arith, ◌==◌, if◌then◌else◌, Bool, true, false, Option, none,
  some, IsBytes,
}
use emu8051_stc.Cpu.{Cpu, set_sfr}
use emu8051_stc.Cpu.Valid.{IsValid, IsBytes?, set_sfr-IsValid}
use emu8051_stc.Mem.Valid.{if-IsValid}
use emu8051_stc.Cpu.Regs.{reg_sp, reg_p0, reg_p1, reg_p2, reg_p3, reg_pcon, reg_sbuf}
use emu8051_stc.Core.Reset.{cleared, cleared?, wipe, reset_registers, reset_internal, reset}

-- The registers after a reset: with a wipe, PCON shows the power-on, and SBUF is what `rand` gave.
abbrev pub reset_value : ℕ → Bool → ℕ → ℕ
reset_value rand a_wipe i =
    if i == reg_sp
    then 7
    else if i == reg_p0 || i == reg_p1 || i == reg_p2 || i == reg_p3
    then 0xff
    else if a_wipe && i == reg_pcon
    then 0x10
    else if a_wipe && i == reg_sbuf
    then rand % 0x100
    else 0

cleared-IsBytes : (f : ℕ → ℕ) (n : ℕ) → IsBytes f → IsBytes (cleared f n)
unfolding cleared
cleared-IsBytes f n h i = ground (arith, h i)

cleared?-IsBytes : (f : Option (ℕ → ℕ)) (n : ℕ) → IsBytes? f → IsBytes? (cleared? f n)
unfolding cleared?
cleared?-IsBytes none n h = h
cleared?-IsBytes (some f) n h = cleared-IsBytes f n h

module _ {E : Type 0} (rand : ℕ) (c : Cpu E) where
  -- After a reset, with a wipe or without, each of the 128 registers has its value of
  -- `reset_value`, execution starts at 0 with no delay, and no interrupt is active or pending from
  -- the serial port.
  reset_lem :
      (a_wipe : Bool) (i : ℕ)
      → i < 128
      → let d = reset rand c a_wipe in
        (d.sfr i ≡ reset_value rand a_wipe i)
        × (d.pc ≡ 0)
        × (d.tick_delay ≡ 0)
        × (d.interrupt_active ≡ 0)
        × (d.serial_out_remaining_bits ≡ 0)
        × (d.serial_interrupt_trigger ≡ false)
  unfolding reset reset_registers reset_internal set_sfr cleared wipe
  reset_lem true i lt = (ground arith, refl, refl, refl, refl, refl)
  reset_lem false i lt = (ground arith, refl, refl, refl, refl, refl)

module _ {E : Type 0} {c : Cpu E} (h : IsValid c) where
  open h use {code, ext, lower, upper, sfrs, pc_lt, delay_lt, active_lt, serial_idx}

  wipe-IsValid : IsValid (wipe c)
  unfolding wipe
  wipe-IsValid = record {
    code = cleared-IsBytes _ _ code;
    ext = cleared?-IsBytes _ _ ext;
    lower = cleared-IsBytes _ _ lower;
    upper = cleared?-IsBytes _ _ upper;
    sfrs = sfrs;
    pc_lt = pc_lt;
    delay_lt = delay_lt;
    active_lt = active_lt;
    serial_idx = serial_idx;
  }

  restart-IsValid : IsValid (record c { sfr = cleared c.sfr 128; pc = 0; tick_delay = 0 })
  restart-IsValid = record {
    code = code;
    ext = ext;
    lower = lower;
    upper = upper;
    sfrs = cleared-IsBytes _ _ sfrs;
    pc_lt = omega arith;
    delay_lt = omega arith;
    active_lt = active_lt;
    serial_idx = serial_idx;
  }

  reset_internal-IsValid : IsValid (reset_internal c)
  unfolding reset_internal
  reset_internal-IsValid = record {
    code = code;
    ext = ext;
    lower = lower;
    upper = upper;
    sfrs = sfrs;
    pc_lt = pc_lt;
    delay_lt = delay_lt;
    active_lt = omega arith;
    serial_idx = serial_idx;
  }

module _ {E : Type 0} {c : Cpu E} (h : IsValid c) where
  reset_registers-IsValid : IsValid (reset_registers c)
  unfolding reset_registers
  reset_registers-IsValid = search (set_sfr-IsValid, restart-IsValid) depth 9

-- A reset of a valid machine, with a wipe or without, leaves a valid machine.
pub reset-IsValid :
    {E : Type 0} (rand : ℕ) {c : Cpu E} (a_wipe : Bool) → IsValid c → IsValid (reset rand c a_wipe)
unfolding reset
reset-IsValid rand a_wipe h =
    search
      (if-IsValid, reset_internal-IsValid, set_sfr-IsValid, reset_registers-IsValid, wipe-IsValid)
      depth 9
