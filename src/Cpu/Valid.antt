-- ===== src/Cpu/Valid.antt =====
-- The widths of what the handlers compute with, of the fields of `struct em8051`, and the stores.
use emu8051_stc.Prelude.{ℕ, ◌<◌, arith, Option, none, some, IsBytes, u8, update-IsBytes}
use emu8051_stc.Cpu.{
  Cpu, update?, set_sfr, set_lower, set_upper, set_ext, set_pc, set_tick_delay,
  set_interrupt_active,
}

-- A memory behind a pointer that may be NULL.
abbrev pub IsBytes? : Option (ℕ → ℕ) → Type 0
IsBytes? none = Unit {0}
IsBytes? (some m) = IsBytes m

-- The memories and the registers hold bytes, the counter has 16 bits and the delay 8,
-- `interrupt_active` uses two bits, and the index into `serial_out` is inside its 18 elements. The
-- other fields are not restricted.
pub record IsValid {E : Type 0} (c : Cpu E) : Type 0 where
  pub code : IsBytes c.code_mem
  pub ext : IsBytes? c.ext_data
  pub lower : IsBytes c.lower_data
  pub upper : IsBytes? c.upper_data
  pub sfrs : IsBytes c.sfr
  pub pc_lt : c.pc < 0x10000
  pub delay_lt : c.tick_delay < 0x100
  pub active_lt : c.interrupt_active < 4
  pub serial_idx : c.serial_out_idx < 18

update?-IsBytes : (m : Option (ℕ → ℕ)) (i v : ℕ) → IsBytes? m → IsBytes? (update? m i v)
unfolding update?
update?-IsBytes none i v h = h
update?-IsBytes (some m) i v h = update-IsBytes m i (u8 v) h (omega arith)

module _ {E : Type 0} {c : Cpu E} (h : IsValid c) where
  open h use {code, ext, lower, upper, sfrs, pc_lt, delay_lt, active_lt, serial_idx}

  pub set_sfr-IsValid : (i v : ℕ) → IsValid (set_sfr c i v)
  unfolding set_sfr
  set_sfr-IsValid i v = record {
    code = code;
    ext = ext;
    lower = lower;
    upper = upper;
    sfrs = update-IsBytes c.sfr i (u8 v) sfrs (omega arith);
    pc_lt = pc_lt;
    delay_lt = delay_lt;
    active_lt = active_lt;
    serial_idx = serial_idx;
  }

  pub set_lower-IsValid : (i v : ℕ) → IsValid (set_lower c i v)
  unfolding set_lower
  set_lower-IsValid i v = record {
    code = code;
    ext = ext;
    lower = update-IsBytes c.lower_data i (u8 v) lower (omega arith);
    upper = upper;
    sfrs = sfrs;
    pc_lt = pc_lt;
    delay_lt = delay_lt;
    active_lt = active_lt;
    serial_idx = serial_idx;
  }

  pub set_upper-IsValid : (i v : ℕ) → IsValid (set_upper c i v)
  unfolding set_upper update?
  set_upper-IsValid i v = record {
    code = code;
    ext = ext;
    lower = lower;
    upper = update?-IsBytes c.upper_data i v upper;
    sfrs = sfrs;
    pc_lt = pc_lt;
    delay_lt = delay_lt;
    active_lt = active_lt;
    serial_idx = serial_idx;
  }

  pub set_ext-IsValid : (i v : ℕ) → IsValid (set_ext c i v)
  unfolding set_ext update?
  set_ext-IsValid i v = record {
    code = code;
    ext = update?-IsBytes c.ext_data i v ext;
    lower = lower;
    upper = upper;
    sfrs = sfrs;
    pc_lt = pc_lt;
    delay_lt = delay_lt;
    active_lt = active_lt;
    serial_idx = serial_idx;
  }

  pub set_pc-IsValid : (v : ℕ) → IsValid (set_pc c v)
  unfolding set_pc
  set_pc-IsValid v = record {
    code = code;
    ext = ext;
    lower = lower;
    upper = upper;
    sfrs = sfrs;
    pc_lt = omega arith;
    delay_lt = delay_lt;
    active_lt = active_lt;
    serial_idx = serial_idx;
  }

  pub set_tick_delay-IsValid : (v : ℕ) → IsValid (set_tick_delay c v)
  unfolding set_tick_delay
  set_tick_delay-IsValid v = record {
    code = code;
    ext = ext;
    lower = lower;
    upper = upper;
    sfrs = sfrs;
    pc_lt = pc_lt;
    delay_lt = omega arith;
    active_lt = active_lt;
    serial_idx = serial_idx;
  }

  pub set_interrupt_active-IsValid : (v : ℕ) → v < 4 → IsValid (set_interrupt_active c v)
  unfolding set_interrupt_active
  set_interrupt_active-IsValid v lt = record {
    code = code;
    ext = ext;
    lower = lower;
    upper = upper;
    sfrs = sfrs;
    pc_lt = pc_lt;
    delay_lt = delay_lt;
    active_lt = omega arith;
    serial_idx = serial_idx;
  }
