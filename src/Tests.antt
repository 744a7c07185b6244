-- ===== src/Tests.antt =====
-- Concrete machines for the runs in the children.
use emu8051_stc.Prelude.{ℕ, ◌<◌, arith, none, some, false, Option, update, IsBytes, update-IsBytes}
use mathlib.Core.Path.{subst}
use emu8051_stc.Prelude.{ap, ◌≡◌}
use emu8051_stc.Cpu.{Cpu, Hooks}
use emu8051_stc.Cpu.Valid.{IsValid}
use emu8051_stc.Mem.Valid.{AreValid}
pub mod Alu
pub mod Control
pub mod Debug
pub mod Devices
pub mod Disasm
pub mod Load
pub mod Stc

-- Three cells of a memory of zeros.
abbrev pub cells : ℕ → ℕ → ℕ → ℕ → ℕ → ℕ → ℕ → ℕ
cells i v j w k x = update (update (update (λ _. 0) i v) j w) k x

pub cells-IsBytes :
    (i v j w k x : ℕ) → v < 0x100 → w < 0x100 → x < 0x100 → IsBytes (cells i v j w k x)
cells-IsBytes i v j w k x hv hw hx =
    update-IsBytes _ k x (update-IsBytes _ j w (update-IsBytes _ i v (λ _. omega arith) hv) hw) hx

-- A machine with no memory above 0x7f and no external memory, at address 0.
abbrev pub machine : (ℕ → ℕ) → (ℕ → ℕ) → ℕ → Cpu ℕ
machine code sfr scale = record {
  code_mem = code;
  code_mem_max_idx = 0xffff;
  ext_data = none;
  ext_data_max_idx = 0;
  lower_data = λ i. 0x27;
  upper_data = none;
  sfr = sfr;
  pc = 0;
  tick_delay = 0;
  machine_cycle_scale = scale;
  interrupt_active = 0;
  int_a = λ i. 0;
  int_psw = λ i. 0;
  int_sp = λ i. 0;
  serial_out = λ i. 0;
  serial_out_idx = 0;
  serial_out_remaining_bits = 0;
  serial_interrupt_trigger = false;
  skip_timers = false;
  env = 0;
}

pub machine-IsValid :
    (code sfr : ℕ → ℕ) (scale : ℕ) → IsBytes code → IsBytes sfr → IsValid (machine code sfr scale)
machine-IsValid code sfr scale hc hs = record {
  code = hc;
  ext = tt;
  lower = λ i. omega arith;
  upper = tt;
  sfrs = hs;
  pc_lt = omega arith;
  delay_lt = omega arith;
  active_lt = omega arith;
  serial_idx = omega arith;
}

-- Callbacks that keep the last exception, and an external memory in which every byte is 0x5a.
abbrev pub keep_code : Cpu ℕ → ℕ → Cpu ℕ
keep_code c code = record c { env = code }

abbrev pub read_port : Cpu ℕ → ℕ → ℕ × Cpu ℕ
read_port c a = (0x5a, c)

abbrev pub callbacks : Hooks ℕ
callbacks = record {
  except = some keep_code;
  sfrread = λ r. none;
  sfrwrite = λ r. none;
  xread = some read_port;
  xwrite = none;
}

keep_code-IsValid : (c : Cpu ℕ) (code : ℕ) → IsValid c → IsValid (keep_code c code)
keep_code-IsValid c code h = record {
  code = h.code;
  ext = h.ext;
  lower = h.lower;
  upper = h.upper;
  sfrs = h.sfrs;
  pc_lt = h.pc_lt;
  delay_lt = h.delay_lt;
  active_lt = h.active_lt;
  serial_idx = h.serial_idx;
}

-- What a callback that is there is.
unfoldable pub given : {A : Type 0} → A → Option A → A
given a none = a
given a (some f) = f

pub callbacks-AreValid : AreValid callbacks
unfolding given
callbacks-AreValid = record {
  except_ok = λ f c code e h.
      subst (λ g. IsValid (g c code)) (ap (given keep_code) e) (keep_code-IsValid c code h);
  sfrread_ok = λ f c i a e h. cc;
  sfrwrite_ok = λ f c i a e h. cc;
  xread_ok = λ f c a e h.
      subst (λ g. ((g c a).0 < 0x100) × IsValid (g c a).1) (ap (given read_port) e)
        (omega arith, h);
  xwrite_ok = λ f c a v e h. cc;
}
