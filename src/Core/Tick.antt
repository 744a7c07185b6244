-- ===== src/Core/Tick.antt =====
-- core.c, `tick`.
pub mod Valid
pub mod Laws
pub mod Timing
use emu8051_stc.Prelude.{
  ℕ, ◌+◌, ◌-◌, ◌*◌, ◌/◌, ◌^◌, bit_and, bit_or, bit_xor, ◌==◌, ltb, nonzero, if◌then◌else◌, Bool,
  true, false, ◌&&◌, and_not, u8,
}
use emu8051_stc.Cpu.{Cpu, Hooks, set_tick_delay}
use emu8051_stc.Cpu.Regs.{reg_pcon}
use emu8051_stc.Mem.{acc, psw, opcode, set_psw}
use emu8051_stc.Core.Timer.{has, timer_tick}
use emu8051_stc.Core.Interrupt.{handle_interrupts}
use emu8051_stc.Ops.Table.{OpTable}
use emu8051_stc.Ops.Switch.{call}

-- The parity of a byte: a fold to four bits, and a bit of a constant.
unfoldable pub parity : ℕ → ℕ
parity a = bit_and (0x6996 / 2 ^ bit_and (bit_xor a (a / 0x10)) 0xf) 1

unfoldable pub update_parity : {E : Type 0} → Cpu E → Cpu E
update_parity c = set_psw c (bit_or (and_not (psw c) 0x01) (parity (acc c) * 0x01))

-- The delay that is counted down: in 12T, machine cycles become clocks.
unfoldable pub scaled : ℕ → ℕ → ℕ
scaled scale ticks = if ltb 1 scale then (ticks + 1) * scale - 1 else ticks

-- The count-down at the start of a tick, and whether in 12T it ends the tick.
unfoldable pub count_down : {E : Type 0} → Cpu E → Cpu E
count_down c = if nonzero c.tick_delay then set_tick_delay c (c.tick_delay - 1) else c

unfoldable pub finishes : {E : Type 0} → Cpu E → Bool
finishes c =
    nonzero c.tick_delay
    && (count_down c).tick_delay == 0
    && ltb 1 (count_down c).machine_cycle_scale

module _ {E : Type 0} (hooks : Hooks E) (op : OpTable) where
  -- The next instruction, or a tick of idleness, and the parity of what it leaves in A.
  unfoldable pub run_next : Cpu E → Cpu E
  run_next c =
      let (ticks, c1) = call hooks (op (opcode c)) c in
      let ran = set_tick_delay c1 (scaled c1.machine_cycle_scale ticks) in
      update_parity (if has c reg_pcon 0x01 then set_tick_delay c 1 else ran)

  -- What remains of a tick after the count-down.
  unfoldable pub tick_body : Cpu E → Bool × Cpu E
  tick_body c =
      let c1 = if c.tick_delay == 0 then handle_interrupts hooks c else c in
      let ticked = c1.tick_delay == 0 in
      let c2 = if ticked then run_next c1 else c1 in
      (ticked, if c2.skip_timers then c2 else timer_tick c2)

  -- Power-down stops everything, the timers too.
  unfoldable pub tick : Cpu E → Bool × Cpu E
  tick c =
      let c1 = count_down c in
      let down = c1.tick_delay == 0 && has c1 reg_pcon 0x02 in
      if finishes c then (false, c1) else if down then (true, set_tick_delay c1 1) else tick_body c1
