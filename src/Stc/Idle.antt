-- ===== src/Stc/Idle.antt =====
-- stc12.c, the run to a point in time, and the jump over the clocks of an idle processor.
pub mod Parked
pub mod Moved
pub mod Count
pub mod Run
pub mod Guards
pub mod Whole
pub mod Jump
use emu8051_stc.Prelude.{
  ℕ, zero, suc, ◌+◌, ◌-◌, ◌*◌, ◌/◌, bit_and, bit_or, ◌==◌, ltb, nonzero, if◌then◌else◌, Bool, false,
  not, ◌&&◌, ◌||◌, Option, none, some,
}
use emu8051_stc.Cpu.{Cpu, Hooks, set_sfr}
use emu8051_stc.Cpu.Regs.{reg_pcon, reg_ie, reg_tcon, reg_tmod, reg_tl0, reg_th0}
use emu8051_stc.Core.Timer.{has}
use emu8051_stc.Core.Tick.{tick}
use emu8051_stc.Ops.Table.{OpTable}
use emu8051_stc.Stc.{Stc, set_stc, u32, u64, part_stc12, part_stc15}
use emu8051_stc.Stc.Regs.{reg_auxr, reg_ccon, reg_adc_contr, reg_wdt_contr, reg_int_clko}
use emu8051_stc.Stc.Pins.{get_time_ns}
use emu8051_stc.Stc.Tick.{stc12_tick}

module _ {B : Type 0} (c : Cpu (Stc B)) where
  unfoldable pub core_is_idle : Bool
  core_is_idle = has c reg_pcon 0x01

  -- The guards of the jump, one group for each of their comments.
  unfoldable pub right_model : Bool
  right_model =
      c.env.stc12_mode
      && c.skip_timers
      && (c.env.part_id == part_stc12 || c.env.part_id == part_stc15)

  unfoldable pub wake_armed : Bool
  wake_armed =
      has c reg_pcon 0x01 && not (has c reg_pcon 0x02) && has c reg_ie 0x80 && has c reg_ie 0x02

  unfoldable pub nothing_pending : Bool
  nothing_pending =
      not (has c reg_tcon 0xaa) && not c.serial_interrupt_trigger && c.interrupt_active == 0

  unfoldable pub timer0_mode : ℕ
  timer0_mode = bit_and (c.sfr reg_tmod) 0x03

  unfoldable pub timer0_counts : Bool
  timer0_counts =
      has c reg_tcon 0x10
      && not (has c reg_tmod 0x04)
      && not (has c reg_tmod 0x08)
      && (timer0_mode == 0x01 || timer0_mode == 0x02)

  unfoldable pub nothing_else_counts : Bool
  nothing_else_counts =
      not (has c reg_tcon 0x40)
      && not (has c reg_auxr 0x10)
      && not (has c reg_ccon 0x40)
      && c.env.adc_countdown == 0
      && not (has c reg_adc_contr 0x08)
      && not (has c reg_wdt_contr 0x20)
      && not (c.env.part_id == part_stc15 && has c reg_int_clko 0x03)

  unfoldable pub only_timer0 : Bool
  only_timer0 = right_model && wake_armed && nothing_pending && timer0_counts && nothing_else_counts

  -- Clocks for each count, and counts up to the overflow.
  unfoldable pub clock_divisor : ℕ
  clock_divisor = if has c reg_auxr 0x80 then 1 else 12

  unfoldable pub counter16 : ℕ
  counter16 = bit_or (c.sfr reg_th0 * 0x100) (c.sfr reg_tl0)

  unfoldable pub ticks_to_overflow : ℕ
  ticks_to_overflow = if timer0_mode == 0x01 then 0x10000 - counter16 else 0x100 - c.sfr reg_tl0

  -- Whole counts that stop short of the overflow and fit into `max_clocks`.
  unfoldable pub skip_ticks : ℕ → ℕ
  skip_ticks max_clocks =
      let ticks = ticks_to_overflow - 1 in
      if ltb max_clocks (ticks * clock_divisor) then max_clocks / clock_divisor else ticks

  unfoldable pub count_on : ℕ → Cpu (Stc B)
  count_on ticks =
      let v = u32 (counter16 + ticks) in
      if timer0_mode == 0x01
      then set_sfr (set_sfr c reg_tl0 (bit_and v 0xff)) reg_th0 (bit_and (v / 0x100) 0xff)
      else set_sfr c reg_tl0 (c.sfr reg_tl0 + ticks)

  unfoldable pub skipped : ℕ → ℕ × Cpu (Stc B)
  skipped ticks =
      let clocks = ticks * clock_divisor in
      let c1 = count_on ticks in
      (
        clocks,
        set_stc c1
            (record c1.env { idle_skipped_clocks = u64 (c1.env.idle_skipped_clocks + clocks) }),
      )

  -- `enabled` is `g_idle_fastforward`.
  unfoldable pub idle_skip_clocks : Bool → ℕ → ℕ × Cpu (Stc B)
  idle_skip_clocks enabled max_clocks =
      let ticks = skip_ticks max_clocks in
      if enabled && nonzero max_clocks && only_timer0 && ltb 1 ticks_to_overflow && nonzero ticks
      then skipped ticks
      else (0, c)

  unfoldable pub clocks_left : ℕ → ℕ
  clocks_left target_ns =
      let quantum = c.env.ns_per_clock_x256 in
      let ns_left = target_ns - get_time_ns c.env in
      if quantum == 0 then 0 else u64 (ns_left * 0x100) / quantum

  -- The jump of the run: the clocks are skipped and the clock goes on.
  unfoldable pub jump : Bool → ℕ → Option (Cpu (Stc B))
  jump enabled max_clocks =
      let (skip, c1) = idle_skip_clocks enabled max_clocks in
      let later = set_stc c1 (record c1.env { osc_clocks = u64 (c1.env.osc_clocks + skip) }) in
      if nonzero skip then some later else none

  -- The board is told the time at the end.
  unfoldable pub tell_time : Cpu (Stc B)
  tell_time = elim c.env.on_advance [
    | none ↦ c
    | some advanced ↦
        (let t = get_time_ns c.env in
          set_stc c (record c.env {
            board_user_data = advanced (u32 t) (t / 0x100000000) c.env.board_user_data;
          }))
  ]

module _ {B : Type 0} (hooks : Hooks (Stc B)) (op : OpTable) where
  -- A clock of the processor and the peripherals: whether an instruction was begun.
  unfoldable pub clock : Cpu (Stc B) → Bool × Cpu (Stc B)
  clock c = let (ticked, c1) = tick hooks op c in (ticked, stc12_tick c1)

  -- A turn of the loop of `stc12_advance_to`: a jump, which counts nothing, or a clock.
  unfoldable pub turn : Bool → ℕ → Cpu (Stc B) → Bool × Cpu (Stc B)
  turn enabled target_ns c =
      let jumped = if core_is_idle c then jump c enabled (clocks_left c target_ns) else none in
      elim jumped [ none ↦ clock c | some c1 ↦ (false, c1) ]

  -- The loop, on fuel: the count of instructions and the machine when the time has come.
  unfoldable pub advance_to : ℕ → Bool → ℕ → ℕ → Cpu (Stc B) → Option (ℕ × Cpu (Stc B))
  advance_to zero enabled target_ns count c = none
  advance_to (suc fuel) enabled target_ns count c =
      let (ticked, c1) = turn enabled target_ns c in
      let rest = advance_to fuel enabled target_ns (if ticked then count + 1 else count) c1 in
      if ltb (get_time_ns c.env) target_ns then rest else some (count, tell_time c)
