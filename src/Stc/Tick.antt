-- ===== src/Stc/Tick.antt =====
-- stc12.c, `stc12_tick`: what the peripherals do in a clock of the oscillator.
pub mod Still
pub mod Timer2
use emu8051_stc.Prelude.{
  ℕ, ◌+◌, ◌*◌, ◌/◌, ◌%◌, bit_and, bit_or, bit_xor, ◌==◌, nonzero, if◌then◌else◌, true, not, ◌&&◌,
  u16,
}
use emu8051_stc.Cpu.{Cpu, set_sfr}
use emu8051_stc.Cpu.Regs.{reg_p3, reg_tcon}
use emu8051_stc.Core.Timer.{has, or_sfr}
use emu8051_stc.Stc.{Stc, set_stc, u64, part_stc15, part_stc89}
use emu8051_stc.Stc.Regs.{reg_int_clko}
use emu8051_stc.Stc.Pins.{emit_pin_changes}
use emu8051_stc.Stc.Timers.{timer0_tick, timer1_tick, brt_tick}
use emu8051_stc.Stc.Adc.{adc_tick}
use emu8051_stc.Stc.Pca.{pca_tick}
use emu8051_stc.Stc.Wdt.{wdt_tick}
use emu8051_stc.Stc.Serial.{rx_tick}

module _ {B : Type 0} where
  -- Timer 2 of the 8052: T2CON at 0xc8, RCAP2L and RCAP2H at 0xca, TL2 and TH2 at 0xcc.
  unfoldable pub t2_counter : Cpu (Stc B) → ℕ
  t2_counter c = u16 (bit_or (c.sfr 0x4c) (c.sfr 0x4d * 0x100) + 1)

  unfoldable pub t2_next : Cpu (Stc B) → ℕ
  t2_next c =
      let reload = bit_or (c.sfr 0x4a) (c.sfr 0x4b * 0x100) in
      if t2_counter c == 0 && not (has c 0x48 0x01) then reload else t2_counter c

  unfoldable pub t2_count : Cpu (Stc B) → Cpu (Stc B)
  t2_count c =
      let flagged = if has c 0x48 0x30 then c else or_sfr c 0x48 0x80 in
      let c1 = if t2_counter c == 0 then flagged else c in
      set_sfr (set_sfr c1 0x4c (bit_and (t2_next c) 0xff)) 0x4d (bit_and (t2_next c / 0x100) 0xff)

  -- Once in twelve clocks, under TR2.
  unfoldable pub t2_tick : Cpu (Stc B) → Cpu (Stc B)
  t2_tick c = if has c 0x48 0x04 && c.env.osc_clocks % 12 == 0 then t2_count c else c

  unfoldable pub stc89_tick : Cpu (Stc B) → Cpu (Stc B)
  stc89_tick c = let (overflowed, c1) = timer0_tick c in t2_tick (timer1_tick c1)

  -- A pin of P3 that a timer toggles.
  unfoldable pub toggle_p3 : ℕ → Cpu (Stc B) → Cpu (Stc B)
  toggle_p3 mask c = emit_pin_changes (set_sfr c reg_p3 (bit_xor (c.sfr reg_p3) mask)) 3

  -- An overflow of timer 0 clocks the PCA, and P3.5 on the STC15.
  unfoldable pub t0_overflow : Cpu (Stc B) → Cpu (Stc B)
  t0_overflow c =
      let c1 = set_stc c (record c.env { pca_t0_overflow_pending = true }) in
      if c.env.part_id == part_stc15 && has c reg_int_clko 0x01 then toggle_p3 0x20 c1 else c1

  -- A rising edge of TF1 toggles P3.4 on the STC15.
  unfoldable pub t1_clock_out : Cpu (Stc B) → Cpu (Stc B)
  t1_clock_out c =
      let tf1 = bit_and (c.sfr reg_tcon) 0x80 in
      let c1 = if nonzero tf1 && not (nonzero c.env.last_tf1) then toggle_p3 0x10 c else c in
      let c2 = set_stc c1 (record c1.env { last_tf1 = tf1 }) in
      if c.env.part_id == part_stc15 && has c reg_int_clko 0x02 then c2 else c

  -- Every part but the STC89.
  unfoldable pub stc_tick : Cpu (Stc B) → Cpu (Stc B)
  stc_tick c =
      let (overflowed, c1) = timer0_tick c in
      let c2 = brt_tick (timer1_tick c1) in
      let c3 = t1_clock_out (if overflowed then t0_overflow c2 else c2) in
      wdt_tick (pca_tick (adc_tick c3))

  unfoldable pub clocked : Cpu (Stc B) → Cpu (Stc B)
  clocked c = set_stc c (record c.env { osc_clocks = u64 (c.env.osc_clocks + 1) })

  unfoldable pub stc12_tick : Cpu (Stc B) → Cpu (Stc B)
  stc12_tick c =
      let c1 = rx_tick (clocked c) in
      let ticked = if c.env.part_id == part_stc89 then stc89_tick c1 else stc_tick c1 in
      if c.env.stc12_mode then ticked else c
