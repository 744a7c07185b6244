-- ===== src/Stc/Timers.antt =====
-- stc12.c, timers 0 and 1 with their prescalers, and the baud rate timer.
pub mod Laws
use emu8051_stc.Prelude.{
  ℕ, ◌+◌, ◌*◌, ◌/◌, bit_and, bit_or, ◌==◌, ltb, if◌then◌else◌, Bool, true, false, and_not, u8, u16,
}
use emu8051_stc.Cpu.{Cpu, set_sfr}
use emu8051_stc.Cpu.Regs.{reg_tmod, reg_tcon, reg_tl0, reg_th0}
use emu8051_stc.Core.Timer.{
  has, set_tf0, set_tf1, t0_runs, t1_runs, count8, count_timer1, tcon_tr1, tmod_m_0,
}
use emu8051_stc.Stc.{Stc, set_stc, part_stc15}
use emu8051_stc.Stc.Regs.{reg_auxr, reg_t2l, reg_t2h}

module _ {E : Type 0} where
  -- An overflow of timer 0, which the caller is told of.
  unfoldable pub over0 : Cpu E → Bool × Cpu E
  over0 c = (true, set_tf0 c)

  unfoldable pub count0_8 : ℕ → Cpu E → Bool × Cpu E
  count0_8 r c =
      let v = c.sfr r + 1 in
      let c1 = set_sfr c r (bit_and v 0xff) in if ltb 0xff v then over0 c1 else (false, c1)

  unfoldable pub count0_13 : Cpu E → Bool × Cpu E
  count0_13 c =
      let v = bit_and (c.sfr reg_tl0) 0x1f + 1 in
      let c1 = set_sfr c reg_tl0 (bit_or (and_not (c.sfr reg_tl0) 0x1f) (bit_and v 0x1f)) in
      if ltb 0x1f v then count0_8 reg_th0 c1 else (false, c1)

  unfoldable pub count0_16 : Cpu E → Bool × Cpu E
  count0_16 c =
      let v = c.sfr reg_tl0 + 1 in
      let c1 = set_sfr c reg_tl0 (bit_and v 0xff) in
      if ltb 0xff v then count0_8 reg_th0 c1 else (false, c1)

  unfoldable pub count0_reload : Cpu E → Bool × Cpu E
  count0_reload c =
      let v = c.sfr reg_tl0 + 1 in
      let c1 = set_sfr c reg_tl0 (bit_and v 0xff) in
      if ltb 0xff v then over0 (set_sfr c1 reg_tl0 (c1.sfr reg_th0)) else (false, c1)

  -- TH0 in mode 3, under TR1.
  unfoldable pub count0_high : Cpu E → Cpu E
  count0_high c = if has c reg_tcon tcon_tr1 then count8 set_tf1 reg_th0 c else c

  unfoldable pub count0_mode3 : Cpu E → Bool × Cpu E
  count0_mode3 c = let (overflowed, c1) = count0_8 reg_tl0 c in (overflowed, count0_high c1)

  -- The switch on the mode.
  unfoldable pub count0 : Cpu E → Bool × Cpu E
  count0 c =
      let mode = bit_and (c.sfr reg_tmod) tmod_m_0 in
      if mode == 0x00
      then count0_13 c
      else if mode == 0x01
      then count0_16 c
      else if mode == 0x02
      then count0_reload c
      else count0_mode3 c

  -- Past the prescaler.
  unfoldable pub timer0_count : Cpu E → Bool × Cpu E
  timer0_count c = if t0_runs c then count0 c else (false, c)

  unfoldable pub timer1_count : Cpu E → Cpu E
  timer1_count c = if t1_runs c then count_timer1 c else c

module _ {B : Type 0} where
  -- 12T counts at every twelfth clock, 1T at every clock.
  unfoldable pub timer0_tick : Cpu (Stc B) → Bool × Cpu (Stc B)
  timer0_tick c =
      let prescaler = u8 (c.env.timer0_prescaler + 1) in
      if has c reg_auxr 0x80
      then timer0_count c
      else if ltb prescaler 12
      then (false, set_stc c (record c.env { timer0_prescaler = prescaler }))
      else timer0_count (set_stc c (record c.env { timer0_prescaler = 0 }))

  unfoldable pub timer1_tick : Cpu (Stc B) → Cpu (Stc B)
  timer1_tick c =
      let prescaler = u8 (c.env.timer1_prescaler + 1) in
      if has c reg_auxr 0x40
      then timer1_count c
      else if ltb prescaler 12
      then set_stc c (record c.env { timer1_prescaler = prescaler })
      else timer1_count (set_stc c (record c.env { timer1_prescaler = 0 }))

  -- Timer 2 of the STC15, which counts on through its own registers.
  unfoldable pub count_t2 : Cpu (Stc B) → Cpu (Stc B)
  count_t2 c =
      let v = u16 (bit_or (c.sfr reg_t2l) (c.sfr reg_t2h * 0x100) + 1) in
      set_sfr (set_sfr c reg_t2l (bit_and v 0xff)) reg_t2h (bit_and (v / 0x100) 0xff)

  -- What the prescaler lets through: only timer 2 counts, the BRT is a stub.
  unfoldable pub brt_count : Cpu (Stc B) → Cpu (Stc B)
  brt_count c = if c.env.part_id == part_stc15 then count_t2 c else c

  -- T2R and T2x12 of the STC15 are the bits of AUXR that are BRTR and BRTx12 on the STC12.
  unfoldable pub brt_tick : Cpu (Stc B) → Cpu (Stc B)
  brt_tick c =
      let prescaler = u8 (c.env.brt_prescaler + 1) in
      if has c reg_auxr 0x10
      then (if has c reg_auxr 0x04
          then brt_count c
          else if ltb prescaler 12
          then set_stc c (record c.env { brt_prescaler = prescaler })
          else brt_count (set_stc c (record c.env { brt_prescaler = 0 })))
      else c
