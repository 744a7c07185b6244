-- ===== src/Stc/Tick/Still.antt =====
-- A clock in which nothing but timer 0 can happen.
use emu8051_stc.Prelude.{◌≡◌, refl, true, false, ◌==◌, ◌&&◌, nonzero, if_true, if_false}
use mathlib.Core.Path.{◌∙◌, ap}
use emu8051_stc.Cpu.{Cpu}
use emu8051_stc.Core.Timer.{has}
use emu8051_stc.Stc.{Stc, set_stc, part_stc15, part_stc89}
use emu8051_stc.Stc.Regs.{reg_auxr, reg_ccon, reg_wdt_contr, reg_int_clko}
use emu8051_stc.Stc.Timers.{timer0_tick, timer1_tick, brt_tick}
use emu8051_stc.Stc.Adc.{adc_tick}
use emu8051_stc.Stc.Pca.{pca_tick}
use emu8051_stc.Stc.Wdt.{wdt_tick}
use emu8051_stc.Stc.Serial.{rx_tick}
use emu8051_stc.Stc.Tick.{t1_clock_out, clocked, stc_tick, stc12_tick}

-- No byte waits, and no peripheral but the timers is running.
pub record Still {B : Type 0} (c : Cpu (Stc B)) : Type 0 where
  pub mode : c.env.stc12_mode ≡ true
  pub part : (c.env.part_id == part_stc89) ≡ false
  pub received : nonzero c.env.rx_len ≡ false
  pub brt : has c reg_auxr 0x10 ≡ false
  pub clock_out : (c.env.part_id == part_stc15 && has c reg_int_clko 0x02) ≡ false
  pub adc : (c.env.adc_countdown == 0) ≡ true
  pub pca : has c reg_ccon 0x40 ≡ false
  pub wdt : has c reg_wdt_contr 0x20 ≡ false

module _ {B : Type 0} (c : Cpu (Stc B)) (still : Still c) where
  open still use {mode, part, received, brt, clock_out, adc, pca, wdt}

  rx_tick-still : rx_tick (clocked c) ≡ clocked c
  unfolding rx_tick clocked set_stc
  rx_tick-still = rw received refl

  brt_tick-still : brt_tick c ≡ c
  unfolding brt_tick
  brt_tick-still = rw brt refl

  t1_clock_out-still : t1_clock_out c ≡ c
  unfolding t1_clock_out
  t1_clock_out-still = rw clock_out refl

  adc_tick-still : adc_tick c ≡ c
  unfolding adc_tick
  adc_tick-still = rw adc refl

  pca_tick-still : pca_tick c ≡ c
  unfolding pca_tick
  pca_tick-still = rw pca refl

  wdt_tick-still : wdt_tick c ≡ c
  unfolding wdt_tick
  wdt_tick-still = rw wdt refl

  rest-still : wdt_tick (pca_tick (adc_tick (t1_clock_out (brt_tick c)))) ≡ c
  rest-still =
      rw (brt_tick-still, t1_clock_out-still, adc_tick-still, pca_tick-still, wdt_tick-still) refl

-- Such a clock is one of the timers, where timer 0 does not overflow.
stc_tick-Still :
    {B : Type 0} (c d e : Cpu (Stc B))
    → Still e
    → timer0_tick c ≡ (false, d)
    → timer1_tick d ≡ e
    → stc_tick c ≡ e
unfolding stc_tick
stc_tick-Still c d e after t0 t1 = rw (t0, t1) (rest-still e after)

pub stc12_tick-Still :
    {B : Type 0} (c d e : Cpu (Stc B))
    → Still c
    → Still e
    → timer0_tick (clocked c) ≡ (false, d)
    → timer1_tick d ≡ e
    → stc12_tick c ≡ e
unfolding stc12_tick
stc12_tick-Still c d e before after t0 t1 =
    if_true c.env.stc12_mode _ _ before.mode
    ∙ if_false (c.env.part_id == part_stc89) _ _ before.part
    ∙ ap stc_tick (rx_tick-still c before)
    ∙ stc_tick-Still (clocked c) d e after t0 t1
