-- ===== src/Stc/Idle/Guards.antt =====
-- What the guards of the jump over idle clocks give, and what they do not ask.
use emu8051_stc.Prelude.{
  ℕ, ◌*◌, ◌%◌, ◌<◌, ◌≡◌, ◌⊎◌, refl, arith, Bool, true, false, not, ◌==◌, ◌&&◌, ◌||◌, bit_and,
  bit_or, and_not, ltb, nonzero, IsBytes,
}
use emu8051_stc.Prelude.Bits.{passes_below, passes_below_lem}
use emu8051_stc.Cpu.{Cpu}
use emu8051_stc.Cpu.Regs.{reg_tcon, reg_ie}
use emu8051_stc.Mem.{psw, acc}
use emu8051_stc.Core.Timer.{has, t0_runs, t1_runs}
use emu8051_stc.Core.Tick.{parity}
use emu8051_stc.Core.Interrupt.{
  int0_pending, tf0_pending, int1_pending, tf1_pending, serial_pending, pca_pending,
}
use emu8051_stc.Stc.{Stc, part_stc15}
use emu8051_stc.Stc.Regs.{reg_auxr, reg_int_clko}
use emu8051_stc.Stc.Tick.Still.{Still}
use emu8051_stc.Stc.Idle.{
  timer0_mode, right_model, wake_armed, nothing_pending, timer0_counts, nothing_else_counts,
  only_timer0,
}
use emu8051_stc.Stc.Idle.Parked.{Unasked, Parked}

-- What the guards of the jump do not ask: the processor is between two ticks of idleness in 1T,
-- no interrupt of the PCA is pending, no byte waits in the queue, the parity flag is that of A,
-- and timer 1 is in 1T when timer 0 is.
pub record Settled {B : Type 0} (c : Cpu (Stc B)) : Type 0 where
  pub delay : c.tick_delay ≡ 1
  pub scale : ltb 1 c.machine_cycle_scale ≡ false
  pub no_pca : pca_pending c ≡ false
  pub parity_set : bit_or (and_not (psw c) 0x01) (parity (acc c) * 0x01) % 0x100 ≡ psw c
  pub received : nonzero c.env.rx_len ≡ false
  pub pre0 : c.env.timer0_prescaler < 12
  pub pre1 : c.env.timer1_prescaler < 12
  pub clock_lt : c.env.osc_clocks < 0x10000000000000000
  pub rates : (has c reg_auxr 0x80 ≡ false) ⊎ (has c reg_auxr 0x40 ≡ true)

-- A mask of several flags that finds none.
abbrev covers : (mask m : ℕ) → ℕ → Bool
covers mask m x = nonzero (bit_and x mask) || not (nonzero (bit_and x m))

covers_lem :
    (mask m x : ℕ)
    → passes_below 256 (covers mask m) ≡ true
    → x < 256
    → nonzero (bit_and x mask) ≡ false
    → nonzero (bit_and x m) ≡ false
covers_lem mask m x table lt clear = ground (arith, passes_below_lem 256 (covers mask m) x table lt)

and_false : (a b : Bool) → b ≡ false → (a && b) ≡ false
and_false a b e = ground (arith, e)

module _ {B : Type 0} (c : Cpu (Stc B)) (bytes : IsBytes c.sfr) (guard : only_timer0 c ≡ true) where
  pub runs : t0_runs c ≡ true
  unfolding only_timer0 timer0_counts t0_runs
  runs = ground (arith, guard)

  pub stopped : t1_runs c ≡ false
  unfolding only_timer0 nothing_else_counts t1_runs
  stopped = ground (arith, guard)

  pub modes : (timer0_mode c ≡ 1) ⊎ (timer0_mode c ≡ 2)
  unfolding only_timer0 timer0_counts
  modes = ground (arith, guard)

  no_flag : (m : ℕ) → passes_below 256 (covers 0xaa m) ≡ true → has c reg_tcon m ≡ false
  unfolding only_timer0 nothing_pending has
  no_flag m table =
      covers_lem 0xaa m (c.sfr reg_tcon) table (bytes reg_tcon) (ground (arith, guard))

  unasked : pca_pending c ≡ false → Unasked c
  unfolding only_timer0 nothing_pending int0_pending tf0_pending int1_pending tf1_pending
      serial_pending passes_below
  unasked no_pca = record {
    inactive = ground (arith, guard);
    no_int0 = and_false (has c reg_ie 0x01) _ (no_flag 0x02 refl);
    no_tf0 = and_false (has c reg_ie 0x02) _ (no_flag 0x20 refl);
    no_int1 = and_false (has c reg_ie 0x04) _ (no_flag 0x08 refl);
    no_tf1 = and_false (has c reg_ie 0x08) _ (no_flag 0x80 refl);
    no_serial = and_false (has c reg_ie 0x10) _ (ground (arith, guard));
    no_pca = no_pca;
  }

  no_clock_out : (c.env.part_id == part_stc15 && has c reg_int_clko 0x02) ≡ false
  unfolding only_timer0 nothing_else_counts has passes_below
  no_clock_out =
      let m = covers_lem 0x03 0x02 (c.sfr reg_int_clko) refl (bytes reg_int_clko) in
      ground (arith, guard, m)

  pub parked : Settled c → Parked c
  unfolding only_timer0 right_model wake_armed
  parked s = record {
    delay = s.delay;
    scale = s.scale;
    skips = ground (arith, guard);
    idle = ground (arith, guard);
    powered = ground (arith, guard);
    unasked = unasked s.no_pca;
    parity_set = s.parity_set;
  }

  pub still : Settled c → Still c
  unfolding only_timer0 right_model nothing_else_counts
  still s = record {
    mode = ground (arith, guard);
    part = ground (arith, guard);
    received = s.received;
    brt = ground (arith, guard);
    clock_out = no_clock_out;
    adc = ground (arith, guard);
    pca = ground (arith, guard);
    wdt = ground (arith, guard);
  }
