-- ===== src/Stc/Idle/Run.antt =====
-- The machine after so many clocks of idleness, and that the clocks lead there.
use emu8051_stc.Prelude.{ℕ, zero, suc, ◌+◌, ◌<◌, ◌≤◌, ◌≡◌, ◌⊎◌, refl, arith, Bool, true, false}
use mathlib.Core.Path.{◌∙◌, ap}
use emu8051_stc.Cpu.{Cpu, Hooks}
use emu8051_stc.Core.Timer.{has, t0_runs, t1_runs}
use emu8051_stc.Mem.{psw, acc}
use emu8051_stc.Core.Interrupt.{
  int0_pending, tf0_pending, int1_pending, tf1_pending, serial_pending, pca_pending,
}
use emu8051_stc.Ops.Table.{OpTable}
use emu8051_stc.Stc.{Stc, u64}
use emu8051_stc.Stc.Timers.{timer0_tick}
use emu8051_stc.Stc.Tick.{stc12_tick}
use emu8051_stc.Stc.Tick.Still.{Still, stc12_tick-Still}
use emu8051_stc.Stc.Idle.{timer0_mode, clock}
use emu8051_stc.Stc.Idle.Parked.{Unasked, Parked, tick-Parked}
use emu8051_stc.Stc.Idle.Moved.{moved, prescaled, clocked-moved, timer1_tick-moved}
use emu8051_stc.Stc.Idle.Count.{
  top, count_now, low_of, high_of, at_count, fast0, fast1, counts, phase, after, timer0_tick-after,
}

-- As many clocks of the processor and its peripherals.
unfoldable pub clocks : {B : Type 0} → Hooks (Stc B) → OpTable → ℕ → Cpu (Stc B) → Cpu (Stc B)
clocks hooks op zero c = c
clocks hooks op (suc n) c = (clock hooks op (clocks hooks op n c)).1

module _ {B : Type 0} (c : Cpu (Stc B)) where
  Unasked-moved : (l h a b o : ℕ) → Unasked c → Unasked (moved c l h a b o)
  unfolding int0_pending tf0_pending int1_pending tf1_pending serial_pending pca_pending has
  Unasked-moved l h a b o q = record {
    inactive = q.inactive;
    no_int0 = q.no_int0;
    no_tf0 = q.no_tf0;
    no_int1 = q.no_int1;
    no_tf1 = q.no_tf1;
    no_serial = q.no_serial;
    no_pca = q.no_pca;
  }

  Parked-moved : (l h a b o : ℕ) → Parked c → Parked (moved c l h a b o)
  unfolding has psw acc
  Parked-moved l h a b o p = record {
    delay = p.delay;
    scale = p.scale;
    skips = p.skips;
    idle = p.idle;
    powered = p.powered;
    unasked = Unasked-moved l h a b o p.unasked;
    parity_set = p.parity_set;
  }

  Still-moved : (l h a b o : ℕ) → Still c → Still (moved c l h a b o)
  unfolding has
  Still-moved l h a b o s = record {
    mode = s.mode;
    part = s.part;
    received = s.received;
    brt = s.brt;
    clock_out = s.clock_out;
    adc = s.adc;
    pca = s.pca;
    wdt = s.wdt;
  }

  phase_lt : (fast : Bool) (p k : ℕ) → p < 12 → phase c fast p k < 12
  phase_lt true p k lt = lt
  phase_lt false p k lt = omega arith

  phase_next :
      (fast : Bool) (p k : ℕ) → prescaled c fast (phase c fast p k) ≡ phase c fast p (suc k)
  phase_next true p k = refl
  phase_next false p k = omega arith

  counts_le : (n : ℕ) → count_now c + counts c (suc n) ≤ top c → count_now c + counts c n ≤ top c
  counts_le n le = ground arith

  -- A clock leads from each of these machines to the next.
  module _ (hooks : Hooks (Stc B)) (op : OpTable) (parked : Parked c) (still : Still c)
      (runs : t0_runs c ≡ true) (modes : (timer0_mode c ≡ 1) ⊎ (timer0_mode c ≡ 2))
      (stopped : t1_runs c ≡ false) (pre1 : c.env.timer1_prescaler < 12) where
    clock-after :
        (k : ℕ)
        → count_now c + counts c (suc k) ≤ top c
        → (clock hooks op (after c k)).1 ≡ after c (suc k)
    unfolding clock
    clock-after k le =
        let p0 = c.env.timer0_prescaler in
        let p1 = c.env.timer1_prescaler in
        let now = u64 (c.env.osc_clocks + suc k) in
        let v = count_now c + counts c (suc k) in
        let a = phase c (fast0 c) p0 (suc k) in
        let b = phase c (fast1 c) p1 k in
        let later : u64 (u64 (c.env.osc_clocks + k) + 1) ≡ now = omega arith in
        let t0 =
          ap timer0_tick (
            clocked-moved c _ _ _ _ _
            ∙ ap (λ x. at_count c (count_now c + counts c k) (phase c (fast0 c) p0 k) b x) later)
          ∙ timer0_tick-after c runs modes k b now le in
        let t1 =
          timer1_tick-moved c (low_of c v) (high_of c v) a b now stopped
            (phase_lt (fast1 c) p1 k pre1)
          ∙ ap (λ x. at_count c v a x now) (phase_next (fast1 c) p1 k) in
        ap (λ x. stc12_tick x.1) (tick-Parked hooks op (after c k) (Parked-moved _ _ _ _ _ parked))
        ∙ stc12_tick-Still (after c k) _ (after c (suc k)) (Still-moved _ _ _ _ _ still)
            (Still-moved _ _ _ _ _ still) t0 t1

    -- Where the counts c do not pass the last value, the clocks lead to what is written out.
    pub clocks-after :
        (n : ℕ) → c ≡ after c 0 → count_now c + counts c n ≤ top c → clocks hooks op n c ≡ after c n
    unfolding clocks
    clocks-after zero start le = start
    clocks-after (suc n) start le =
        ap (λ d. (clock hooks op d).1) (clocks-after n start (counts_le n le)) ∙ clock-after n le
