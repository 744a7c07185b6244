-- ===== src/Core/Tick/Timing.antt =====
-- How many ticks an instruction takes.
use emu8051_stc.Prelude.{
  ℕ, zero, suc, ◌+◌, ◌%◌, ◌-◌, ◌*◌, ◌<◌, ◌≡◌, refl, arith, ltb, nonzero, ◌==◌, if◌then◌else◌, true,
  false, some,
}
use mathlib.Core.Path.{◌∙◌}
use emu8051_stc.Cpu.{Cpu, Hooks, set_tick_delay}
use emu8051_stc.Cpu.Regs.{reg_pcon}
use emu8051_stc.Mem.{opcode, opened}
use emu8051_stc.Core.Timer.{has}
use emu8051_stc.Core.Timer.Frame.{Keeps, if-Keeps, Keeps-refl, timer_tick-Keeps}
use emu8051_stc.Core.Interrupt.{handle_interrupts}
use emu8051_stc.Core.Tick.{scaled, count_down, finishes, update_parity, run_next, tick_body, tick}
use emu8051_stc.Ops.Table.{OpTable}
use emu8051_stc.Ops.Handler.{Op, exec}
use emu8051_stc.Ops.Handler.Delay.{exec-IsDelay}
use emu8051_stc.Ops.Switch.{call}

module _ {E : Type 0} (hooks : Hooks E) (op : OpTable) where
  -- As many ticks, and how many of them ran an instruction or idled.
  unfoldable pub run : ℕ → Cpu E → ℕ × Cpu E
  run zero c = (0, c)
  run (suc n) c =
      let (ticked, d) = tick hooks op c in let (k, e) = run n d in (if ticked then suc k else k, e)

  -- While the delay is not over, a tick only counts.
  tick_body_waits :
      (c : Cpu E) (m : ℕ)
      → c.tick_delay ≡ suc m
      → ((tick_body hooks op c).0 ≡ false) × Keeps c (tick_body hooks op c).1
  unfolding tick_body
  tick_body_waits c m delay =
      let e : (c.tick_delay == 0) ≡ false = ground arith in
      rw (e, e) (refl, if-Keeps c.skip_timers _ _ Keeps-refl (timer_tick-Keeps c))

  tick_last :
      (c : Cpu E)
      → 1 < c.machine_cycle_scale
      → c.tick_delay ≡ 1
      → tick hooks op c ≡ (false, set_tick_delay c 0)
  unfolding tick finishes count_down set_tick_delay
  tick_last c slow delay =
      let e : ltb 1 c.machine_cycle_scale ≡ true = ground arith in rw (delay, e) refl

  tick_counts :
      (c : Cpu E) (m : ℕ)
      → c.tick_delay ≡ suc (suc m)
      → m < 0xff
      → tick hooks op c ≡ tick_body hooks op (set_tick_delay c (c.tick_delay - 1))
  unfolding tick finishes count_down set_tick_delay
  tick_counts c m delay lt =
      let e : nonzero c.tick_delay ≡ true = ground arith in
      let z : ((c.tick_delay - 1) % 0x100 == 0) ≡ false = ground arith in rw (e, z) refl

  -- The state during an instruction: so many ticks are left, in 12T.
  record Waiting (n : ℕ) (scale : ℕ) (c : Cpu E) : Type 0 where
    left : c.tick_delay ≡ n
    clocks : c.machine_cycle_scale ≡ scale

  tick_waits :
      (n scale : ℕ) (c : Cpu E)
      → Waiting (suc n) scale c
      → 1 < scale
      → n < 0x100
      → ((tick hooks op c).0 ≡ false) × Waiting n scale (tick hooks op c).1
  unfolding set_tick_delay
  tick_waits zero scale c w slow lt =
      let e = tick_last c (rw w.clocks slow) w.left in
      rw e (refl, record { left = refl; clocks = w.clocks })
  tick_waits (suc m) scale c w slow lt =
      let d = set_tick_delay c (c.tick_delay - 1) in
      let e = tick_counts c m w.left (omega arith) in
      let k = tick_body_waits d m (let l = w.left in omega arith) in
      let l = w.left in
      rw e (k.0, record { left = k.1.delay ∙ omega arith; clocks = k.1.scale ∙ w.clocks })

  run_waits :
      (n scale : ℕ) (c : Cpu E)
      → Waiting n scale c
      → 1 < scale
      → n < 0x101
      → ((run n c).0 ≡ 0) × Waiting 0 scale (run n c).1
  unfolding run
  run_waits zero scale c w slow lt = (refl, w)
  run_waits (suc n) scale c w slow lt =
      let (still, next) = tick_waits n scale c w slow (omega arith) in
      let (none, last) = run_waits n scale (tick hooks op c).1 next slow (omega arith) in
      (rw (still, none) refl, last)

  update_parity-Keeps : (c : Cpu E) → Keeps c (update_parity c)
  unfolding update_parity opened
  update_parity-Keeps c = record { delay = refl; scale = refl }

  tick_starts :
      (c : Cpu E)
      → c.tick_delay ≡ 0
      → has c reg_pcon 0x02 ≡ false
      → tick hooks op c ≡ tick_body hooks op c
  unfolding tick finishes count_down
  tick_starts c delay up =
      let z : nonzero c.tick_delay ≡ false = ground arith in
      let y : (c.tick_delay == 0) ≡ true = ground arith in rw (z, y, up) refl

  tick_body_runs :
      (c : Cpu E)
      → c.tick_delay ≡ 0
      → handle_interrupts hooks c ≡ c
      → ((tick_body hooks op c).0 ≡ true) × Keeps (run_next hooks op c) (tick_body hooks op c).1
  unfolding tick_body
  tick_body_runs c delay quiet =
      let y : (c.tick_delay == 0) ≡ true = ground arith in
      let after = run_next hooks op c in
      rw (y, quiet, y) (refl, if-Keeps after.skip_timers _ _ Keeps-refl (timer_tick-Keeps after))

  run_next_waits :
      (c : Cpu E) (o : Op)
      → has c reg_pcon 0x01 ≡ false
      → op (opcode c) ≡ some o
      → let (ticks, d) = exec hooks o c in
        Waiting
          (scaled d.machine_cycle_scale ticks % 0x100)
          d.machine_cycle_scale
          (run_next hooks op c)
  unfolding run_next call set_tick_delay
  run_next_waits c o busy found =
      let (ticks, d) = exec hooks o c in
      let kept = update_parity-Keeps (set_tick_delay d (scaled d.machine_cycle_scale ticks)) in
      rw (busy, found) (record { left = kept.delay; clocks = kept.scale })

  run-tick : (n : ℕ) (c : Cpu E) → (run (suc n) c).1 ≡ (run n (tick hooks op c).1).1
  unfolding run
  run-tick n c = refl

  -- In 12T, an instruction that starts with no delay left, no interrupt taken and neither idle
  -- nor power-down takes 12 ticks for each cycle that its handler returns and 12 more: exactly one
  -- of them runs an instruction, and they leave no delay.
  pub run_12t :
      (c : Cpu E) (o : Op)
      → c.tick_delay ≡ 0
      → has c reg_pcon 0x02 ≡ false
      → has c reg_pcon 0x01 ≡ false
      → handle_interrupts hooks c ≡ c
      → op (opcode c) ≡ some o
      → (exec hooks o c).1.machine_cycle_scale ≡ 12
      → let (k, d) = run (((exec hooks o c).0 + 1) * 12) c in (k ≡ 1) × (d.tick_delay ≡ 0)
  unfolding run scaled
  run_12t c o delay up busy quiet found slow =
      let ticks = (exec hooks o c).0 in
      let lt : ticks < 5 = ground (arith, exec-IsDelay hooks o c) in
      let body = tick_body_runs c delay quiet in
      let w = run_next_waits c o busy found in
      let n = (ticks + 1) * 12 - 1 in
      let after = (tick_body hooks op c).1 in
      let waiting : Waiting n 12 after = record {
        left = body.1.delay ∙ w.left ∙ rw slow (omega arith);
        clocks = body.1.scale ∙ w.clocks ∙ slow;
      } in
      let (none, last) = run_waits n 12 after waiting (omega arith) (omega arith) in
      let e : (ticks + 1) * 12 ≡ suc n = omega arith in
      let starts = tick_starts c delay up in
      (rw (e, starts, body.0, none) refl, rw (e, run-tick n c, starts) last.left)
