-- ===== src/Debug/Tick/Cycles.antt =====
-- debug.c: a step of so many clocks.
use emu8051_stc.Prelude.{
  ℕ, zero, suc, ◌+◌, ◌-◌, ◌≤◌, ◌≡◌, ◌∙◌, refl, sym, ap, arith, ltb, ◌==◌, ==_iff, ◌&&◌, nonzero,
  if◌then◌else◌, Bool, true, false, none, if_true, if_false,
}
use mathlib.Core.Path.{subst}
use emu8051_stc.Stc.Idle.{clock}
use emu8051_stc.Stc.Idle.Run.{clocks}
use emu8051_stc.Debug.{Target, halted, running, StepKind, step_cycle, halt_step}
use emu8051_stc.Debug.Control.{dbg_step}
use emu8051_stc.Debug.Tick.{is_cycle, count_step, finish, boundary, dbg_tick}
use emu8051_stc.Debug.Tick.Laws.{Stopped, emit_halt-Stopped}
use emu8051_stc.Debug.Tick.Halts.{after_clock, ended, dbg_tick-running}
use emu8051_stc.Debug.Profile.{profile}

-- The target after so many ticks.
unfoldable pub dbg_ticks : {B D : Type 0} → ℕ → Target B D → Target B D
dbg_ticks zero t = t
dbg_ticks (suc n) t = (dbg_tick (dbg_ticks n t)).1

-- A target with `left` clocks of a step left, of which the machine of `t` has done `n` clocks.
record Counting {B D : Type 0} (t : Target B D) (n left : ℕ) (t1 : Target B D) : Type 0 where
  on : t1.state ≡ running
  kind : t1.step_kind ≡ step_cycle
  count : t1.step_count ≡ left
  same_hooks : t1.hooks ≡ t.hooks
  same_op : t1.op ≡ t.op
  cpu : t1.cpu ≡ clocks t.hooks t.op n t.cpu

cycling :
    (k : StepKind) (n left : ℕ) → k ≡ step_cycle → n ≡ suc left → (nonzero n && is_cycle k) ≡ true
unfolding is_cycle
cycling k n left ek en = rw (ek, en) (ground arith)

is_left : {n : ℕ} (left : ℕ) → 0 + left ≡ n → n ≡ left
is_left left e = omega arith

pub not_zero : (n : ℕ) → (suc n == 0) ≡ false
not_zero n = ground arith

pub minus_one : (n : ℕ) → suc n - 1 ≡ n
minus_one n = omega arith

-- The count taken down.
unfoldable pub one_less : {B D : Type 0} → Target B D → Target B D
one_less t = record t { step_count = t.step_count - 1 }

ended_cycle :
    {B D : Type 0} (ticked : Bool) (t : Target B D)
    → (nonzero t.step_count && is_cycle t.step_kind) ≡ true
    → ended ticked t ≡ finish (count_step t)
unfolding ended
ended_cycle ticked t e =
    if_true (nonzero t.step_count && is_cycle t.step_kind) (finish (count_step t))
      (if ticked then boundary (profile t) else (false, t)) e

pub counted :
    {B D : Type 0} (t : Target B D) (b : Bool)
    → (t.step_count - 1 == 0) ≡ b
    → finish (count_step t) ≡ finish (b, one_less t)
unfolding count_step one_less
counted t b e = ap (λ d. finish (d, one_less t)) e

module _ {B D : Type 0} (t t1 : Target B D) (n left : ℕ) (h : Counting t n (suc left) t1) where
  cycle_tick : (b : Bool) → (left == 0) ≡ b → dbg_tick t1 ≡ finish (b, one_less (after_clock t1))
  unfolding after_clock
  cycle_tick b e =
      dbg_tick-running t1 h.on
      ∙ ended_cycle ((clock t1.hooks t1.op t1.cpu).0) (after_clock t1)
          (cycling t1.step_kind t1.step_count left h.kind h.count)
      ∙ counted (after_clock t1) b (rw h.count (ap (λ k. k == 0) (minus_one left) ∙ e))

  clock_done : (after_clock t1).cpu ≡ clocks t.hooks t.op (suc n) t.cpu
  unfolding after_clock clocks
  clock_done = rw (h.same_hooks, h.same_op, h.cpu) refl

  -- The last clock of the step.
  last_tick :
      left ≡ 0
      → ((dbg_tick t1).0 ≡ true) × Stopped halt_step (one_less (after_clock t1)) (dbg_tick t1).1
  unfolding finish
  last_tick e =
      rw (cycle_tick true ((==_iff left 0).1 e))
        (refl, emit_halt-Stopped (one_less (after_clock t1)) halt_step none)

  -- A clock before the last.
  next_tick :
      (left == 0) ≡ false → ((dbg_tick t1).0 ≡ false) × Counting t (suc n) left (dbg_tick t1).1
  unfolding finish one_less after_clock
  next_tick more = rw (cycle_tick false more) (
    refl,
    record {
      on = h.on;
      kind = h.kind;
      count = rw h.count (minus_one left);
      same_hooks = h.same_hooks;
      same_op = h.same_op;
      cpu = clock_done;
    },
  )

module _ {B D : Type 0} (t : Target B D) (n : ℕ) where
  begun : Counting t 0 (suc n) (dbg_step t step_cycle (suc n))
  unfolding dbg_step clocks
  begun = record {
    on = refl;
    kind = refl;
    count = if_false (ltb (suc n) 1) 1 (suc n) (ground arith);
    same_hooks = refl;
    same_op = refl;
    cpu = refl;
  }

  during :
      (m left : ℕ)
      → m + left ≡ n
      → Counting t m (suc left) (dbg_ticks m (dbg_step t step_cycle (suc n)))
  unfolding dbg_ticks
  during zero left e =
      subst (λ k. Counting t 0 (suc k) (dbg_step t step_cycle (suc n))) (is_left left e) begun
  during (suc m) left e =
      (next_tick t (dbg_ticks m (dbg_step t step_cycle (suc n))) m (suc left)
        (during m (suc left) (omega arith)) (ground arith)).1

  tick_after :
      (m left : ℕ)
      → m + left ≡ n
      → let r = dbg_tick (dbg_ticks m (dbg_step t step_cycle (suc n))) in
        (r.0 ≡ (left == 0))
        × (r.1.state ≡ (if left == 0 then halted else running))
        × (r.1.cpu ≡ clocks t.hooks t.op (suc m) t.cpu)
  unfolding one_less
  tick_after m zero e =
      let counting = during m zero e in
      let (done, stopped) = last_tick t _ m zero counting refl in
      (done, stopped.at_rest, stopped.same_cpu ∙ clock_done t _ m zero counting)
  tick_after m (suc left) e =
      let counting = during m (suc left) e in
      let (done, next) = next_tick t _ m (suc left) counting (ground arith) in
      (
        done ∙ sym (not_zero left),
        next.on ∙ sym (if_false (suc left == 0) halted running (not_zero left)),
        next.cpu,
      )

  -- A step of n + 1 clocks, from any state of the target. For m up to n, the target runs after m
  -- ticks and its machine has done m clocks; the next tick does one more, and halts the target
  -- exactly if m is n. The cause of this halt is the step.
  pub dbg_step-cycles :
      (m : ℕ)
      → m ≤ n
      → let t1 = dbg_ticks m (dbg_step t step_cycle (suc n)) in
        (t1.state ≡ running)
        × (t1.cpu ≡ clocks t.hooks t.op m t.cpu)
        × ((dbg_tick t1).0 ≡ (n - m == 0))
        × ((dbg_tick t1).1.state ≡ (if n - m == 0 then halted else running))
        × ((dbg_tick t1).1.cpu ≡ clocks t.hooks t.op (suc m) t.cpu)
        × ((dbg_ticks (suc n) (dbg_step t step_cycle (suc n))).last_halt.cause ≡ halt_step)
  unfolding dbg_ticks
  dbg_step-cycles m le =
      let counting = during m (n - m) (omega arith) in
      let (done, at_rest, same) = tick_after m (n - m) (omega arith) in
      (
        counting.on,
        counting.cpu,
        done,
        at_rest,
        same,
        (last_tick t _ n zero (during n zero (omega arith)) refl).1.caused,
      )
