-- ===== src/Debug/Tick/Runs.antt =====
-- debug.c: a run, and a step of so many instructions, without breakpoints.
use emu8051_stc.Prelude.{
  ℕ, zero, suc, ◌-◌, ◌≤◌, ◌≡◌, ◌∙◌, inl, inr, refl, sym, ap, arith, ltb, ◌==◌, ==_iff, ◌&&◌,
  if◌then◌else◌, Bool, true, false, if_true, if_false, Bool-cases,
}
use mathlib.Core.Path.{subst}
use emu8051_stc.Stc.Idle.Run.{clocks}
use emu8051_stc.Debug.{Target, halted, running, step_insn}
use emu8051_stc.Debug.Control.{dbg_run, dbg_step}
use emu8051_stc.Debug.Profile.{profile}
use emu8051_stc.Debug.Tick.{dbg_tick}
use emu8051_stc.Debug.Tick.Instructions.{
  instructions, IsUnwatched, Going, ends_at, clock_done, go_inside, go_free, last_end, next_end,
}
use emu8051_stc.Debug.Tick.Cycles.{dbg_ticks, one_less}

-- The tick of `t1`, after `m` clocks of the machine of `t`: whether it ends the step.
pub record Ticks {B D : Type 0} (t : Target B D) (m : ℕ) (t1 : Target B D) (last : Bool)
    : Type 0 where
  pub told : (dbg_tick t1).0 ≡ last
  pub state : (dbg_tick t1).1.state ≡ (if last then halted else running)
  pub cpu : (dbg_tick t1).1.cpu ≡ clocks t.hooks t.op (suc m) t.cpu

module _ {B D : Type 0} (t t1 : Target B D) (m : ℕ) where
  going-Ticks :
      (left : ℕ)
      → ((dbg_tick t1).0 ≡ false) × Going t (suc m) left (dbg_tick t1).1
      → Ticks t m t1 false
  going-Ticks left (told, h) = record { told = told; state = h.on; cpu = h.cpu }

  last-Ticks : Going t m 1 t1 → ends_at t m ≡ true → Ticks t m t1 true
  unfolding one_less profile
  last-Ticks h done =
      let (told, stopped) = last_end t t1 m 0 h done refl in
      record {
        told = told;
        state = stopped.at_rest;
        cpu = stopped.same_cpu ∙ clock_done t t1 m 1 h;
      }

module _ {B D : Type 0} (t : Target B D) (unwatched : IsUnwatched t) where
  run_begun : Going t 0 0 (dbg_run t)
  unfolding dbg_run clocks IsUnwatched
  run_begun = record {
    on = refl;
    kind = inl refl;
    count = refl;
    unwatched = unwatched;
    same_hooks = refl;
    same_op = refl;
    cpu = refl;
  }

  run_next :
      (m : ℕ) (t1 : Target B D)
      → Going t m 0 t1
      → ((dbg_tick t1).0 ≡ false) × Going t (suc m) 0 (dbg_tick t1).1
  run_next m t1 h = elim (Bool-cases (ends_at t m)) [
    | inl e ↦ go_free t t1 m 0 h e refl
    | inr e ↦ go_inside t t1 m 0 h e
  ]

  run_going : (m : ℕ) → Going t m 0 (dbg_ticks m (dbg_run t))
  unfolding dbg_ticks
  run_going zero = run_begun
  run_going (suc m) = (run_next m (dbg_ticks m (dbg_run t)) (run_going m)).1

  -- A target without active breakpoints that is set to run, from any state: after any number m of
  -- ticks it runs, its machine has done m clocks, and the next tick does not halt it either.
  pub dbg_run-clocks :
      (m : ℕ)
      → let t1 = dbg_ticks m (dbg_run t) in
        (t1.state ≡ running) × (t1.cpu ≡ clocks t.hooks t.op m t.cpu) × Ticks t m t1 false
  dbg_run-clocks m =
      let h = run_going m in
      (
        h.on,
        h.cpu,
        going-Ticks t (dbg_ticks m (dbg_run t)) m 0 (run_next m (dbg_ticks m (dbg_run t)) h),
      )

module _ {B D : Type 0} (t : Target B D) where
  abbrev ended_by : ℕ → ℕ
  ended_by m = instructions t.hooks t.op m t.cpu

  one_ends : (m : ℕ) → ends_at t m ≡ true → ended_by (suc m) ≡ suc (ended_by m)
  unfolding instructions ends_at
  one_ends m e = if_true (ends_at t m) (suc (ended_by m)) (ended_by m) e

  none_ends : (m : ℕ) → ends_at t m ≡ false → ended_by (suc m) ≡ ended_by m
  unfolding instructions ends_at
  none_ends m e = if_false (ends_at t m) (suc (ended_by m)) (ended_by m) e

module _ {B D : Type 0} (t : Target B D) (unwatched : IsUnwatched t) (n : ℕ) where
  start : Target B D
  start = dbg_step t step_insn (suc n)

  step_begun : Going t 0 (suc n) start
  unfolding dbg_step clocks IsUnwatched start
  step_begun = record {
    on = refl;
    kind = inr refl;
    count = if_false (ltb (suc n) 1) 1 (suc n) (ground arith);
    unwatched = unwatched;
    same_hooks = refl;
    same_op = refl;
    cpu = refl;
  }

  during : (m : ℕ) → ended_by t m ≤ n → Going t m (suc (n - ended_by t m)) (dbg_ticks m start)
  unfolding dbg_ticks instructions
  during zero le = subst (λ k. Going t 0 (suc k) start) (omega arith) step_begun
  during (suc m) le = elim (Bool-cases (ends_at t m)) [
    | inl e ↦
        (let i = one_ends t m e in
          let h = during m (omega arith) in
          let more = next_end t (dbg_ticks m start) m (n - ended_by t m) h e (ground arith) in
          subst (λ k. Going t (suc m) k (dbg_ticks (suc m) start)) (omega arith) (more.1))
    | inr e ↦
        (let i = none_ends t m e in
          let h = during m (omega arith) in
          let more = go_inside t (dbg_ticks m start) m (suc (n - ended_by t m)) h e in
          subst (λ k. Going t (suc m) k (dbg_ticks (suc m) start)) (omega arith) (more.1))
  ]

  tick_at :
      (m : ℕ)
      → Going t m (suc (n - ended_by t m)) (dbg_ticks m start)
      → Ticks t m (dbg_ticks m start) (ends_at t m && n - ended_by t m == 0)
  tick_at m h = elim (Bool-cases (ends_at t m)) [
    | inr e ↦ subst (Ticks t m (dbg_ticks m start)) (sym (ap (λ b. b && n - ended_by t m == 0) e)) (
        going-Ticks t (dbg_ticks m start) m (suc (n - ended_by t m))
          (go_inside t (dbg_ticks m start) m (suc (n - ended_by t m)) h e))
    | inl e ↦
        subst (Ticks t m (dbg_ticks m start)) (sym (ap (λ b. b && n - ended_by t m == 0) e))
          (elim (Bool-cases (n - ended_by t m == 0)) [
            | inl last ↦ subst (Ticks t m (dbg_ticks m start)) (sym last) (
                last-Ticks t (dbg_ticks m start) m
                  (subst (λ k. Going t m (suc k) (dbg_ticks m start)) ((==_iff _ 0).0 last) h) e)
            | inr more ↦ subst (Ticks t m (dbg_ticks m start)) (sym more) (
                going-Ticks t (dbg_ticks m start) m (n - ended_by t m)
                  (next_end t (dbg_ticks m start) m (n - ended_by t m) h e more))
          ])
  ]

  -- A step of n + 1 instructions, from any state of a target without active breakpoints. As long as
  -- at most n instructions have ended in the first m clocks of the machine, the target runs after m
  -- ticks and its machine has done m clocks; the next tick does one more, and halts the target
  -- exactly if an instruction ends in it and n have ended before.
  pub dbg_step-instructions :
      (m : ℕ)
      → instructions t.hooks t.op m t.cpu ≤ n
      → let t1 = dbg_ticks m (dbg_step t step_insn (suc n)) in
        (t1.state ≡ running)
        × (t1.cpu ≡ clocks t.hooks t.op m t.cpu)
        × Ticks t m t1 (ends_at t m && n - instructions t.hooks t.op m t.cpu == 0)
  unfolding start
  dbg_step-instructions m le = let h = during m le in (h.on, h.cpu, tick_at m h)
