-- ===== src/Debug/Tick/Watches.antt =====
-- debug.c: the report of a watch.
use emu8051_stc.Prelude.{
  ℕ, zero, suc, ◌+◌, ◌<◌, ◌≤◌, ◌≡◌, ◌∙◌, inl, inr, refl, ap, arith, ◌==◌, ==_iff, ◌&&◌, nonzero,
  true, false, none, some, if_true, if_false, Bool-cases, update,
}
use emu8051_stc.Stc.Idle.{clock}
use emu8051_stc.Stc.Pins.{get_time_ns}
use emu8051_stc.Debug.{Target, halted, running, halt_bp, bp_write, dbg_max_bp}
use emu8051_stc.Debug.Memory.{watched}
use emu8051_stc.Debug.Control.{emit_watch_halt, report, halt_reason}
use emu8051_stc.Debug.Profile.{profile}
use emu8051_stc.Debug.Tick.{
  is_cycle, first_hit, changed_at, at_change, hit_of, bp_hit, check_bps, boundary, dbg_tick,
}
use emu8051_stc.Debug.Tick.Halts.{after_clock}
use emu8051_stc.Debug.Tick.Stops.{at_boundary, boundary_met}
use emu8051_stc.Debug.Tick.Instructions.{unmet}

module _ {B D : Type 0} (t y : Target B D) where
  beyond : (i j : ℕ) → (i == j) ≡ false → i ≤ j → i + 1 ≤ j
  beyond i j other le = ground arith

  below : (i j : ℕ) → (i == j) ≡ false → i ≤ j → i < j
  below i j other le = ground arith

  -- The loop returns at the first slot with a hit.
  first_met :
      (left i j : ℕ)
      → i ≤ j
      → j < i + left
      → ((k : ℕ) → k < j → bp_hit t k ≡ none)
      → bp_hit t j ≡ some y
      → check_bps t left i ≡ some y
  unfolding check_bps first_hit
  first_met zero i j le lt before hit = absurd (omega arith)
  first_met (suc left) i j le lt before hit = elim (Bool-cases (i == j)) [
    | inl same ↦
        ap (λ o. first_hit o (check_bps t left (i + 1))) (ap (bp_hit t) ((==_iff i j).0 same) ∙ hit)
    | inr other ↦
        ap (λ o. first_hit o (check_bps t left (i + 1))) (before i (below i j other le))
        ∙ first_met left (i + 1) j (beyond i j other le) (omega arith) before hit
  ]

-- The target `t1` is `t` halted by the watch of slot `i`, whose byte is now `cur`.
pub record Reports {B D : Type 0} (t : Target B D) (i cur : ℕ) (t1 : Target B D) : Type 0 where
  pub at_rest : t1.state ≡ halted
  pub reason : t1.last_halt ≡ record {
    cause = halt_bp;
    pc = t.cpu.pc;
    bp_id = some (t.bps i).id;
    t_ns = get_time_ns t.cpu.env;
    is_watch = true;
    watch_space = (t.bps i).watch_space;
    watch_addr = (t.bps i).addr;
    watch_value = cur;
    watch_prev = t.watch_shadow i;
  }
  pub noted : t1.watch_shadow ≡ update t.watch_shadow i cur
  pub same_cpu : t1.cpu ≡ t.cpu

module _ {B D : Type 0} (t : Target B D) (i : ℕ) (active : (t.bps i).active ≡ true)
    (kind : (t.bps i).kind ≡ bp_write) where
  changed_at-Reports : (cur : ℕ) → Reports t i cur (changed_at t i cur)
  unfolding changed_at emit_watch_halt report halt_reason
  changed_at-Reports cur = record { at_rest = refl; reason = refl; noted = refl; same_cpu = refl }

  change_met :
      let cur = watched t.cpu (t.bps i).watch_space (t.bps i).addr in
      (cur == t.watch_shadow i) ≡ false → bp_hit t i ≡ some (changed_at t i cur)
  unfolding bp_hit hit_of at_change
  change_met changed =
      if_true (t.bps i).active (hit_of t (t.bps i).kind i) none active
      ∙ ap (λ k. hit_of t k i) kind
      ∙ if_false (watched t.cpu (t.bps i).watch_space (t.bps i).addr == t.watch_shadow i) none
          (some (changed_at t i (watched t.cpu (t.bps i).watch_space (t.bps i).addr))) changed

  boundary-Reports :
      let cur = watched t.cpu (t.bps i).watch_space (t.bps i).addr in
      i < dbg_max_bp
      → ((j : ℕ) → j < i → (t.bps j).active ≡ false)
      → (cur == t.watch_shadow i) ≡ false
      → ((boundary t).0 ≡ true) × Reports t i cur (boundary t).1
  boundary-Reports lt before changed =
      let cur = watched t.cpu (t.bps i).watch_space (t.bps i).addr in
      rw
        (boundary_met t (changed_at t i cur) (
          first_met t (changed_at t i cur) dbg_max_bp 0 i (omega arith) (omega arith)
            (λ j below. unmet t j (before j below)) (change_met changed)))
        (refl, changed_at-Reports cur)

module _ {B D : Type 0} (t : Target B D) (on : t.state ≡ running)
    (ticked : (clock t.hooks t.op t.cpu).0 ≡ true)
    (straight : (nonzero t.step_count && is_cycle t.step_kind) ≡ false) where
  -- Where a running target watches a byte for writes in one of its 32 slots, no slot below is
  -- active and it does not step by clocks: if the byte differs from its shadow at the end of an
  -- instruction, the target halts. The reason names the watch, the counter, the time, the byte and
  -- its shadow, the byte is the new shadow, and the machine has done its clock.
  pub dbg_tick-watch :
      (i : ℕ)
      → i < dbg_max_bp
      → (t.bps i).active ≡ true
      → (t.bps i).kind ≡ bp_write
      → ((j : ℕ) → j < i → (t.bps j).active ≡ false)
      → (watched (after_clock t).cpu (t.bps i).watch_space (t.bps i).addr == t.watch_shadow i)
        ≡ false
      → ((dbg_tick t).0 ≡ true)
        × Reports
            (after_clock t)
            i
            (watched (after_clock t).cpu (t.bps i).watch_space (t.bps i).addr)
            (dbg_tick t).1
  unfolding profile after_clock
  dbg_tick-watch i lt active kind before changed =
      let (told, done) =
        boundary-Reports (profile (after_clock t)) i active kind lt before changed in
      rw (at_boundary t on ticked straight) (
        told,
        record {
          at_rest = done.at_rest;
          reason = done.reason;
          noted = done.noted;
          same_cpu = done.same_cpu;
        },
      )
