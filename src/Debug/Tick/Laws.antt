-- ===== src/Debug/Tick/Laws.antt =====
-- debug.c, `dbg_tick`: when a target halts.
use emu8051_stc.Prelude.{
  ℕ, zero, suc, ◌+◌, ◌≡◌, ◌∙◌, refl, sym, ap, ltb, leb, ◌==◌, nonzero, Bool, true, false, Option,
  none, some, if_keeps, not, ◌&&◌, update, List, [], ◌∷◌,
}
use emu8051_stc.Cpu.Regs.{reg_sp}
use emu8051_stc.Debug.{
  Target, DbgState, halted, running, StepKind, step_insn, step_line, step_block, step_over,
  step_out, step_cycle, halt_bp, HaltCause, bp_code, bp_yield, bp_write, bp_read, BpKind, TaskPos,
  dbg_max_bp,
}
use emu8051_stc.Debug.Memory.{watched, iram_byte}
use emu8051_stc.Debug.Control.{emit_halt, emit_watch_halt, report, halt_reason}
use emu8051_stc.Debug.Tick.{
  after_bps, at_pc, changed_at, at_change, hit_of, bp_hit, first_hit, check_bps, count_step,
  task_changed, step_block_done, step_done, finish, boundary,
}

unfoldable pub is_halted : DbgState → Bool
is_halted halted = true
is_halted running = false

-- The target `t1` is `t` halted for the cause, at its counter, with its machine as it was.
pub record Stopped {B D : Type 0} (cause : HaltCause) (t t1 : Target B D) : Type 0 where
  pub at_rest : t1.state ≡ halted
  pub caused : t1.last_halt.cause ≡ cause
  pub at_pc : t1.last_halt.pc ≡ t.cpu.pc
  pub same_cpu : t1.cpu ≡ t.cpu

-- An option holds a target stopped by a breakpoint, if any.
unfoldable pub StoppedBy : {B D : Type 0} → Target B D → Option (Target B D) → Type 0
StoppedBy t none = Unit {0}
StoppedBy t (some t1) = Stopped halt_bp t t1

module _ {B D : Type 0} (t : Target B D) where
  pub emit_halt-Stopped :
      (cause : HaltCause) (id : Option ℕ) → Stopped cause t (emit_halt t cause id)
  unfolding emit_halt report halt_reason
  emit_halt-Stopped cause id = record {
    at_rest = refl;
    caused = refl;
    at_pc = refl;
    same_cpu = refl;
  }

  changed_at-Stopped : (i cur : ℕ) → Stopped halt_bp t (changed_at t i cur)
  unfolding changed_at emit_watch_halt report halt_reason
  changed_at-Stopped i cur = record { at_rest = refl; caused = refl; at_pc = refl; same_cpu = refl }

  at_pc-StoppedBy : (i : ℕ) → StoppedBy t (at_pc t i)
  unfolding at_pc StoppedBy
  at_pc-StoppedBy i =
      if_keeps (StoppedBy t) (t.cpu.pc == (t.bps i).addr)
        (some (emit_halt t halt_bp (some (t.bps i).id))) none
        (λ e. emit_halt-Stopped halt_bp (some (t.bps i).id)) (λ e. tt)

  at_change-StoppedBy : (i : ℕ) → StoppedBy t (at_change t i)
  unfolding at_change StoppedBy
  at_change-StoppedBy i =
      let cur = watched t.cpu (t.bps i).watch_space (t.bps i).addr in
      if_keeps (StoppedBy t) (cur == t.watch_shadow i) none (some (changed_at t i cur)) (λ e. tt)
        (λ e. changed_at-Stopped i cur)

  hit_of-StoppedBy : (i : ℕ) (k : BpKind) → StoppedBy t (hit_of t k i)
  unfolding StoppedBy hit_of
  hit_of-StoppedBy i bp_code = at_pc-StoppedBy i
  hit_of-StoppedBy i bp_yield = at_pc-StoppedBy i
  hit_of-StoppedBy i bp_write = at_change-StoppedBy i
  hit_of-StoppedBy i bp_read = tt

  bp_hit-StoppedBy : (i : ℕ) → StoppedBy t (bp_hit t i)
  unfolding bp_hit StoppedBy
  bp_hit-StoppedBy i =
      if_keeps (StoppedBy t) (t.bps i).active (hit_of t (t.bps i).kind i) none
        (λ e. hit_of-StoppedBy i (t.bps i).kind) (λ e. tt)

  first_hit-StoppedBy :
      (o later : Option (Target B D))
      → StoppedBy t o
      → StoppedBy t later
      → StoppedBy t (first_hit o later)
  unfolding StoppedBy first_hit
  first_hit-StoppedBy none later h k = k
  first_hit-StoppedBy (some t1) later h k = h

  pub check_bps-StoppedBy : (left i : ℕ) → StoppedBy t (check_bps t left i)
  unfolding check_bps StoppedBy
  check_bps-StoppedBy zero i = tt
  check_bps-StoppedBy (suc left) i =
      first_hit-StoppedBy (bp_hit t i) (check_bps t left (i + 1)) (bp_hit-StoppedBy i)
        (check_bps-StoppedBy left (i + 1))

  -- A step that is counted or noted leaves the target running, with its machine.
  unfoldable pub IsGoing : Bool × Target B D → Type 0
  IsGoing r = (r.1.state ≡ t.state) × (r.1.cpu ≡ t.cpu)

  pub count_step-IsGoing : IsGoing (count_step t)
  unfolding count_step IsGoing
  count_step-IsGoing = (refl, refl)

  task_changed-IsGoing :
      (ps : List TaskPos) (i : ℕ)
      → IsGoing (elim (task_changed t ps i) [ none ↦ (false, t) | some t1 ↦ (true, t1) ])
  unfolding task_changed IsGoing
  task_changed-IsGoing [] i = (refl, refl)
  task_changed-IsGoing (p ∷ ps) i =
      if_keeps
        (λ (o : Option (Target B D)). IsGoing (elim o [ none ↦ (false, t) | some t1 ↦ (true, t1) ]))
        (ltb i 8
          && nonzero p.state_addr
          && not (iram_byte t.cpu p.state_addr == t.step_task_state i))
        (some (record t {
          step_task_state = update t.step_task_state i (iram_byte t.cpu p.state_addr);
        }))
        (task_changed t ps (i + 1)) (λ e. (refl, refl)) (λ e. task_changed-IsGoing ps (i + 1))

  step_block_done-IsGoing : (ps : List TaskPos) → IsGoing (step_block_done t ps)
  unfolding step_block_done
  step_block_done-IsGoing [] = count_step-IsGoing
  step_block_done-IsGoing (p ∷ ps) = task_changed-IsGoing (p ∷ ps) 0

  step_done-IsGoing : (k : StepKind) → IsGoing (step_done t k)
  unfolding step_done IsGoing
  step_done-IsGoing step_insn = count_step-IsGoing
  step_done-IsGoing step_line = count_step-IsGoing
  step_done-IsGoing step_block = step_block_done-IsGoing t.syms.tasks
  step_done-IsGoing step_over =
      if_keeps IsGoing (leb (t.cpu.sfr reg_sp) t.step_entry_sp) (count_step t) (false, t)
        (λ e. count_step-IsGoing) (λ e. (refl, refl))
  step_done-IsGoing step_out =
      if_keeps IsGoing (ltb (t.cpu.sfr reg_sp) t.step_entry_sp) (count_step t) (false, t)
        (λ e. count_step-IsGoing) (λ e. (refl, refl))
  step_done-IsGoing step_cycle = (refl, refl)

-- What `finish` gives is for the callers whether the target has halted, and the machine is as it
-- was.
unfoldable pub IsEnd : {B D : Type 0} → Target B D → Bool × Target B D → Type 0
IsEnd t r = (r.0 ≡ is_halted r.1.state) × (r.1.cpu ≡ t.cpu)

module _ {B D : Type 0} (t : Target B D) (on : t.state ≡ running) where
  pub finish-IsEnd : (r : Bool × Target B D) → IsGoing t r → IsEnd t (finish r)
  unfolding finish IsEnd IsGoing emit_halt report is_halted
  finish-IsEnd (true, t1) going = (refl, going.1)
  finish-IsEnd (false, t1) going = (sym (ap is_halted (going.0 ∙ on)), going.1)

  pub unfinished : IsEnd t (false, t)
  unfolding IsEnd is_halted
  unfinished = (sym (ap is_halted on), refl)

  after_bps-IsEnd : (o : Option (Target B D)) → StoppedBy t o → IsEnd t (after_bps t o)
  unfolding after_bps IsEnd StoppedBy is_halted
  after_bps-IsEnd none h =
      if_keeps (IsEnd t) (nonzero t.step_count) (finish (step_done t t.step_kind)) (false, t)
        (λ e. finish-IsEnd (step_done t t.step_kind) (step_done-IsGoing t t.step_kind))
        (λ e. unfinished)
  after_bps-IsEnd (some t1) h = (sym (ap is_halted h.at_rest), h.same_cpu)

  pub boundary-IsEnd : IsEnd t (boundary t)
  unfolding boundary
  boundary-IsEnd = after_bps-IsEnd (check_bps t dbg_max_bp 0) (check_bps-StoppedBy t dbg_max_bp 0)
