-- ===== src/Debug/Tick.antt =====
-- debug.c, `dbg_tick`: a clock of a running target, its breakpoints and its steps.
pub mod Laws
pub mod Halts
pub mod Stops
pub mod Cycles
pub mod Instructions
pub mod Runs
pub mod Watches
use emu8051_stc.Prelude.{
  ℕ, zero, suc, ◌+◌, ◌-◌, ltb, leb, ◌==◌, ◌&&◌, nonzero, not, if◌then◌else◌, Bool, true, false,
  Option, none, some, List, [], ◌∷◌, update,
}
use emu8051_stc.Cpu.Regs.{reg_sp}
use emu8051_stc.Stc.Idle.{clock}
use emu8051_stc.Debug.{
  Target, halted, running, StepKind, BpKind, step_insn, step_line, step_block, step_over, step_out,
  step_cycle, halt_bp, halt_step, bp_code, bp_yield, bp_write, bp_read, TaskPos, dbg_max_bp,
}
use emu8051_stc.Debug.Memory.{iram_byte, watched}
use emu8051_stc.Debug.Control.{emit_halt, emit_watch_halt}
use emu8051_stc.Debug.Profile.{profile}

unfoldable pub is_cycle : StepKind → Bool
is_cycle step_cycle = true
is_cycle _ = false

-- The loop over the slots returns at the first hit.
unfoldable pub first_hit :
    {B D : Type 0} → Option (Target B D) → Option (Target B D) → Option (Target B D)
first_hit none later = later
first_hit (some t) later = some t

module _ {B D : Type 0} (t : Target B D) where
  -- The breakpoint of a slot: the target halted by it.
  unfoldable pub at_pc : ℕ → Option (Target B D)
  at_pc i =
      if t.cpu.pc == (t.bps i).addr then some (emit_halt t halt_bp (some (t.bps i).id)) else none

  -- The halt at a byte that has changed to `cur`, with the shadow set to it.
  unfoldable pub changed_at : ℕ → ℕ → Target B D
  changed_at i cur =
      let bp = t.bps i in
      let noted = record t { watch_shadow = update t.watch_shadow i cur } in
      emit_watch_halt noted bp.id bp.watch_space bp.addr cur (t.watch_shadow i)

  unfoldable pub at_change : ℕ → Option (Target B D)
  at_change i =
      let cur = watched t.cpu (t.bps i).watch_space (t.bps i).addr in
      if cur == t.watch_shadow i then none else some (changed_at i cur)

  unfoldable pub hit_of : BpKind → ℕ → Option (Target B D)
  hit_of bp_code i = at_pc i
  hit_of bp_yield i = at_pc i
  hit_of bp_write i = at_change i
  hit_of bp_read i = none

  unfoldable pub bp_hit : ℕ → Option (Target B D)
  bp_hit i = if (t.bps i).active then hit_of (t.bps i).kind i else none

  -- The loop over the slots from `i` on.
  unfoldable pub check_bps : ℕ → ℕ → Option (Target B D)
  check_bps zero i = none
  check_bps (suc left) i = let later = check_bps left (i + 1) in first_hit (bp_hit i) later

  -- `t->step_count--; step_done = (t->step_count == 0);`
  unfoldable pub count_step : Bool × Target B D
  count_step = (t.step_count - 1 == 0, record t { step_count = t.step_count - 1 })

  -- The first task, of those from `i` on, whose state has changed; its state is noted.
  unfoldable pub task_changed : List TaskPos → ℕ → Option (Target B D)
  task_changed [] i = none
  task_changed (p ∷ ps) i =
      let later = task_changed ps (i + 1) in
      let cur = iram_byte t.cpu p.state_addr in
      if ltb i 8 && nonzero p.state_addr && not (cur == t.step_task_state i)
      then some (record t { step_task_state = update t.step_task_state i cur })
      else later

  unfoldable pub step_block_done : List TaskPos → Bool × Target B D
  step_block_done [] = count_step
  step_block_done (p ∷ ps) = elim (task_changed (p ∷ ps) 0) [
    | none ↦ (false, t)
    | some t1 ↦ (true, t1)
  ]

  -- Whether a step of the kind is complete at the end of an instruction.
  unfoldable pub step_done : StepKind → Bool × Target B D
  step_done step_insn = count_step
  step_done step_line = count_step
  step_done step_block = step_block_done t.syms.tasks
  step_done step_over = if leb (t.cpu.sfr reg_sp) t.step_entry_sp then count_step else (false, t)
  step_done step_out = if ltb (t.cpu.sfr reg_sp) t.step_entry_sp then count_step else (false, t)
  step_done step_cycle = (false, t)

-- `if (step_done) { emit_halt(t, HALT_STEP, -1); return true; }` and `return false`.
unfoldable pub finish : {B D : Type 0} → Bool × Target B D → Bool × Target B D
finish (done, t) = if done then (true, emit_halt t halt_step none) else (false, t)

module _ {B D : Type 0} where
  -- The end of an instruction: what follows the loop over the slots.
  unfoldable pub after_bps : Target B D → Option (Target B D) → Bool × Target B D
  after_bps t none = if nonzero t.step_count then finish (step_done t t.step_kind) else (false, t)
  after_bps t (some t1) = (true, t1)

  unfoldable pub boundary : Target B D → Bool × Target B D
  boundary t = after_bps t (check_bps t dbg_max_bp 0)

  unfoldable pub dbg_tick : Target B D → Bool × Target B D
  dbg_tick t =
      let (ticked, c) = clock t.hooks t.op t.cpu in
      let t1 = record t { cpu = c } in
      let ended =
        if nonzero t.step_count && is_cycle t.step_kind
        then finish (count_step t1)
        else if ticked
        then boundary (profile t1)
        else (false, t1) in
      elim t.state [ halted ↦ (false, t) | running ↦ ended ]
