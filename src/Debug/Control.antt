-- ===== src/Debug/Control.antt =====
-- debug.c: starting, halting, stepping and resetting the target.
use emu8051_stc.Prelude.{
  ℕ, ◌+◌, ltb, ◌==◌, ◌&&◌, if◌then◌else◌, Bool, true, false, Option, none, some, List, [], ◌∷◌,
  update,
}
use emu8051_stc.Cpu.{Cpu, Hooks}
use emu8051_stc.Cpu.Regs.{reg_sp}
use emu8051_stc.Core.Reset.{reset}
use emu8051_stc.Ops.Table.{OpTable, op_setptrs}
use emu8051_stc.Stc.{Stc}
use emu8051_stc.Stc.Pins.{get_time_ns}
use emu8051_stc.Stc.Init.{stc12_init}
use emu8051_stc.Debug.{
  Target, DbgState, halted, running, StepKind, step_insn, step_line, step_block, HaltCause, halt_bp,
  halt_user, halt_reset, HaltReason, Breakpoint, bp_code, Symbols, TaskPos, dbg_max_bp,
}
use emu8051_stc.Debug.Memory.{iram_byte, watched}
use emu8051_stc.Debug.Breakpoints.{is_watching}

-- What `memset` leaves: enumerations at their first constructor.
abbrev pub no_breakpoint : Breakpoint
no_breakpoint = record {
  kind = bp_code;
  addr = 0;
  yield_task = 0;
  yield_state = 0;
  watch_space = 0;
  watch_len = 0;
  id = 0;
  active = false;
}

abbrev pub no_reason : HaltReason
no_reason = record {
  cause = halt_bp;
  pc = 0;
  bp_id = some 0;
  t_ns = 0;
  is_watch = false;
  watch_space = 0;
  watch_addr = 0;
  watch_value = 0;
  watch_prev = 0;
}

-- `data` is what the pointer of the callback will point to.
unfoldable pub dbg_init : {B D : Type 0} → Cpu (Stc B) → Hooks (Stc B) → OpTable → D → Target B D
dbg_init cpu hooks op data_behind = record {
  cpu = cpu;
  hooks = hooks;
  op = op;
  state = halted;
  bps = λ i. no_breakpoint;
  next_bp_id = 1;
  syms = record { bw_ms_addr = 0; tasks = [] };
  step_kind = step_insn;
  step_count = 0;
  step_entry_sp = 0;
  on_halt = none;
  on_halt_data = data_behind;
  last_halt = no_reason;
  watch_shadow = λ i. 0;
  step_task_state = λ i. 0;
  profiling = false;
  pc_histogram = none;
  profile_total = 0;
}

unfoldable pub dbg_supports_step : StepKind → Bool
dbg_supports_step step_line = false
dbg_supports_step _ = true

module _ {B D : Type 0} (t : Target B D) where
  -- `t->last_halt = r; if (t->on_halt) t->on_halt(&r, t->on_halt_data);`
  unfoldable pub report : HaltReason → Target B D
  report r = record t {
    state = halted;
    last_halt = r;
    on_halt_data = elim t.on_halt [ none ↦ t.on_halt_data | some f ↦ f r t.on_halt_data ];
  }

  unfoldable pub halt_reason : HaltCause → Option ℕ → HaltReason
  halt_reason cause bp_id = record no_reason {
    cause = cause;
    pc = t.cpu.pc;
    bp_id = bp_id;
    t_ns = get_time_ns t.cpu.env;
  }

  unfoldable pub emit_halt : HaltCause → Option ℕ → Target B D
  emit_halt cause bp_id = report (halt_reason cause bp_id)

  unfoldable pub emit_watch_halt : ℕ → ℕ → ℕ → ℕ → ℕ → Target B D
  emit_watch_halt bp_id space addr value prev = report (record (halt_reason halt_bp (some bp_id)) {
    is_watch = true;
    watch_space = space;
    watch_addr = addr;
    watch_value = value;
    watch_prev = prev;
  })

  unfoldable pub dbg_run : Target B D
  dbg_run = record t { state = running; step_count = 0 }

  unfoldable pub dbg_halt : Target B D
  dbg_halt = elim t.state [ halted ↦ t | running ↦ emit_halt halt_user none ]

  -- The state of a task, 0 for one without an address.
  unfoldable pub task_byte : TaskPos → ℕ
  task_byte p = if p.state_addr == 0 then 0 else iram_byte t.cpu p.state_addr

  -- `for (i = 0; i < n_tasks && i < 8; i++)`, the tasks from `i` on.
  unfoldable pub snapshot : List TaskPos → ℕ → (ℕ → ℕ) → ℕ → ℕ
  snapshot [] i states = states
  snapshot (p ∷ ps) i states =
      snapshot ps (i + 1) (if ltb i 8 then update states i (task_byte p) else states)

  unfoldable pub dbg_step : StepKind → ℕ → Target B D
  dbg_step kind count = record t {
    state = running;
    step_kind = kind;
    step_count = if ltb count 1 then 1 else count;
    step_entry_sp = t.cpu.sfr reg_sp;
    step_task_state = elim kind [
      | step_block ↦ snapshot t.syms.tasks 0 t.step_task_state
      | _ ↦ t.step_task_state
    ];
  }

  unfoldable pub dbg_get_state : DbgState
  dbg_get_state = t.state

  unfoldable pub dbg_get_last_halt : HaltReason
  dbg_get_last_halt = t.last_halt

  unfoldable pub dbg_get_time_ns : ℕ
  dbg_get_time_ns = get_time_ns t.cpu.env

  unfoldable pub dbg_set_symbols : Symbols → Target B D
  dbg_set_symbols syms = record t { syms = syms }

  unfoldable pub dbg_set_on_halt : Option (HaltReason → D → D) → D → Target B D
  dbg_set_on_halt f data_behind = record t { on_halt = f; on_halt_data = data_behind }

  -- The shadows of the watches, read again.
  unfoldable pub reseeded : ℕ → ℕ
  reseeded i =
      let bp = t.bps i in
      if bp.active && is_watching bp.kind && ltb i dbg_max_bp
      then watched t.cpu bp.watch_space bp.addr
      else t.watch_shadow i

-- `rand` is the argument of `reset`, which does not use it here.
unfoldable pub dbg_reset : {B D : Type 0} → ℕ → Target B D → Target B D
dbg_reset rand t =
    let (hooks, c) = stc12_init (t.hooks, reset rand t.cpu false) in
    let t1 = record t {
      cpu = record c { skip_timers = true };
      hooks = hooks;
      op = op_setptrs t.op;
      state = halted;
      step_count = 0;
    } in
    record t1 {
      watch_shadow = reseeded t1;
      last_halt = record no_reason { cause = halt_reset; bp_id = none };
    }
