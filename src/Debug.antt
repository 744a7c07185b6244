-- ===== src/Debug.antt =====
-- debug.h: the debug target, its breakpoints, symbols and halt reasons.
pub mod Memory
pub mod Breakpoints
pub mod Control
pub mod Tick
pub mod Profile
use emu8051_stc.Prelude.{ℕ, Bool, Option, List}
use emu8051_stc.Cpu.{Cpu, Hooks}
use emu8051_stc.Ops.Table.{OpTable}
use emu8051_stc.Stc.{Stc}

pub data DbgState : Type 0 where
  halted running : DbgState

pub data StepKind : Type 0 where
  step_insn step_line step_block step_over step_out step_cycle : StepKind

pub data HaltCause : Type 0 where
  halt_bp halt_step halt_user halt_reset halt_fault : HaltCause

pub data BpKind : Type 0 where
  bp_code bp_yield bp_write bp_read : BpKind

-- `enum dbg_space`. A front end hands it over as a number, which may be none of these.
abbrev pub space_code : ℕ
space_code = 0

abbrev pub space_iram : ℕ
space_iram = 1

abbrev pub space_sfr : ℕ
space_sfr = 2

abbrev pub space_xram : ℕ
space_xram = 3

abbrev pub space_bit : ℕ
space_bit = 4

-- `struct dbg_breakpoint`. The members of the union are fields of their own: `watch_space` and
-- `watch_len` are read of the kinds `bp_write` and `bp_read` only, the two of a yield never.
pub record Breakpoint : Type 0 where
  pub kind : BpKind
  pub addr : ℕ
  pub yield_task : ℕ
  pub yield_state : ℕ
  pub watch_space : ℕ
  pub watch_len : ℕ
  pub id : ℕ
  pub active : Bool

abbrev pub dbg_max_bp : ℕ
dbg_max_bp = 32

pub record TaskPos : Type 0 where
  pub state_addr : ℕ
  pub until_addr : ℕ

-- `n_tasks` is the length of the list.
pub record Symbols : Type 0 where
  pub bw_ms_addr : ℕ
  pub tasks : List TaskPos

-- `bp_id` is `none` for -1.
pub record HaltReason : Type 0 where
  pub cause : HaltCause
  pub pc : ℕ
  pub bp_id : Option ℕ
  pub t_ns : ℕ
  pub is_watch : Bool
  pub watch_space : ℕ
  pub watch_addr : ℕ
  pub watch_value : ℕ
  pub watch_prev : ℕ

-- `struct dbg_target`. `cpu`, `hooks` and `op` are the machine behind its pointer `cpu`, which
-- carries the state behind the pointer `stc`. `on_halt_data` is what lies behind the pointer, which
-- the callback may change.
pub record Target (B D : Type 0) : Type 0 where
  pub cpu : Cpu (Stc B)
  pub hooks : Hooks (Stc B)
  pub op : OpTable
  pub state : DbgState
  pub bps : ℕ → Breakpoint
  pub next_bp_id : ℕ
  pub syms : Symbols
  pub step_kind : StepKind
  pub step_count : ℕ
  pub step_entry_sp : ℕ
  pub on_halt : Option (HaltReason → D → D)
  pub on_halt_data : D
  pub last_halt : HaltReason
  pub watch_shadow : ℕ → ℕ
  pub step_task_state : ℕ → ℕ
  pub profiling : Bool
  pub pc_histogram : Option (ℕ → ℕ)
  pub profile_total : ℕ
