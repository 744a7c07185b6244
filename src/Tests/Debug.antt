-- ===== src/Tests/Debug.antt =====
-- Runs of the debugger.
pub mod Clocks
use emu8051_stc.Prelude.{
  ℕ, ◌-◌, ◌≤◌, ◌==◌, ◌≡◌, ◌⊎◌, inl, refl, arith, true, false, none, some, [], ◌∷◌, if◌then◌else◌,
  ◌&&◌, ◌∙◌, nonzero,
}
use emu8051_stc.Cpu.{Cpu, set_tick_delay, set_sfr, set_pc}
use emu8051_stc.Mem.{set_acc, acc, set_psw, opcode, codemem, add_pc}
use emu8051_stc.Ops.Handler.{exec}
use emu8051_stc.Ops.Move.{nop}
use emu8051_stc.Ops.Alu.{inc_a}
use emu8051_stc.Stc.Tick.{stc12_tick}
use emu8051_stc.Core.Timer.{has}
use emu8051_stc.Core.Interrupt.{handle_interrupts, take, pick}
use emu8051_stc.Ops.Switch.{call}
use emu8051_stc.Ops.Table.{OpTable, op_setptrs}
use emu8051_stc.Stc.{Stc}
use emu8051_stc.Core.Tick.{tick, count_down, finishes, tick_body, run_next, update_parity}
use emu8051_stc.Stc.Idle.{clock}
use emu8051_stc.Stc.Idle.Run.{clocks}
use emu8051_stc.Core.Load.Image.{AllBytes}
use emu8051_stc.Debug.{
  Target, Breakpoint, bp_code, bp_write, running, halted, step_cycle, step_insn, halt_step, halt_bp,
  space_iram, space_sfr,
}
use emu8051_stc.Debug.Control.{dbg_reset, dbg_init, dbg_run, dbg_step, no_breakpoint}
use emu8051_stc.Debug.Memory.{watched, read_byte, taken, dbg_read_mem, dbg_write_mem}
use emu8051_stc.Debug.Memory.Laws.{has_byte}
use emu8051_stc.Debug.Memory.Buffer.{Covers, dbg_read_mem-dbg_write_mem}
use emu8051_stc.Debug.Breakpoints.{
  has_handle, clear_slot, is_watching, first_slot, is_free, fill_slot, set_slot, dbg_set_breakpoint,
  dbg_clear_breakpoint, update_bp,
}
use emu8051_stc.Debug.Breakpoints.Laws.{AreDistinct}
use emu8051_stc.Debug.Breakpoints.Handles.{breakpoints-AreDistinct}
use emu8051_stc.Debug.Breakpoints.Shadows.{set, clear, edited, bp_hit-dbg_reset}
use emu8051_stc.Debug.Breakpoints.Cleared.{dbg_clear_breakpoint-dbg_set_breakpoint}
use emu8051_stc.Debug.Tick.{bp_hit, dbg_tick, is_cycle}
use emu8051_stc.Debug.Tick.Laws.{is_halted, Stopped}
use emu8051_stc.Debug.Tick.Halts.{after_clock, dbg_tick-clock}
use emu8051_stc.Debug.Tick.Instructions.{instructions, IsUnwatched, ends_at}
use emu8051_stc.Debug.Tick.Watches.{Reports, dbg_tick-watch}
use emu8051_stc.Debug.Tick.Runs.{Ticks, dbg_run-clocks, dbg_step-instructions}
use emu8051_stc.Debug.Tick.Cycles.{dbg_ticks, dbg_step-cycles}
use emu8051_stc.Tests.Stc.{peripherals, with_registers, no_hooks}

-- A machine of NOP instructions, without the peripherals' clock, and its target, attached.
abbrev pub nops : Cpu (Stc ℕ)
nops = record (with_registers (λ i. 0)) { env = record peripherals { stc12_mode = false } }

abbrev pub handlers : OpTable
handlers = op_setptrs (λ x. none)

abbrev pub attached : Target ℕ ℕ
attached = dbg_init nops no_hooks handlers 0

-- A breakpoint at address 1.
abbrev pub at_one : Breakpoint
at_one = record no_breakpoint { addr = 1 }

-- A watch of a register.
abbrev watch : Breakpoint
watch = record no_breakpoint { kind = bp_write; addr = 0x10; watch_space = space_iram }

attached-AreDistinct : AreDistinct attached
unfolding dbg_init
attached-AreDistinct = record { given = λ i lt on. cc; own = λ i j li lj oni onj same. cc }

breakpoints-AreDistinct_example :
    AreDistinct (dbg_set_breakpoint attached watch).1
    × AreDistinct (dbg_clear_breakpoint attached 1)
unfolding dbg_init
breakpoints-AreDistinct_example =
    breakpoints-AreDistinct attached watch 1 attached-AreDistinct (omega arith)

handle-one : (dbg_set_breakpoint attached at_one).0 ≡ some 1
unfolding dbg_set_breakpoint dbg_init first_slot is_free set_slot is_watching
handle-one = refl

dbg_clear_breakpoint-dbg_set_breakpoint_example :
    let t2 = dbg_clear_breakpoint (dbg_set_breakpoint attached at_one).1 1 in
    ((t2.bps 0).active ≡ (attached.bps 0).active)
    × (((attached.bps 0).active ≡ false) ⊎ (t2.bps 0 ≡ attached.bps 0))
dbg_clear_breakpoint-dbg_set_breakpoint_example =
    dbg_clear_breakpoint-dbg_set_breakpoint attached at_one 1 attached-AreDistinct handle-one 0

stored-Covers : Covers nops space_iram 0x10 2
unfolding Covers has_byte
stored-Covers = λ i lt. ground arith

bytes-AllBytes : AllBytes (0x12 ∷ 0xff ∷ [])
unfolding AllBytes
bytes-AllBytes = (omega arith, (omega arith, tt))

dbg_read_mem-dbg_write_mem_example :
    dbg_read_mem
      (dbg_write_mem nops space_iram 0x10 (0x12 ∷ 0xff ∷ []))
      space_iram
      0x10
      (0 ∷ 0 ∷ [])
    ≡ 0x12 ∷ 0xff ∷ []
dbg_read_mem-dbg_write_mem_example =
    dbg_read_mem-dbg_write_mem space_iram (omega arith) (0x12 ∷ 0xff ∷ []) (0 ∷ 0 ∷ []) 0x10 nops
      refl (omega arith) bytes-AllBytes stored-Covers

-- `INC A` for ever, with a watch of the accumulator.
abbrev pub watching : Target ℕ ℕ
watching =
    let inc = dbg_init (record nops { code_mem = λ i. 0x04 }) no_hooks handlers 0 in
    let watch_acc = record no_breakpoint {
      kind = bp_write;
      addr = 0xe0;
      watch_space = space_sfr;
    } in
    dbg_run (dbg_set_breakpoint inc watch_acc).1

watch-edited : ((edited (dbg_reset 0 watching) (clear 7 ∷ set at_one ∷ [])).bps 0).kind ≡ bp_write
unfolding edited dbg_reset dbg_run dbg_set_breakpoint dbg_clear_breakpoint has_handle clear_slot
    dbg_init is_watching first_slot is_free set_slot fill_slot update_bp
watch-edited = refl

-- The watch of the accumulator, after a reset.
bp_hit-dbg_reset_example :
    bp_hit (edited (dbg_reset 0 watching) (clear 7 ∷ set at_one ∷ [])) 0 ≡ none
bp_hit-dbg_reset_example =
    bp_hit-dbg_reset watching 0 (clear 7 ∷ set at_one ∷ []) 0 (omega arith) watch-edited
