-- ===== src/Tests/Debug/Clocks.antt =====
-- Runs of the ticks of the debugger.
use emu8051_stc.Prelude.{
  ℕ, ◌-◌, ◌≤◌, ◌==◌, ◌≡◌, refl, arith, true, false, if◌then◌else◌, ◌&&◌, nonzero,
}
use emu8051_stc.Cpu.{set_tick_delay, set_sfr, set_pc}
use emu8051_stc.Mem.{set_acc, acc, set_psw, opcode, codemem, add_pc}
use emu8051_stc.Ops.Handler.{exec}
use emu8051_stc.Ops.Alu.{inc_a}
use emu8051_stc.Stc.Tick.{stc12_tick}
use emu8051_stc.Core.Timer.{has}
use emu8051_stc.Core.Interrupt.{handle_interrupts, take, pick}
use emu8051_stc.Ops.Switch.{call}
use emu8051_stc.Ops.Table.{op_setptrs}
use emu8051_stc.Core.Tick.{tick, count_down, finishes, tick_body, run_next, update_parity}
use emu8051_stc.Stc.Idle.{clock}
use emu8051_stc.Stc.Idle.Run.{clocks}
use emu8051_stc.Debug.{Target, bp_write, running, halted, step_cycle, step_insn, halt_step}
use emu8051_stc.Debug.Control.{dbg_init, dbg_run, dbg_step}
use emu8051_stc.Debug.Memory.{watched, read_byte, taken}
use emu8051_stc.Debug.Breakpoints.{
  is_watching, first_slot, is_free, fill_slot, set_slot, dbg_set_breakpoint, update_bp,
}
use emu8051_stc.Debug.Tick.{dbg_tick, is_cycle}
use emu8051_stc.Debug.Tick.Laws.{is_halted}
use emu8051_stc.Debug.Tick.Halts.{after_clock, dbg_tick-clock}
use emu8051_stc.Debug.Tick.Instructions.{instructions, IsUnwatched, ends_at}
use emu8051_stc.Debug.Tick.Watches.{Reports, dbg_tick-watch}
use emu8051_stc.Debug.Tick.Runs.{Ticks, dbg_run-clocks, dbg_step-instructions}
use emu8051_stc.Debug.Tick.Cycles.{dbg_ticks, dbg_step-cycles}
use emu8051_stc.Tests.Debug.{attached, at_one, watching}

dbg_tick-clock_example :
    ((dbg_tick (dbg_run attached)).0 ≡ is_halted ((dbg_tick (dbg_run attached)).1.state))
    × ((dbg_tick (dbg_run attached)).1.cpu
        ≡ (clock (dbg_run attached).hooks (dbg_run attached).op (dbg_run attached).cpu).1)
unfolding dbg_run
dbg_tick-clock_example = dbg_tick-clock (dbg_run attached) refl

dbg_step-cycles_example :
    let t1 = dbg_ticks 2 (dbg_step attached step_cycle 3) in
    (t1.state ≡ running)
    × (t1.cpu ≡ clocks attached.hooks attached.op 2 attached.cpu)
    × ((dbg_tick t1).0 ≡ (2 - 2 == 0))
    × ((dbg_tick t1).1.state ≡ (if 2 - 2 == 0 then halted else running))
    × ((dbg_tick t1).1.cpu ≡ clocks attached.hooks attached.op 3 attached.cpu)
    × ((dbg_ticks 3 (dbg_step attached step_cycle 3)).last_halt.cause ≡ halt_step)
dbg_step-cycles_example = dbg_step-cycles attached 2 2 (omega arith)

-- Target with a breakpoint at address 1, of which the first clock runs the first NOP.
abbrev stopping : Target ℕ ℕ
stopping = dbg_run (dbg_set_breakpoint attached at_one).1

attached-IsUnwatched : IsUnwatched attached
unfolding IsUnwatched dbg_init
attached-IsUnwatched = λ i lt. refl

dbg_run-clocks_example :
    let t1 = dbg_ticks 2 (dbg_run attached) in
    (t1.state ≡ running)
    × (t1.cpu ≡ clocks attached.hooks attached.op 2 attached.cpu)
    × Ticks attached 2 t1 false
dbg_run-clocks_example = dbg_run-clocks attached attached-IsUnwatched 2

one_ended : instructions attached.hooks attached.op 1 attached.cpu ≤ 1
unfolding instructions
one_ended = ground arith

dbg_step-instructions_example :
    let t1 = dbg_ticks 1 (dbg_step attached step_insn 2) in
    (t1.state ≡ running)
    × (t1.cpu ≡ clocks attached.hooks attached.op 1 attached.cpu)
    × Ticks attached 1 t1
        (ends_at attached 1 && 1 - instructions attached.hooks attached.op 1 attached.cpu == 0)
dbg_step-instructions_example = dbg_step-instructions attached attached-IsUnwatched 1 1 one_ended

on-watching : watching.state ≡ running
unfolding dbg_run
on-watching = refl

boundary-watching : (clock watching.hooks watching.op watching.cpu).0 ≡ true
unfolding clock tick count_down finishes tick_body dbg_run dbg_set_breakpoint dbg_init is_watching
    first_slot is_free set_slot fill_slot set_tick_delay has handle_interrupts take pick
boundary-watching = refl

straight-watching : (nonzero watching.step_count && is_cycle watching.step_kind) ≡ false
unfolding dbg_run
straight-watching = refl

slot-watching : ((watching.bps 0).active ≡ true) × ((watching.bps 0).kind ≡ bp_write)
unfolding dbg_run dbg_set_breakpoint dbg_init is_watching first_slot is_free set_slot fill_slot
    update_bp
slot-watching = (refl, refl)

changed-watching :
    (watched (after_clock watching).cpu (watching.bps 0).watch_space (watching.bps 0).addr
      == watching.watch_shadow 0)
    ≡ false
unfolding after_clock watched clock tick count_down finishes tick_body run_next call op_setptrs
    dbg_run dbg_set_breakpoint dbg_init is_watching first_slot is_free set_slot fill_slot
    set_tick_delay has handle_interrupts take pick stc12_tick update_parity set_psw set_sfr opcode
    codemem exec inc_a add_pc set_pc update_bp read_byte taken set_acc acc
changed-watching = refl

dbg_tick-watch_example :
    ((dbg_tick watching).0 ≡ true)
    × Reports
        (after_clock watching)
        0
        (watched (after_clock watching).cpu (watching.bps 0).watch_space (watching.bps 0).addr)
        (dbg_tick watching).1
dbg_tick-watch_example =
    dbg_tick-watch watching on-watching boundary-watching straight-watching 0 (omega arith)
      (slot-watching.0) (slot-watching.1) (λ j below. absurd (omega arith)) changed-watching
