-- ===== src/Tests/Control.antt =====
-- Runs of calls, interrupts and whole ticks.
use emu8051_stc.Prelude.{
  ℕ, ◌+◌, ◌*◌, ◌<◌, ◌≡◌, inl, refl, arith, ◌==◌, if◌then◌else◌, true, false, some, none,
}
use emu8051_stc.Cpu.{Cpu, set_tick_delay, set_interrupt_active}
use emu8051_stc.Cpu.Valid.{IsValid}
use emu8051_stc.Cpu.Regs.{reg_sp, reg_ie}
use emu8051_stc.Mem.{opened, opcode, write_mem_indir, push_to_stack}
use emu8051_stc.Ops.Handler.{Op, exec}
use emu8051_stc.Ops.Move.{nop}
use emu8051_stc.Ops.Table.{OpTable, op_setptrs}
use emu8051_stc.Ops.Switch.{switch_op}
use emu8051_stc.Ops.Switch.Agree.{op_setptrs-switch_op}
use emu8051_stc.Ops.Jump.{ret, reti, lcall_address}
use emu8051_stc.Ops.Jump.Calls.{Returned, ret-lcall_address}
use emu8051_stc.Core.Timer.{has, clear_sfr}
use emu8051_stc.Core.Interrupt.{
  enter, acknowledge, save_registers, handle_interrupts, take, pick, no_pick,
}
use emu8051_stc.Core.Interrupt.Priority.{select, sources, pick-select, handle_interrupts_masked}
use emu8051_stc.Core.Interrupt.Valid.{handle_interrupts-IsValid}
use emu8051_stc.Core.Interrupt.Return.{Preserved, reti-enter}
use emu8051_stc.Core.Tick.Timing.{run, run_12t}
use emu8051_stc.Tests.{
  cells, cells-IsBytes, machine, machine-IsValid, callbacks, callbacks-AreValid,
}

-- LCALL 0x0102 with SP = 7, in 12T. Timer 0 asks for a low and INT0 for a high interrupt.
abbrev caller : Cpu ℕ
caller = machine (cells 0 0x12 1 1 2 2) (cells 1 7 0x08 0x22 0x28 0x83) 12

caller-IsValid : IsValid caller
caller-IsValid =
    machine-IsValid _ _ 12 (cells-IsBytes 0 0x12 1 1 2 2 (omega arith) (omega arith) (omega arith))
      (cells-IsBytes 1 7 0x08 0x22 0x28 0x83 (omega arith) (omega arith) (omega arith))

-- A NOP and nothing that asks.
abbrev quiet : Cpu ℕ
quiet = machine (cells 0 0 1 0 2 0) (cells 1 7 0 0 0 0) 12

empty_table : OpTable
empty_table x = none

op_setptrs-switch_op_example :
    (o : Op) × (op_setptrs empty_table 0x84 ≡ some o) × (switch_op 0x84 ≡ some o)
op_setptrs-switch_op_example = op_setptrs-switch_op empty_table 0x84 (omega arith)

opcode-caller : opcode caller < 0x100
unfolding opened
opcode-caller = omega arith

handle_interrupts-IsValid_example : IsValid (handle_interrupts callbacks caller)
handle_interrupts-IsValid_example = handle_interrupts-IsValid callbacks-AreValid caller-IsValid

ret-lcall_address_example :
    Returned
      (lcall_address callbacks caller).1
      (ret callbacks (lcall_address callbacks caller).1).1
      7
      3
ret-lcall_address_example =
    ret-lcall_address callbacks caller (lcall_address callbacks caller).1 (omega arith)
      (omega arith) refl refl refl (λ b lt le. refl)

enter-Preserved : Preserved (enter callbacks caller 3 true)
unfolding enter acknowledge save_registers opened set_tick_delay set_interrupt_active clear_sfr
    push_to_stack write_mem_indir
enter-Preserved = record { same_a = refl; same_sp = refl; same_psw = refl }

reti-enter_example :
    let e = (reti callbacks (enter callbacks caller 3 true)).1 in
    (e.pc ≡ 0)
    × (e.interrupt_active ≡ 0)
    × ((r : ℕ) → e.sfr r ≡ (if r == reg_sp then 7 else (enter callbacks caller 3 true).sfr r))
reti-enter_example =
    reti-enter callbacks caller (enter callbacks caller 3 true) 3 true (omega arith) (omega arith)
      refl refl (omega arith) (inl refl) refl (λ b lt le. refl) refl enter-Preserved

pick-select_example :
    pick caller ≡ (if has caller reg_ie 0x80 then select (sources caller) else no_pick)
pick-select_example = pick-select caller

-- The machine in a routine of high priority.
abbrev serving : Cpu ℕ
serving = record caller { interrupt_active = 2 }

handle_interrupts_masked_example : handle_interrupts callbacks serving ≡ serving
handle_interrupts_masked_example = handle_interrupts_masked callbacks serving (inl (omega arith))

quiet-handle_interrupts : handle_interrupts callbacks quiet ≡ quiet
unfolding handle_interrupts take pick has
quiet-handle_interrupts = refl

quiet-nop : op_setptrs empty_table (opcode quiet) ≡ some Op.nop
unfolding opened op_setptrs
quiet-nop = refl

quiet-scale : (exec callbacks Op.nop quiet).1.machine_cycle_scale ≡ 12
unfolding exec nop opened
quiet-scale = refl

quiet-pcon : (has quiet 7 2 ≡ false) × (has quiet 7 1 ≡ false)
unfolding has
quiet-pcon = (refl, refl)

run_12t_example :
    let (k, d) =
      run callbacks (op_setptrs empty_table) (((exec callbacks Op.nop quiet).0 + 1) * 12) quiet in
    (k ≡ 1) × (d.tick_delay ≡ 0)
run_12t_example =
    run_12t callbacks (op_setptrs empty_table) quiet Op.nop refl quiet-pcon.0 quiet-pcon.1
      quiet-handle_interrupts quiet-nop quiet-scale
