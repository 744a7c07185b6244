-- ===== src/Lib.antt =====
-- emu8051: an emulator of the 8051 and of STC microcontrollers. This library models its core, the
-- machine, every instruction, the timers, the serial port, the interrupts, the tick, the reset and
-- the loader, the peripherals of the STC parts, the disassembler and the debugger.
--
-- The parts and their files:
--
-- Cpu: `struct em8051` of emu8051.h as a record, the callbacks as the record `Hooks`, the stores
-- into the fields. Cpu/Regs: the enums. Cpu/Valid: the predicate `IsValid`, that the memories and
-- registers hold bytes and the counter, the delay, the levels in service and the index into
-- `serial_out` are in range. A memory is a function of the index, `update` is a store, and a
-- pointer that may be NULL is an option. `env` stands for what the callbacks keep outside the
-- struct.
--
-- Mem: the macros at the head of opcodes.c and the static functions that read and write memory and
-- the stack, with the callbacks of the registers. A C function that changes the machine takes it and
-- returns it, with what it returns first. Mem/Stack: the laws of the stack. Mem/Valid: the
-- invariant `AreValid` of callbacks, and that the accesses keep `IsValid`.
--
-- Flags: `add_solve_flags` and `sub_solve_flags` of opcodes.c. Flags/Laws: against arithmetic.
--
-- Ops: the 111 handlers of opcodes.c under their own names, in Ops/Alu (numbers), Ops/Logic,
-- Ops/Jump, Ops/Bit and Ops/Move. A handler gives the ticks that it returns and the machine. Its
-- helpers are named for what they do. Ops/Handler: the handlers as values (`Op`), which stand for
-- function pointers, and the call of one (`exec`). Ops/Table: `op_setptrs`. Ops/Switch: `do_op`.
--
-- Core: core.c. Core/Timer: `timer_tick` and `serial_tx`. Core/Interrupt: `handle_interrupts`, as
-- what it polls (`pick`) and what it does (`take`, `enter`). Core/Tick: `tick`. Core/Reset: `reset`.
-- A tick counts a delay down, and when it is over polls the interrupts, runs the instruction
-- through the table and sets the next delay; then the timers and the serial port count.
-- Core/Load: `load_obj`, on the characters of the file. Its loop over the records runs on fuel, two
-- more than the characters behind the first colon: an iteration takes at least one character or
-- meets the end. `strtol` is a parameter. Core/Load/Image, Core/Load/Records, Core/Load/File and
-- Core/Load/Extended: the text of a file and what its load gives.
--
-- Stc: stc12.c and stc12.h, the peripherals. The state `Stc` is the `env` of the machine, which
-- stands for the pointers `g_stc` and `g_cpu` of the file, and the callbacks of the registers are
-- entries of `Hooks`. `stc12_tick`, in Stc/Tick, runs after each `tick` of the processor and calls
-- the parts in the order of the source: the receive queue (Stc/Serial), the timers (Stc/Timers), the
-- converter (Stc/Adc), the counter array (Stc/Pca) and the watchdog (Stc/Wdt). Stc/Pins and
-- Stc/Ports: the emission of pin changes and the reads of the ports. Stc/Config and Stc/Init: the
-- settings, the tables of the parts, the initialisation and which callbacks it installs. Stc/Idle:
-- the run to a point in time (`advance_to`) and the jump over idle clocks. Its children lead from
-- what a clock does to a parked processor (Parked, Moved, Count, Run) to the jump (Guards, Whole,
-- Jump). The callbacks of a board are optional functions on what lies behind `board_user_data`.
--
-- Disasm: disasm.c. Each decoder, in Disasm/Alu, Disasm/Logic, Disasm/Jump, Disasm/Bit and
-- Disasm/Move, gives the text that it writes, as a list of characters, and the length that it
-- returns. Disasm/Text: the conversions of `sprintf` that the file uses. Disasm/Names: the names of
-- bytes and bits. Disasm/Fetch: the macros. Disasm/Table: `disasm_setptrs`. A decoder has the name of
-- its handler and so is a value of `Op` too, which Disasm/Decoder calls; Disasm.antt is `decode` of
-- core.c. Ops/Next: which handlers jump (`jumps`) and by how much the others advance the counter, for
-- the comparison with the lengths in Disasm/Agree.
--
-- Debug: debug.c and debug.h. The record `Target` holds the machine, its callbacks and its table in
-- place of the pointer to them. Debug/Tick: `dbg_tick`, a clock of the processor and its peripherals
-- (`clock` of Stc/Idle) with the profile (Debug/Profile), the breakpoints and the steps.
-- Debug/Control: run, halt, step, reset. Debug/Breakpoints: the 32 slots. Debug/Memory: reads and
-- writes of the five spaces, and the registers. A space is a number, since front ends hand one over.
--
-- Numbers are natural numbers. The width of a store is written out as a remainder where the value
-- may be wider than the field; the counts of steps and of instructions run, C's `int`, are not
-- cut. A signed displacement is added modulo 2^16. The loops over the registers of the table, the
-- pins of a port, the modules of the PCA and the buffers of the debugger are over lists, and the
-- search of its 32 slots is over the count of those left. The loop of `stc12_advance_to`,
-- `advance_to`, runs on fuel, a turn each, and gives nothing where the fuel is out; the result on
-- jumps is about a turn of it and needs no fuel.
--
-- The callbacks are not of this repository's core and are parameters: the theorems on validity
-- and on the operands of ADD and SUBB suppose that they keep the machine valid, the comparison
-- with the disassembler that they keep the counter, and all others hold for any callback. What
-- `rand` gives to `reset` is an argument.
--
-- Not modelled: the branches under `__8052__`, which the build does not define; checkpoint.c, the
-- file format of a checkpoint; trace.c, which prints a log; wasm_api.c, wrappers over the core, the
-- peripherals and the debugger; of stc12.c the supply voltage and the conversion of volts to counts,
-- which are in doubles and belong to the callback `on_read_analog` here, and the setters that only
-- store a pointer; the terminal interface (emu.c, mainview.c, logicboard.c, memeditor.c, options.c,
-- popups.c, emu_serial_bridge.c), which is input and output; the tests, the AVR adapter and the
-- tools.
pub mod Prelude
pub mod Cpu
pub mod Mem
pub mod Flags
pub mod Ops
pub mod Core
pub mod Stc
pub mod Disasm
pub mod Debug
pub mod Tests
