-- ===== src/Ops.antt =====
-- opcodes.c: the handlers of the instructions, and the two ways to find the handler of an opcode.
-- A handler returns the ticks that it asks for and the machine that it leaves.
pub mod Alu
pub mod Logic
pub mod Jump
pub mod Bit
pub mod Move
pub mod Handler
pub mod Next
pub mod Table
pub mod Switch
