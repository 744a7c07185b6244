-- ===== src/Core.antt =====
-- core.c: the timers and the serial port, the interrupts, one tick of the emulator, the reset and the
-- loader of Intel HEX files.
pub mod Timer
pub mod Interrupt
pub mod Tick
pub mod Reset
pub mod Load
