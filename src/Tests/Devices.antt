-- ===== src/Tests/Devices.antt =====
-- Runs of the timers, the serial port and the reset.
use emu8051_stc.Prelude.{ℕ, ◌+◌, bit_or, ◌≡◌, refl, arith, true, update-IsBytes, ◌<◌, update}
use emu8051_stc.Cpu.{Cpu}
use emu8051_stc.Cpu.Valid.{IsValid}
use emu8051_stc.Cpu.Regs.{reg_tcon}
use emu8051_stc.Core.Timer.{has, t0_runs, t1_runs, timer_tick}
use emu8051_stc.Core.Timer.Valid.{timer_tick-IsValid}
use emu8051_stc.Core.Timer.Laws.{counter16}
use emu8051_stc.Core.Timer.Overflow.{IsCounting, timer_ticks, timer_ticks-overflow}
use emu8051_stc.Tests.{cells, cells-IsBytes, machine, machine-IsValid}

-- Timer 0 runs, in a mode and at a count of 0xff and a byte.
abbrev counting : ℕ → ℕ → Cpu ℕ
counting mode tl0 = record (machine (cells 0 0 1 0 2 0) (cells 9 mode 8 0x10 0x0a tl0) 1) {
  sfr = update (cells 9 mode 8 0x10 0x0a tl0) 0x0c 0xff;
}

counting-IsValid : (mode tl0 : ℕ) → mode < 0x100 → tl0 < 0x100 → IsValid (counting mode tl0)
counting-IsValid mode tl0 hm ht =
    let bytes = cells-IsBytes 9 mode 8 0x10 0x0a tl0 hm (omega arith) ht in
    machine-IsValid (cells 0 0 1 0 2 0) _ 1
      (cells-IsBytes 0 0 1 0 2 0 (omega arith) (omega arith) (omega arith))
      (update-IsBytes _ 0x0c 0xff bytes (omega arith))

timer_tick-IsValid_example : IsValid (timer_tick (counting 1 0xff))
timer_tick-IsValid_example =
    timer_tick-IsValid (counting-IsValid 1 0xff (omega arith) (omega arith))

counting-IsCounting : IsCounting (counting 1 0xfe)
unfolding t0_runs t1_runs has
counting-IsCounting = record { runs = refl; mode = refl; alone = refl }

timer_ticks-overflow_example :
    let c = counting 1 0xfe in
    let b = timer_ticks 1 c in
    let d = timer_ticks 2 c in
    (b.sfr reg_tcon ≡ c.sfr reg_tcon)
    × (counter16 b ≡ counter16 c + 1)
    × (d.sfr reg_tcon ≡ bit_or (c.sfr reg_tcon) 0x20)
    × (has d reg_tcon 0x20 ≡ true)
    × (counter16 d ≡ 0)
timer_ticks-overflow_example =
    timer_ticks-overflow 1 1 (counting 1 0xfe) (counting-IsValid 1 0xfe (omega arith) (omega arith))
      counting-IsCounting refl (omega arith)
