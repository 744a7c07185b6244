-- ===== src/Tests/Stc.antt =====
-- Runs of the STC peripherals.
use emu8051_stc.Prelude.{
  ℕ, ◌+◌, ◌≡◌, inl, refl, arith, true, false, none, some, bit_or, ◌==◌, ◌&&◌, not, if◌then◌else◌,
  update, update-IsBytes, IsBytes,
}
use emu8051_stc.Cpu.{Cpu, Hooks, set_sfr}
use emu8051_stc.Ops.Table.{OpTable, op_setptrs}
use emu8051_stc.Core.Timer.{has, tick_timer0}
use emu8051_stc.Stc.{Stc, set_stc}
use emu8051_stc.Mem.{opened}
use emu8051_stc.Core.Tick.{parity}
use emu8051_stc.Core.Interrupt.{pca_pending}
use emu8051_stc.Stc.Idle.{
  idle_skip_clocks, jump, only_timer0, right_model, wake_armed, nothing_pending, timer0_counts,
  nothing_else_counts, skipped, skip_ticks, count_on, counter16, ticks_to_overflow, clock_divisor,
  timer0_mode,
}
use emu8051_stc.Stc.Idle.Guards.{Settled}
use emu8051_stc.Stc.Idle.Run.{clocks}
use emu8051_stc.Stc.Idle.Jump.{note_skip, jump-clocks}
use emu8051_stc.Stc.Serial.{sfr_write_auxr1}
use emu8051_stc.Stc.Serial.Dptr.{sfr_write_auxr1-roundtrip}
use emu8051_stc.Stc.Pins.{pins}
use emu8051_stc.Stc.Ports.{apply_port_mode}
use emu8051_stc.Stc.Ports.Laws.{value, pin_level, pin_of, apply_port_mode-levels}
use emu8051_stc.Stc.Timers.{timer0_count}
use emu8051_stc.Stc.Timers.Laws.{timer0_count-core}
use emu8051_stc.Stc.Wdt.{wdt_divisor}
use emu8051_stc.Stc.Wdt.Laws.{wdt_ticks, with_cnt, wdt_ticks-never}
use emu8051_stc.Stc.Tick.{t2_count}
use emu8051_stc.Stc.Tick.Timer2.{timer2, rcap2, t2_count-timer2}
use emu8051_stc.Tests.{cells, cells-IsBytes}

-- Peripherals of an STC12 of which none is running; `board_user_data` counts.
abbrev pub peripherals : Stc ℕ
peripherals = record {
  timer0_prescaler = 0;
  timer1_prescaler = 0;
  brt_prescaler = 0;
  adc_countdown = 0;
  adc_input = λ _. 0x2a5;
  dptr1_l = 0x34;
  dptr1_h = 0x12;
  last_dps = 0;
  wdt_counter = 0;
  wdt_prescaler_cnt = 0;
  pca_prescaler = 0;
  pca_t0_overflow_pending = false;
  pca_cex_last = λ _. 0;
  last_tf1 = 0;
  stc89_scaled = false;
  port_ext = λ _. 0xff;
  stc12_mode = true;
  fosc = 11059200;
  pin_history = none;
  pin_history_head = 0;
  pin_history_count = 0;
  part_id = 0;
  unmodelled_sfr_accesses = 0;
  on_pin_change = some (λ _ _ _ _ n. n + 1);
  on_read_pin = none;
  on_read_analog = none;
  on_advance = none;
  on_serial_tx = none;
  on_serial2_tx = none;
  board_user_data = 0;
  rx_fifo = λ _. 0x41;
  rx_head = 63;
  rx_len = 2;
  rx_next_clock = 0;
  osc_clocks = 5;
  idle_skipped_clocks = 0;
  ns_per_clock_x256 = 23148;
  pin_m1_shadow = λ _. 0;
  pin_m0_shadow = λ _. 0;
  pin_drive_shadow = λ _. 0xff;
}

-- A machine with these peripherals and three registers set.
abbrev pub with_registers : (ℕ → ℕ) → Cpu (Stc ℕ)
with_registers sfr = record {
  code_mem = λ _. 0;
  code_mem_max_idx = 0xffff;
  ext_data = none;
  ext_data_max_idx = 0;
  lower_data = λ _. 0;
  upper_data = none;
  sfr = sfr;
  pc = 0;
  tick_delay = 1;
  machine_cycle_scale = 1;
  interrupt_active = 0;
  int_a = λ _. 0;
  int_psw = λ _. 0;
  int_sp = λ _. 0;
  serial_out = λ _. 0;
  serial_out_idx = 0;
  serial_out_remaining_bits = 0;
  serial_interrupt_trigger = false;
  skip_timers = true;
  env = peripherals;
}

-- Idle, with timer 0 in mode 1 at 0xfff0 as what wakes it.
abbrev idle_registers : ℕ → ℕ
idle_registers =
    update (update (update (cells 0x07 0x01 0x28 0x82 0x08 0x10) 0x09 0x01) 0x0a 0xf0) 0x0c 0xff

idle_registers-IsBytes : IsBytes idle_registers
idle_registers-IsBytes =
    update-IsBytes _ 0x0c 0xff
      (update-IsBytes _ 0x0a 0xf0
        (update-IsBytes _ 0x09 0x01
          (cells-IsBytes 0x07 0x01 0x28 0x82 0x08 0x10 (omega arith) (omega arith) (omega arith))
          (omega arith))
        (omega arith))
      (omega arith)

abbrev idle : Cpu (Stc ℕ)
idle = record (with_registers idle_registers) { env = record peripherals { rx_len = 0 } }

abbrev pub no_hooks : Hooks (Stc ℕ)
no_hooks = record {
  except = none;
  sfrread = λ r. none;
  sfrwrite = λ r. none;
  xread = none;
  xwrite = none;
}

idle-Settled : Settled idle
unfolding has pca_pending parity opened
idle-Settled = record {
  delay = refl;
  scale = refl;
  no_pca = refl;
  parity_set = refl;
  received = refl;
  pre0 = omega arith;
  pre1 = omega arith;
  clock_lt = omega arith;
  rates = inl refl;
}

-- The machine after 96 of at most 100 clocks, 8 counts of timer 0.
abbrev idle_later : Cpu (Stc ℕ)
idle_later =
    let c = set_sfr (set_sfr idle 0x0a 0xf8) 0x0c 0xff in
    set_stc c (record c.env { idle_skipped_clocks = 96; osc_clocks = 101 })

abbrev table : OpTable
table = op_setptrs (λ _. none)

idle-jumps : jump idle true 100 ≡ some idle_later
unfolding jump idle_skip_clocks only_timer0 right_model wake_armed nothing_pending timer0_counts
    nothing_else_counts skipped skip_ticks count_on counter16 ticks_to_overflow clock_divisor
    timer0_mode has set_stc set_sfr
idle-jumps = refl

jump-clocks_example :
    let n = (idle_skip_clocks idle true 100).0 in
    idle_later ≡ note_skip n (clocks no_hooks table n idle)
jump-clocks_example =
    jump-clocks no_hooks table idle true 100 idle_later idle_registers-IsBytes idle-Settled
      idle-jumps

-- A byte has been received and not been taken, and two wait in the ring, over its end.
abbrev receiving : ℕ → Cpu (Stc ℕ)
receiving scon = with_registers (cells 0x18 scon 0x28 0x90 0x19 0x40)

apply_port_mode-levels_example :
    apply_port_mode 0xa5 0x3c 0x0f 0x33
    ≡ value pins
        (λ bit. pin_level (pin_of 0xa5 bit) (pin_of 0x3c bit) (pin_of 0x0f bit) (pin_of 0x33 bit))
apply_port_mode-levels_example =
    apply_port_mode-levels 0xa5 0x3c 0x0f 0x33 (omega arith) (omega arith)

-- A conversion of channel 1, which P1ASF enables.
abbrev converting : Cpu (Stc ℕ)
converting = with_registers (cells 0x3c 0x89 0x1d 0x02 0x22 0x04)

-- The data pointer is 0x5678 and the other one 0x1234.
abbrev pointing : Cpu (Stc ℕ)
pointing = with_registers (cells 0x02 0x78 0x03 0x56 0x22 0x04)

sfr_write_auxr1-roundtrip_example :
    let d = sfr_write_auxr1 (set_sfr pointing 0x22 0x05) 0xa2 in
    ((d.sfr 0x02 ≡ 0x34) × (d.sfr 0x03 ≡ 0x12))
    × ((d.env.dptr1_l ≡ 0x78) × (d.env.dptr1_h ≡ 0x56))
    × (d.env.last_dps ≡ 1)
    × (sfr_write_auxr1 (set_sfr d 0x22 0x04) 0xa2 ≡ pointing)
sfr_write_auxr1-roundtrip_example =
    sfr_write_auxr1-roundtrip pointing 0xa2 0x05
      (record {
        dpl = omega arith;
        dph = omega arith;
        dptr1_l = omega arith;
        dptr1_h = omega arith;
      })
      (omega arith) refl (omega arith)

timer0_count-core_example : (timer0_count idle).1 ≡ tick_timer0 idle
timer0_count-core_example = timer0_count-core idle (omega arith)

-- The watchdog, with its prescaler at 256 and at 4.
abbrev watched : ℕ → Cpu (Stc ℕ)
watched wdt = with_registers (cells 0x41 wdt 0 0 0 0)

wdt_ticks-never_example : wdt_ticks 1000000 (with_cnt (watched 0x27) 0) ≡ with_cnt (watched 0x27) 64
unfolding has wdt_divisor
wdt_ticks-never_example = wdt_ticks-never (watched 0x27) refl 1000000 refl

-- Timer 2 at 65535, to be reloaded with 0x34.
abbrev timer2_full : Cpu (Stc ℕ)
timer2_full = with_registers (cells 0x4c 0xff 0x4d 0xff 0x4a 0x34)

t2_count-timer2_example :
    let d = t2_count timer2_full in
    (timer2 d ≡ (
      if timer2 timer2_full == 0xffff
      then (if has timer2_full 0x48 0x01 then 0 else rcap2 timer2_full)
      else timer2 timer2_full + 1))
    × (d.sfr 0x48 ≡ (
        if timer2 timer2_full == 0xffff && not (has timer2_full 0x48 0x30)
        then bit_or 0 0x80
        else 0))
t2_count-timer2_example =
    t2_count-timer2 timer2_full
      (cells-IsBytes 0x4c 0xff 0x4d 0xff 0x4a 0x34 (omega arith) (omega arith) (omega arith))
