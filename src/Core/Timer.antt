-- ===== src/Core/Timer.antt =====
-- core.c, `serial_tx` and `timer_tick`: timers 0 and 1 in their four modes, and the serial port
-- that timer 1 clocks.
pub mod Valid
pub mod Laws
pub mod Overflow
pub mod Serial
pub mod Frame
use emu8051_stc.Prelude.{
  ℕ, ◌+◌, ◌-◌, ◌/◌, ◌%◌, ◌^◌, bit_and, bit_or, ◌==◌, ltb, nonzero, if◌then◌else◌, Bool, true, not,
  ◌&&◌, and_not, update,
}
use emu8051_stc.Cpu.{Cpu, set_sfr}
use emu8051_stc.Cpu.Regs.{
  reg_p3, reg_ie, reg_tmod, reg_tcon, reg_th0, reg_tl0, reg_th1, reg_tl1, reg_scon, reg_sbuf,
}

-- `enum TMOD_MASKS`, `TCON_MASKS`, `IE_MASKS` and `SCON_MASKS`, those that are used.
abbrev pub tmod_m_0 : ℕ
tmod_m_0 = 0x03

abbrev pub tmod_ct_0 : ℕ
tmod_ct_0 = 0x04

abbrev pub tmod_gate_0 : ℕ
tmod_gate_0 = 0x08

abbrev pub tmod_m_1 : ℕ
tmod_m_1 = 0x30

abbrev pub tmod_ct_1 : ℕ
tmod_ct_1 = 0x40

abbrev pub tmod_gate_1 : ℕ
tmod_gate_1 = 0x80

abbrev pub tcon_tr0 : ℕ
tcon_tr0 = 0x10

abbrev pub tcon_tf0 : ℕ
tcon_tf0 = 0x20

abbrev pub tcon_tr1 : ℕ
tcon_tr1 = 0x40

abbrev pub tcon_tf1 : ℕ
tcon_tf1 = 0x80

abbrev pub ie_es : ℕ
ie_es = 0x10

abbrev pub scon_ti : ℕ
scon_ti = 0x02

abbrev pub scon_sm1 : ℕ
scon_sm1 = 0x40

module _ {E : Type 0} (c : Cpu E) where
  -- `mSFR[r] & m`, as a condition.
  unfoldable pub has : ℕ → ℕ → Bool
  has r m = nonzero (bit_and (c.sfr r) m)

  -- `mSFR[r] |= m` and `mSFR[r] &= ~m`.
  unfoldable pub or_sfr : ℕ → ℕ → Cpu E
  or_sfr r m = set_sfr c r (bit_or (c.sfr r) m)

  unfoldable pub clear_sfr : ℕ → ℕ → Cpu E
  clear_sfr r m = set_sfr c r (and_not (c.sfr r) m)

  -- `increment`, for each of the timers.
  unfoldable pub t0_runs : Bool
  t0_runs = not (has reg_tmod tmod_gate_0) && has reg_tcon tcon_tr0 && not (has reg_tmod tmod_ct_0)

  unfoldable pub t1_runs : Bool
  t1_runs = not (has reg_tmod tmod_gate_1) && has reg_tcon tcon_tr1 && not (has reg_tmod tmod_ct_1)

  -- Timer 0 is two timers: `T0_MODE3_MASK`.
  unfoldable pub t0_mode3 : Bool
  t0_mode3 = bit_and (c.sfr reg_tmod) tmod_m_0 == tmod_m_0

-- The last bit is out: it is shown, and the interrupt is raised.
unfoldable pub serial_done : {E : Type 0} → Cpu E → Cpu E
serial_done c =
    let shown = record c {
      serial_out = update c.serial_out c.serial_out_idx (c.sfr reg_sbuf);
      serial_out_idx = (c.serial_out_idx + 1) % 18;
    } in
    let c1 = or_sfr shown reg_scon scon_ti in
    if has c1 reg_ie ie_es then record c1 { serial_interrupt_trigger = true } else c1

-- `bool tx_bit = SBUF >> remaining` is whether any of the bits from there up is set.
unfoldable pub serial_shift : {E : Type 0} → Cpu E → Cpu E
serial_shift c =
    let left = c.serial_out_remaining_bits - 1 in
    let c1 = clear_sfr (record c { serial_out_remaining_bits = left }) reg_p3 0x02 in
    let tx_bit = nonzero (c.sfr reg_sbuf / 2 ^ left) in
    let c2 = if tx_bit then or_sfr c1 reg_p3 0x02 else c1 in
    if left == 0 then serial_done c2 else c2

unfoldable pub serial_tx : {E : Type 0} → Cpu E → Cpu E
serial_tx c = if c.serial_out_remaining_bits == 0 then c else serial_shift c

-- The ways to count. `over` is what an overflow of the whole counter does.
module _ {E : Type 0} (over : Cpu E → Cpu E) where
  unfoldable pub count8 : ℕ → Cpu E → Cpu E
  count8 r c =
      let v = c.sfr r + 1 in
      let c1 = set_sfr c r (bit_and v 0xff) in if ltb 0xff v then over c1 else c1

  unfoldable pub count13 : ℕ → ℕ → Cpu E → Cpu E
  count13 tl th c =
      let v = bit_and (c.sfr tl) 0x1f + 1 in
      let c1 = set_sfr c tl (bit_or (and_not (c.sfr tl) 0x1f) (bit_and v 0x1f)) in
      if ltb 0x1f v then count8 th c1 else c1

  unfoldable pub count16 : ℕ → ℕ → Cpu E → Cpu E
  count16 tl th c =
      let v = c.sfr tl + 1 in
      let c1 = set_sfr c tl (bit_and v 0xff) in if ltb 0xff v then count8 th c1 else c1

  unfoldable pub count_reload : ℕ → ℕ → Cpu E → Cpu E
  count_reload tl th c =
      let v = c.sfr tl + 1 in
      let c1 = set_sfr c tl (bit_and v 0xff) in
      if ltb 0xff v then over (set_sfr c1 tl (c1.sfr th)) else c1

-- The flags of an overflow. Timer 1 leaves TF1 to TH0 while timer 0 is in mode 3.
unfoldable pub set_tf0 : {E : Type 0} → Cpu E → Cpu E
set_tf0 c = or_sfr c reg_tcon tcon_tf0

unfoldable pub set_tf1 : {E : Type 0} → Cpu E → Cpu E
set_tf1 c = or_sfr c reg_tcon tcon_tf1

unfoldable pub t1_over : {E : Type 0} → Cpu E → Cpu E
t1_over c = if t0_mode3 c then c else set_tf1 c

module _ {E : Type 0} (c : Cpu E) where
  -- Timer 0 in mode 3: TL0 under the controls of timer 0, then TH0 under those of timer 1.
  unfoldable pub tick_mode3_low : Cpu E
  tick_mode3_low = if t0_runs c then count8 set_tf0 reg_tl0 c else c

  unfoldable pub tick_mode3 : Cpu E
  tick_mode3 = let c1 = tick_mode3_low in if t1_runs c1 then count8 set_tf1 reg_th0 c1 else c1

  -- The switch on the mode of timer 0.
  unfoldable pub count_timer0 : Cpu E
  count_timer0 =
      let mode = bit_and (c.sfr reg_tmod) tmod_m_0 in
      if mode == 0x00
      then count13 set_tf0 reg_tl0 reg_th0 c
      else if mode == 0x01
      then count16 set_tf0 reg_tl0 reg_th0 c
      else if mode == 0x02
      then count_reload set_tf0 reg_tl0 reg_th0 c
      else c

  unfoldable pub tick_timer0 : Cpu E
  tick_timer0 = if t0_runs c then count_timer0 else c

  unfoldable pub count_timer1 : Cpu E
  count_timer1 =
      let mode = bit_and (c.sfr reg_tmod) tmod_m_1 in
      if mode == 0x00
      then count13 t1_over reg_tl1 reg_th1 c
      else if mode == 0x10
      then count16 t1_over reg_tl1 reg_th1 c
      else if mode == 0x20
      then count_reload t1_over reg_tl1 reg_th1 c
      else c

  -- An overflow of timer 1 clocks the serial port in its modes 1 and 3.
  unfoldable pub clock_serial : Cpu E
  clock_serial =
      if has c reg_tcon tcon_tf1 && has c reg_scon scon_sm1
      then clear_sfr (serial_tx c) reg_tcon tcon_tf1
      else c

module _ {E : Type 0} (c : Cpu E) where
  unfoldable pub tick_timer1 : Cpu E
  tick_timer1 = if t1_runs c then clock_serial (count_timer1 c) else c

unfoldable pub timer_tick : {E : Type 0} → Cpu E → Cpu E
timer_tick c = let c1 = if t0_mode3 c then tick_mode3 c else c in tick_timer1 (tick_timer0 c1)
