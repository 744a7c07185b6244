-- ===== src/Core/Timer/Valid.antt =====
-- The timers and the serial port keep every field in its width.
use emu8051_stc.Prelude.{ℕ, ◌<◌, arith, Bool, true}
use emu8051_stc.Cpu.{Cpu}
use emu8051_stc.Cpu.Valid.{IsValid, set_sfr-IsValid}
use emu8051_stc.Mem.Valid.{if-IsValid}
use emu8051_stc.Core.Timer.{
  or_sfr, clear_sfr, serial_done, serial_shift, serial_tx, count8, count13, count16, count_reload,
  set_tf0, set_tf1, t1_over, tick_mode3_low, tick_mode3, count_timer0, tick_timer0, count_timer1,
  clock_serial, tick_timer1, timer_tick,
}

module _ {E : Type 0} {c : Cpu E} (h : IsValid c) where
  pub or_sfr-IsValid : (r m : ℕ) → IsValid (or_sfr c r m)
  unfolding or_sfr
  or_sfr-IsValid r m = set_sfr-IsValid h r _

  pub clear_sfr-IsValid : (r m : ℕ) → IsValid (clear_sfr c r m)
  unfolding clear_sfr
  clear_sfr-IsValid r m = set_sfr-IsValid h r _

  open h use {code, ext, lower, upper, sfrs, pc_lt, delay_lt, active_lt, serial_idx}

  shown-IsValid :
      (out : ℕ → ℕ) (idx : ℕ)
      → idx < 18
      → IsValid (record c { serial_out = out; serial_out_idx = idx })
  shown-IsValid out idx lt = record {
    code = code;
    ext = ext;
    lower = lower;
    upper = upper;
    sfrs = sfrs;
    pc_lt = pc_lt;
    delay_lt = delay_lt;
    active_lt = active_lt;
    serial_idx = lt;
  }

  pub trigger-IsValid : (b : Bool) → IsValid (record c { serial_interrupt_trigger = b })
  trigger-IsValid b = record {
    code = code;
    ext = ext;
    lower = lower;
    upper = upper;
    sfrs = sfrs;
    pc_lt = pc_lt;
    delay_lt = delay_lt;
    active_lt = active_lt;
    serial_idx = serial_idx;
  }

  left-IsValid : (n : ℕ) → IsValid (record c { serial_out_remaining_bits = n })
  left-IsValid n = record {
    code = code;
    ext = ext;
    lower = lower;
    upper = upper;
    sfrs = sfrs;
    pc_lt = pc_lt;
    delay_lt = delay_lt;
    active_lt = active_lt;
    serial_idx = serial_idx;
  }

module _ {E : Type 0} {c : Cpu E} (h : IsValid c) where
  serial_done-IsValid : IsValid (serial_done c)
  unfolding serial_done
  serial_done-IsValid =
      let v = or_sfr-IsValid (shown-IsValid h _ _ (omega arith)) _ _ in
      if-IsValid _ _ _ (trigger-IsValid v true) v

module _ {E : Type 0} {c : Cpu E} (h : IsValid c) where
  serial_tx-IsValid : IsValid (serial_tx c)
  unfolding serial_tx serial_shift
  serial_tx-IsValid =
      search (if-IsValid, serial_done-IsValid, or_sfr-IsValid, clear_sfr-IsValid, left-IsValid)
        depth 9

-- What an overflow does keeps the machine valid.
abbrev KeepsValid : {E : Type 0} → (Cpu E → Cpu E) → Type 0
KeepsValid {E} f = (c : Cpu E) → IsValid c → IsValid (f c)

module _ {E : Type 0} {over : Cpu E → Cpu E} (ok : KeepsValid over) where
  count8-IsValid : (r : ℕ) → KeepsValid (count8 over r)
  unfolding count8
  count8-IsValid r c h = search (if-IsValid, set_sfr-IsValid, ok)

  count13-IsValid : (tl th : ℕ) → KeepsValid (count13 over tl th)
  unfolding count13
  count13-IsValid tl th c h = search (if-IsValid, set_sfr-IsValid, count8-IsValid)

  count16-IsValid : (tl th : ℕ) → KeepsValid (count16 over tl th)
  unfolding count16
  count16-IsValid tl th c h = search (if-IsValid, set_sfr-IsValid, count8-IsValid)

  count_reload-IsValid : (tl th : ℕ) → KeepsValid (count_reload over tl th)
  unfolding count_reload
  count_reload-IsValid tl th c h = search (if-IsValid, set_sfr-IsValid, ok)

module _ {E : Type 0} where
  set_tf0-IsValid : KeepsValid {E = E} set_tf0
  unfolding set_tf0
  set_tf0-IsValid c h = or_sfr-IsValid h _ _

  set_tf1-IsValid : KeepsValid {E = E} set_tf1
  unfolding set_tf1
  set_tf1-IsValid c h = or_sfr-IsValid h _ _

  t1_over-IsValid : KeepsValid {E = E} t1_over
  unfolding t1_over
  t1_over-IsValid c h = search (if-IsValid, set_tf1-IsValid)

ruleset counting = (
  if-IsValid, set_tf0-IsValid, set_tf1-IsValid, t1_over-IsValid, count8-IsValid, count13-IsValid,
  count16-IsValid, count_reload-IsValid,
)

module _ {E : Type 0} {c : Cpu E} (h : IsValid c) where
  tick_mode3_low-IsValid : IsValid (tick_mode3_low c)
  unfolding tick_mode3_low
  tick_mode3_low-IsValid = search counting

  tick_mode3-IsValid : IsValid (tick_mode3 c)
  unfolding tick_mode3
  tick_mode3-IsValid = search (counting, tick_mode3_low-IsValid)

  tick_timer0-IsValid : IsValid (tick_timer0 c)
  unfolding tick_timer0 count_timer0
  tick_timer0-IsValid = search counting depth 8

  count_timer1-IsValid : IsValid (count_timer1 c)
  unfolding count_timer1
  count_timer1-IsValid = search counting depth 8

  clock_serial-IsValid : IsValid (clock_serial c)
  unfolding clock_serial
  clock_serial-IsValid = search (if-IsValid, clear_sfr-IsValid, serial_tx-IsValid)

module _ {E : Type 0} {c : Cpu E} (h : IsValid c) where
  tick_timer1-IsValid : IsValid (tick_timer1 c)
  unfolding tick_timer1
  tick_timer1-IsValid = search (if-IsValid, clock_serial-IsValid, count_timer1-IsValid)

-- `timer_tick` keeps the machine valid.
pub timer_tick-IsValid : {E : Type 0} {c : Cpu E} → IsValid c → IsValid (timer_tick c)
unfolding timer_tick
timer_tick-IsValid h =
    search (if-IsValid, tick_mode3-IsValid, tick_timer0-IsValid, tick_timer1-IsValid)
