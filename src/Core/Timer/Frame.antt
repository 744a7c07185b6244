-- ===== src/Core/Timer/Frame.antt =====
-- A tick of the timers leaves the delay of the instruction and the clocks of a cycle as they are.
use emu8051_stc.Prelude.{ℕ, ◌≡◌, refl, if◌then◌else◌, Bool, true, false}
use emu8051_stc.Cpu.{Cpu, set_sfr}
use emu8051_stc.Core.Timer.{
  or_sfr, clear_sfr, serial_done, serial_shift, serial_tx, count8, count13, count16, count_reload,
  set_tf0, set_tf1, t1_over, tick_mode3_low, tick_mode3, count_timer0, tick_timer0, count_timer1,
  clock_serial, tick_timer1, timer_tick,
}

-- Everything that a tick reads of the machine besides the timers.
pub record Keeps {E : Type 0} (c d : Cpu E) : Type 0 where
  pub delay : d.tick_delay ≡ c.tick_delay
  pub scale : d.machine_cycle_scale ≡ c.machine_cycle_scale

pub if-Keeps :
    {E : Type 0} {a : Cpu E} (b : Bool) (x y : Cpu E)
    → Keeps a x
    → Keeps a y
    → Keeps a (if b then x else y)
if-Keeps true x y h k = h
if-Keeps false x y h k = k

pub Keeps-refl : {E : Type 0} {a : Cpu E} → Keeps a a
Keeps-refl = record { delay = refl; scale = refl }

module _ {E : Type 0} {a c : Cpu E} (h : Keeps a c) where
  set_sfr-Keeps : (r v : ℕ) → Keeps a (set_sfr c r v)
  unfolding set_sfr
  set_sfr-Keeps r v = record { delay = h.delay; scale = h.scale }

  shown-Keeps :
      (out : ℕ → ℕ) (idx : ℕ) → Keeps a (record c { serial_out = out; serial_out_idx = idx })
  shown-Keeps out idx = record { delay = h.delay; scale = h.scale }

  trigger-Keeps : (b : Bool) → Keeps a (record c { serial_interrupt_trigger = b })
  trigger-Keeps b = record { delay = h.delay; scale = h.scale }

  left-Keeps : (n : ℕ) → Keeps a (record c { serial_out_remaining_bits = n })
  left-Keeps n = record { delay = h.delay; scale = h.scale }

module _ {E : Type 0} {a c : Cpu E} (h : Keeps a c) where
  or_sfr-Keeps : (r v : ℕ) → Keeps a (or_sfr c r v)
  unfolding or_sfr
  or_sfr-Keeps r v = set_sfr-Keeps h r _

  clear_sfr-Keeps : (r v : ℕ) → Keeps a (clear_sfr c r v)
  unfolding clear_sfr
  clear_sfr-Keeps r v = set_sfr-Keeps h r _

ruleset stores =
    (if-Keeps, or_sfr-Keeps, clear_sfr-Keeps, set_sfr-Keeps, shown-Keeps, trigger-Keeps, left-Keeps)

module _ {E : Type 0} {a c : Cpu E} (h : Keeps a c) where
  serial_done-Keeps : Keeps a (serial_done c)
  unfolding serial_done
  serial_done-Keeps =
      let v = or_sfr-Keeps (shown-Keeps h _ _) _ _ in if-Keeps _ _ _ (trigger-Keeps v true) v

module _ {E : Type 0} {a c : Cpu E} (h : Keeps a c) where
  serial_tx-Keeps : Keeps a (serial_tx c)
  unfolding serial_tx serial_shift
  serial_tx-Keeps = search (stores, serial_done-Keeps) depth 9

-- What an overflow does keeps them too.
abbrev AlwaysKeeps : {E : Type 0} → Cpu E → (Cpu E → Cpu E) → Type 0
AlwaysKeeps {E} a f = (c : Cpu E) → Keeps a c → Keeps a (f c)

module _ {E : Type 0} {a : Cpu E} {over : Cpu E → Cpu E} (ok : AlwaysKeeps a over) where
  count8-Keeps : (r : ℕ) → AlwaysKeeps a (count8 over r)
  unfolding count8
  count8-Keeps r c h = search (if-Keeps, set_sfr-Keeps, ok)

  count13-Keeps : (tl th : ℕ) → AlwaysKeeps a (count13 over tl th)
  unfolding count13
  count13-Keeps tl th c h = search (if-Keeps, set_sfr-Keeps, count8-Keeps)

  count16-Keeps : (tl th : ℕ) → AlwaysKeeps a (count16 over tl th)
  unfolding count16
  count16-Keeps tl th c h = search (if-Keeps, set_sfr-Keeps, count8-Keeps)

  count_reload-Keeps : (tl th : ℕ) → AlwaysKeeps a (count_reload over tl th)
  unfolding count_reload
  count_reload-Keeps tl th c h = search (if-Keeps, set_sfr-Keeps, ok)

module _ {E : Type 0} {a : Cpu E} where
  set_tf0-Keeps : AlwaysKeeps a set_tf0
  unfolding set_tf0
  set_tf0-Keeps c h = or_sfr-Keeps h _ _

  set_tf1-Keeps : AlwaysKeeps a set_tf1
  unfolding set_tf1
  set_tf1-Keeps c h = or_sfr-Keeps h _ _

  t1_over-Keeps : AlwaysKeeps a t1_over
  unfolding t1_over
  t1_over-Keeps c h = search (if-Keeps, set_tf1-Keeps)

ruleset counting = (
  if-Keeps, set_tf0-Keeps, set_tf1-Keeps, t1_over-Keeps, count8-Keeps, count13-Keeps, count16-Keeps,
  count_reload-Keeps,
)

module _ {E : Type 0} {a c : Cpu E} (h : Keeps a c) where
  tick_mode3_low-Keeps : Keeps a (tick_mode3_low c)
  unfolding tick_mode3_low
  tick_mode3_low-Keeps = search counting

  tick_timer0-Keeps : Keeps a (tick_timer0 c)
  unfolding tick_timer0 count_timer0
  tick_timer0-Keeps = search counting depth 8

  count_timer1-Keeps : Keeps a (count_timer1 c)
  unfolding count_timer1
  count_timer1-Keeps = search counting depth 8

  clock_serial-Keeps : Keeps a (clock_serial c)
  unfolding clock_serial
  clock_serial-Keeps = search (if-Keeps, clear_sfr-Keeps, serial_tx-Keeps)

module _ {E : Type 0} {a c : Cpu E} (h : Keeps a c) where
  tick_mode3-Keeps : Keeps a (tick_mode3 c)
  unfolding tick_mode3
  tick_mode3-Keeps = search (counting, tick_mode3_low-Keeps)

  tick_timer1-Keeps : Keeps a (tick_timer1 c)
  unfolding tick_timer1
  tick_timer1-Keeps = search (if-Keeps, clock_serial-Keeps, count_timer1-Keeps)

after-Keeps : {E : Type 0} {a c : Cpu E} → Keeps a c → Keeps a (timer_tick c)
unfolding timer_tick
after-Keeps h = search (if-Keeps, tick_mode3-Keeps, tick_timer0-Keeps, tick_timer1-Keeps)

pub timer_tick-Keeps : {E : Type 0} (c : Cpu E) → Keeps c (timer_tick c)
timer_tick-Keeps c = after-Keeps Keeps-refl
