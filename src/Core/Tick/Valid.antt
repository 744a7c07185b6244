-- ===== src/Core/Tick/Valid.antt =====
-- core.c, `tick`: the validity of the machine behind it.
use emu8051_stc.Prelude.{Bool, true, false, if◌then◌else◌, Option, none, some}
use emu8051_stc.Cpu.{Cpu, Hooks}
use emu8051_stc.Cpu.Valid.{IsValid, set_tick_delay-IsValid}
use emu8051_stc.Mem.Valid.{AreValid, if-IsValid, set_psw-IsValid}
use emu8051_stc.Ops.Table.{OpTable}
use emu8051_stc.Ops.Handler.{Op}
use emu8051_stc.Ops.Handler.Valid.{exec-IsValid}
use emu8051_stc.Ops.Switch.{call}
use emu8051_stc.Core.Timer.Valid.{timer_tick-IsValid}
use emu8051_stc.Core.Interrupt.Valid.{handle_interrupts-IsValid}
use emu8051_stc.Core.Tick.{count_down, update_parity, run_next, tick_body, tick}

update_parity-IsValid : {E : Type 0} {c : Cpu E} → IsValid c → IsValid (update_parity c)
unfolding update_parity
update_parity-IsValid h = set_psw-IsValid h _

module _ {E : Type 0} {hooks : Hooks E} (ok : AreValid hooks) where
  pub call-IsValid : (o : Option Op) {c : Cpu E} → IsValid c → IsValid (call hooks o c).1
  unfolding call
  call-IsValid none h = h
  call-IsValid (some o) {c} h = exec-IsValid hooks ok o c h

module _ {E : Type 0} {hooks : Hooks E} (ok : AreValid hooks) (op : OpTable) {c : Cpu E}
    (h : IsValid c) where
  run_next-IsValid : IsValid (run_next hooks op c)
  unfolding run_next
  run_next-IsValid =
      search (update_parity-IsValid, if-IsValid, set_tick_delay-IsValid, call-IsValid)

module _ {E : Type 0} {hooks : Hooks E} (ok : AreValid hooks) (op : OpTable) {c : Cpu E}
    (h : IsValid c) where
  tick_body-IsValid : IsValid (tick_body hooks op c).1
  unfolding tick_body
  tick_body-IsValid =
      search (if-IsValid, run_next-IsValid, handle_interrupts-IsValid, timer_tick-IsValid) depth 8

ifs-IsValid :
    {E : Type 0} (b : Bool) (p q : Bool × Cpu E)
    → IsValid p.1
    → IsValid q.1
    → IsValid (if b then p else q).1
ifs-IsValid true p q h k = h
ifs-IsValid false p q h k = k

count_down-IsValid : {E : Type 0} {c : Cpu E} → IsValid c → IsValid (count_down c)
unfolding count_down
count_down-IsValid h = search (if-IsValid, set_tick_delay-IsValid)

-- A tick of a valid machine, whose callbacks keep it valid, leaves a valid machine, whatever
-- the table of handlers, the instruction, the interrupt and the timers.
pub tick-IsValid :
    {E : Type 0} {hooks : Hooks E} (ok : AreValid hooks) (op : OpTable) {c : Cpu E}
    → IsValid c
    → IsValid (tick hooks op c).1
unfolding tick
tick-IsValid ok op h =
    search (ifs-IsValid, count_down-IsValid, set_tick_delay-IsValid, tick_body-IsValid)
