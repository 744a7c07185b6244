-- ===== src/Debug/Tick/Halts.antt =====
-- debug.c, `dbg_tick`: what a running target does with its clock.
use emu8051_stc.Prelude.{◌≡◌, refl, ◌&&◌, nonzero, if◌then◌else◌, Bool, false, if_keeps}
use emu8051_stc.Stc.Idle.{clock}
use emu8051_stc.Debug.{Target, halted, running}
use emu8051_stc.Debug.Profile.{profile}
use emu8051_stc.Debug.Tick.{is_cycle, count_step, finish, boundary, dbg_tick}
use emu8051_stc.Debug.Tick.Laws.{
  is_halted, IsEnd, finish-IsEnd, unfinished, boundary-IsEnd, count_step-IsGoing,
}

-- The target after the clock.
unfoldable pub after_clock : {B D : Type 0} → Target B D → Target B D
after_clock t = record t { cpu = (clock t.hooks t.op t.cpu).1 }

-- What a running target does with its clock.
unfoldable pub ended : {B D : Type 0} → Bool → Target B D → Bool × Target B D
ended ticked t =
    if nonzero t.step_count && is_cycle t.step_kind
    then finish (count_step t)
    else if ticked
    then boundary (profile t)
    else (false, t)

module _ {B D : Type 0} (t : Target B D) where
  pub dbg_tick-running :
      t.state ≡ running → dbg_tick t ≡ ended ((clock t.hooks t.op t.cpu).0) (after_clock t)
  unfolding dbg_tick ended after_clock
  dbg_tick-running on = rw on refl

  -- A halted target is left alone.
  pub dbg_tick-halted : t.state ≡ halted → dbg_tick t ≡ (false, t)
  unfolding dbg_tick
  dbg_tick-halted off = rw off refl

  after_profile : (r : Bool × Target B D) → IsEnd (profile t) r → IsEnd t r
  unfolding IsEnd profile
  after_profile r h = h

  pub ended-IsEnd : (ticked : Bool) → t.state ≡ running → IsEnd t (ended ticked t)
  unfolding ended profile
  ended-IsEnd ticked on =
      if_keeps (IsEnd t) (nonzero t.step_count && is_cycle t.step_kind) (finish (count_step t)) _
        (λ e. finish-IsEnd t on (count_step t) (count_step-IsGoing t))
        (λ e.
          if_keeps (IsEnd t) ticked (boundary (profile t)) (false, t)
            (λ e. after_profile (boundary (profile t)) (boundary-IsEnd (profile t) on))
            (λ e. unfinished t on))

module _ {B D : Type 0} (t : Target B D) (on : t.state ≡ running) where
  -- A tick of a running target does one clock to its machine and nothing else to it, and returns
  -- whether the target has halted.
  pub dbg_tick-clock :
      ((dbg_tick t).0 ≡ is_halted ((dbg_tick t).1.state))
      × ((dbg_tick t).1.cpu ≡ (clock t.hooks t.op t.cpu).1)
  unfolding IsEnd after_clock
  dbg_tick-clock =
      rw (dbg_tick-running t on) (ended-IsEnd (after_clock t) ((clock t.hooks t.op t.cpu).0) on)
