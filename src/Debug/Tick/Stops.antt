-- ===== src/Debug/Tick/Stops.antt =====
-- debug.c, `dbg_tick`: a breakpoint at the counter.
use emu8051_stc.Prelude.{
  ◌≡◌, ◌∙◌, ap, ◌&&◌, nonzero, Bool, true, false, Option, none, some, if_false,
}
use emu8051_stc.Stc.Idle.{clock}
use emu8051_stc.Debug.{Target, running, dbg_max_bp}
use emu8051_stc.Debug.Profile.{profile}
use emu8051_stc.Debug.Tick.{is_cycle, check_bps, count_step, finish, after_bps, boundary, dbg_tick}
use emu8051_stc.Debug.Tick.Halts.{after_clock, ended, dbg_tick-running}

is_some : {B D : Type 0} → Option (Target B D) → Bool
is_some none = false
is_some (some t) = true

unfoldable pub IsHit : {B D : Type 0} → Option (Target B D) → Type 0
IsHit {B} {D} o = (t : Target B D) × (o ≡ some t)

pub ended-boundary :
    {B D : Type 0} (t : Target B D)
    → (nonzero t.step_count && is_cycle t.step_kind) ≡ false
    → ended true t ≡ boundary (profile t)
unfolding ended
ended-boundary t straight =
    if_false (nonzero t.step_count && is_cycle t.step_kind) (finish (count_step t))
      (boundary (profile t)) straight

pub boundary_met :
    {B D : Type 0} (t y : Target B D) → check_bps t dbg_max_bp 0 ≡ some y → boundary t ≡ (true, y)
unfolding boundary after_bps
boundary_met t y e = ap (after_bps t) e

module _ {B D : Type 0} (t : Target B D) (on : t.state ≡ running)
    (ticked : (clock t.hooks t.op t.cpu).0 ≡ true)
    (straight : (nonzero t.step_count && is_cycle t.step_kind) ≡ false) where
  pub at_boundary : dbg_tick t ≡ boundary (profile (after_clock t))
  unfolding after_clock
  at_boundary =
      dbg_tick-running t on
      ∙ ap (λ b. ended b (after_clock t)) ticked
      ∙ ended-boundary (after_clock t) straight
