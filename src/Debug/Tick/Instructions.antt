-- ===== src/Debug/Tick/Instructions.antt =====
-- debug.c: the ticks of a target without breakpoints.
use emu8051_stc.Prelude.{
  ℕ, zero, suc, ◌+◌, ◌<◌, ◌≤◌, ◌≡◌, ◌∙◌, ◌⊎◌, inl, inr, refl, sym, ap, arith, ◌==◌, ==_iff, ◌&&◌,
  nonzero, if◌then◌else◌, Bool, true, false, none, if_true, if_false,
}
use mathlib.Core.Bool.{false≢true}
use emu8051_stc.Cpu.{Cpu, Hooks}
use emu8051_stc.Ops.Table.{OpTable}
use emu8051_stc.Stc.{Stc}
use emu8051_stc.Stc.Idle.{clock}
use emu8051_stc.Stc.Idle.Run.{clocks}
use emu8051_stc.Debug.{Target, running, StepKind, step_insn, halt_step, dbg_max_bp}
use emu8051_stc.Debug.Profile.{profile}
use emu8051_stc.Debug.Tick.{
  is_cycle, first_hit, hit_of, bp_hit, check_bps, count_step, step_done, finish, after_bps,
  boundary, dbg_tick,
}
use emu8051_stc.Debug.Tick.Laws.{Stopped, emit_halt-Stopped}
use emu8051_stc.Debug.Tick.Halts.{after_clock, ended, dbg_tick-running}
use emu8051_stc.Debug.Tick.Stops.{ended-boundary}
use emu8051_stc.Debug.Tick.Cycles.{one_less, counted, minus_one}

-- The instructions that end in so many clocks.
unfoldable pub instructions : {B : Type 0} → Hooks (Stc B) → OpTable → ℕ → Cpu (Stc B) → ℕ
instructions hooks op zero c = 0
instructions hooks op (suc n) c =
    let before = instructions hooks op n c in
    if (clock hooks op (clocks hooks op n c)).0 then suc before else before

-- No slot is active.
unfoldable pub IsUnwatched : {B D : Type 0} → Target B D → Type 0
IsUnwatched t = (i : ℕ) → i < dbg_max_bp → (t.bps i).active ≡ false

module _ {B D : Type 0} (t : Target B D) where
  pub unmet : (i : ℕ) → (t.bps i).active ≡ false → bp_hit t i ≡ none
  unfolding bp_hit
  unmet i off = if_false (t.bps i).active (hit_of t (t.bps i).kind i) none off

  none_met : (left i : ℕ) → i + left ≤ dbg_max_bp → IsUnwatched t → check_bps t left i ≡ none
  unfolding check_bps first_hit IsUnwatched
  none_met zero i le off = refl
  none_met (suc left) i le off =
      ap (λ o. first_hit o (check_bps t left (i + 1))) (unmet i (off i (omega arith)))
      ∙ none_met left (i + 1) (omega arith) off

  quiet : IsUnwatched t → boundary t ≡ after_bps t none
  unfolding boundary
  quiet off = ap (after_bps t) (none_met dbg_max_bp 0 (omega arith) off)

-- A running target without breakpoints whose machine has done `m` clocks of that of `t`, with
-- `left` instructions of a step left, 0 if it does not step.
pub record Going {B D : Type 0} (t : Target B D) (m left : ℕ) (t1 : Target B D) : Type 0 where
  pub on : t1.state ≡ running
  pub kind : (nonzero left ≡ false) ⊎ (t1.step_kind ≡ step_insn)
  pub count : t1.step_count ≡ left
  pub unwatched : IsUnwatched t1
  pub same_hooks : t1.hooks ≡ t.hooks
  pub same_op : t1.op ≡ t.op
  pub cpu : t1.cpu ≡ clocks t.hooks t.op m t.cpu

straight :
    (k : StepKind) (n left : ℕ)
    → (nonzero left ≡ false) ⊎ (k ≡ step_insn)
    → n ≡ left
    → (nonzero n && is_cycle k) ≡ false
unfolding is_cycle
straight k n left (inl e) same = rw (same, e) refl
straight k n left (inr e) same = rw e (ground arith)

ended-inside :
    {B D : Type 0} (t : Target B D)
    → (nonzero t.step_count && is_cycle t.step_kind) ≡ false
    → ended false t ≡ (false, t)
unfolding ended
ended-inside t e =
    if_false (nonzero t.step_count && is_cycle t.step_kind) (finish (count_step t)) (false, t) e

-- Whether an instruction ends in the clock `m` of the machine of `t`.
unfoldable pub ends_at : {B D : Type 0} → Target B D → ℕ → Bool
ends_at t m = (clock t.hooks t.op (clocks t.hooks t.op m t.cpu)).0

nonzero-suc : (n : ℕ) → nonzero (suc n) ≡ true
nonzero-suc n = ground arith

stepped :
    {B D : Type 0} (t : Target B D) (left : ℕ)
    → t.step_count ≡ suc left
    → t.step_kind ≡ step_insn
    → after_bps t none ≡ finish (left == 0, one_less t)
unfolding after_bps step_done
stepped t left count kind =
    if_true (nonzero t.step_count) (finish (step_done t t.step_kind)) (false, t)
      (ap nonzero count ∙ nonzero-suc left)
    ∙ ap (λ k. finish (step_done t k)) kind
    ∙ counted t (left == 0) (rw count (ap (λ k. k == 0) (minus_one left)))

free : {B D : Type 0} (t : Target B D) → t.step_count ≡ 0 → after_bps t none ≡ (false, t)
unfolding after_bps
free t e = rw e refl

module _ {B D : Type 0} (t t1 : Target B D) (m left : ℕ) (h : Going t m left t1) where
  same_end : (clock t1.hooks t1.op t1.cpu).0 ≡ ends_at t m
  unfolding ends_at
  same_end = rw (h.same_hooks, h.same_op, h.cpu) refl

  not_cycles : (nonzero t1.step_count && is_cycle t1.step_kind) ≡ false
  not_cycles = straight t1.step_kind t1.step_count left h.kind h.count

  pub clock_done : (after_clock t1).cpu ≡ clocks t.hooks t.op (suc m) t.cpu
  unfolding after_clock clocks
  clock_done = rw (h.same_hooks, h.same_op, h.cpu) refl

  inside : ends_at t m ≡ false → dbg_tick t1 ≡ (false, after_clock t1)
  unfolding after_clock
  inside e =
      dbg_tick-running t1 h.on
      ∙ ap (λ b. ended b (after_clock t1)) (same_end ∙ e)
      ∙ ended-inside (after_clock t1) not_cycles

  at_end : ends_at t m ≡ true → dbg_tick t1 ≡ after_bps (profile (after_clock t1)) none
  unfolding after_clock profile IsUnwatched
  at_end e =
      dbg_tick-running t1 h.on
      ∙ ap (λ b. ended b (after_clock t1)) (same_end ∙ e)
      ∙ ended-boundary (after_clock t1) not_cycles
      ∙ quiet (profile (after_clock t1)) h.unwatched

  -- A clock in which no instruction ends changes the machine only.
  pub go_inside :
      ends_at t m ≡ false → ((dbg_tick t1).0 ≡ false) × Going t (suc m) left (dbg_tick t1).1
  unfolding after_clock IsUnwatched
  go_inside e = rw (inside e) (
    refl,
    record {
      on = h.on;
      kind = h.kind;
      count = h.count;
      unwatched = h.unwatched;
      same_hooks = h.same_hooks;
      same_op = h.same_op;
      cpu = clock_done;
    },
  )

  -- The end of an instruction without a step.
  pub go_free :
      ends_at t m ≡ true
      → left ≡ 0
      → ((dbg_tick t1).0 ≡ false) × Going t (suc m) left (dbg_tick t1).1
  unfolding after_clock profile IsUnwatched
  go_free done e = rw (at_end done ∙ free (profile (after_clock t1)) (h.count ∙ e)) (
    refl,
    record {
      on = h.on;
      kind = h.kind;
      count = h.count;
      unwatched = h.unwatched;
      same_hooks = h.same_hooks;
      same_op = h.same_op;
      cpu = clock_done;
    },
  )

steps : (k : StepKind) (left : ℕ) → (nonzero (suc left) ≡ false) ⊎ (k ≡ step_insn) → k ≡ step_insn
steps k left (inl e) = absurd (false≢true (sym e ∙ nonzero-suc left))
steps k left (inr e) = e

module _ {B D : Type 0} (t t1 : Target B D) (m left : ℕ) (h : Going t m (suc left) t1)
    (done : ends_at t m ≡ true) where
  end_tick :
      (b : Bool) → (left == 0) ≡ b → dbg_tick t1 ≡ finish (b, one_less (profile (after_clock t1)))
  unfolding after_clock profile
  end_tick b e =
      at_end t t1 m (suc left) h done
      ∙ stepped (profile (after_clock t1)) left h.count (steps t1.step_kind left h.kind)
      ∙ ap (λ d. finish (d, one_less (profile (after_clock t1)))) e

  -- The end of the last instruction of the step.
  pub last_end :
      left ≡ 0
      → ((dbg_tick t1).0 ≡ true)
        × Stopped halt_step (one_less (profile (after_clock t1))) (dbg_tick t1).1
  unfolding finish
  last_end e =
      rw (end_tick true ((==_iff left 0).1 e))
        (refl, emit_halt-Stopped (one_less (profile (after_clock t1))) halt_step none)

  -- The end of one before the last.
  pub next_end :
      (left == 0) ≡ false → ((dbg_tick t1).0 ≡ false) × Going t (suc m) left (dbg_tick t1).1
  unfolding finish one_less after_clock profile IsUnwatched
  next_end more = rw (end_tick false more) (
    refl,
    record {
      on = h.on;
      kind = inr (steps t1.step_kind left h.kind);
      count = rw h.count (minus_one left);
      unwatched = h.unwatched;
      same_hooks = h.same_hooks;
      same_op = h.same_op;
      cpu = clock_done t t1 m (suc left) h;
    },
  )
