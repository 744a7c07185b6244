-- ===== src/Stc/Idle/Jump.antt =====
-- The jump over idle clocks against the clocks themselves.
use emu8051_stc.Prelude.{
  ℕ, ◌+◌, ◌*◌, ◌≡◌, inl, inr, refl, arith, Bool, true, false, ◌&&◌, ltb, nonzero, if◌then◌else◌,
  Bool-cases, IsBytes, Option, none, some, if_true, if_false,
}
use mathlib.Core.Path.{sym, ◌∙◌, ap}
use emu8051_stc.Cpu.{Cpu, Hooks}
use emu8051_stc.Ops.Table.{OpTable}
use emu8051_stc.Stc.{Stc, set_stc, u64}
use emu8051_stc.Stc.Idle.{
  only_timer0, clock_divisor, ticks_to_overflow, skip_ticks, skipped, idle_skip_clocks, jump,
}
use emu8051_stc.Stc.Idle.Run.{clocks, clocks-after}
use emu8051_stc.Stc.Idle.Guards.{Settled, runs, stopped, modes, parked, still}
use emu8051_stc.Stc.Idle.Whole.{start, after_whole, counted, fits, counts_le_top}

-- The clocks that a jump skipped are counted.
abbrev pub note_skip : {B : Type 0} → ℕ → Cpu (Stc B) → Cpu (Stc B)
note_skip n c = record c {
  env = record c.env { idle_skipped_clocks = u64 (c.env.idle_skipped_clocks + n) };
}

-- Where the guards let it, the jump is the clocks that it skips.
module _ {B : Type 0} (hooks : Hooks (Stc B)) (op : OpTable) (c : Cpu (Stc B)) where
  skipped-clocks :
      (max : ℕ)
      → IsBytes c.sfr
      → Settled c
      → only_timer0 c ≡ true
      → let (n, d) = skipped c (skip_ticks c max) in
        set_stc d (record d.env { osc_clocks = u64 (d.env.osc_clocks + n) })
        ≡ note_skip n (clocks hooks op n c)
  unfolding skipped set_stc
  skipped-clocks max bytes s guard =
      let m = modes c bytes guard in
      let t = skip_ticks c max in
      let n = t * clock_divisor c in
      let here = counted c bytes s t m (fits c bytes s max m) in
      let there =
        clocks-after c hooks op (parked c bytes guard s) (still c bytes guard s)
          (runs c bytes guard) m (stopped c bytes guard) s.pre1 n (start c bytes s)
          (counts_le_top c bytes s max m)
        ∙ after_whole c bytes s t in
      ap
        (λ d.
          note_skip n (record d { env = record d.env { osc_clocks = u64 (d.env.osc_clocks + n) } }))
        here
      ∙ ap (note_skip n) (sym there)

  -- The tests in front of the jump.
  abbrev pub may_skip : Bool → ℕ → Bool
  may_skip enabled max =
      enabled
      && nonzero max
      && only_timer0 c
      && ltb 1 (ticks_to_overflow c)
      && nonzero (skip_ticks c max)

  skips :
      (enabled : Bool) (max : ℕ)
      → may_skip enabled max ≡ true
      → idle_skip_clocks c enabled max ≡ skipped c (skip_ticks c max)
  unfolding idle_skip_clocks
  skips enabled max e = if_true (may_skip enabled max) _ _ e

  stays :
      (enabled : Bool) (max : ℕ)
      → may_skip enabled max ≡ false
      → idle_skip_clocks c enabled max ≡ (0, c)
  unfolding idle_skip_clocks
  stays enabled max e = if_false (may_skip enabled max) _ _ e

  -- What `jump` makes of the clocks that it may skip.
  abbrev later : ℕ × Cpu (Stc B) → Cpu (Stc B)
  later (n, d) = set_stc d (record d.env { osc_clocks = u64 (d.env.osc_clocks + n) })

  abbrev landed : ℕ × Cpu (Stc B) → Option (Cpu (Stc B))
  landed (n, d) = if nonzero n then some (later (n, d)) else none

  jump-landed :
      (enabled : Bool) (max : ℕ) → jump c enabled max ≡ landed (idle_skip_clocks c enabled max)
  unfolding jump
  jump-landed enabled max = refl

  abbrev get_or : Cpu (Stc B) → Option (Cpu (Stc B)) → Cpu (Stc B)
  get_or e none = e
  get_or e (some d) = d

  landed_lands : (n : ℕ) (e d : Cpu (Stc B)) → landed (n, e) ≡ some d → later (n, e) ≡ d
  landed_lands n e d h = elim (Bool-cases (nonzero n)) [
    | inl k ↦ ap (get_or e) (sym (if_true (nonzero n) _ _ k) ∙ h)
    | inr k ↦ (let z = sym (if_false (nonzero n) _ _ k) ∙ h in cc)
  ]

  -- Where the registers are bytes, the processor is between two ticks of idleness in 1T, no
  -- interrupt of the PCA is pending and no byte waits in the receive queue, the parity flag is that
  -- of A, the prescalers of timers 0 and 1 are below 12 and the clock below 2^64, and timer 1 is in
  -- 1T when timer 0 is, which the code does not test: a jump over n clocks leads to the machine to
  -- which n clocks of the processor and the peripherals lead, with the clocks noted as skipped.
  pub jump-clocks :
      (enabled : Bool) (max : ℕ) (d : Cpu (Stc B))
      → IsBytes c.sfr
      → Settled c
      → jump c enabled max ≡ some d
      → let n = (idle_skip_clocks c enabled max).0 in d ≡ note_skip n (clocks hooks op n c)
  jump-clocks enabled max d bytes s jumped = elim (Bool-cases (may_skip enabled max)) [
    | inl e ↦
        (let r = skips enabled max e in
          let there = sym (jump-landed enabled max ∙ ap landed r) ∙ jumped in
          rw r (
            sym (landed_lands _ _ d there)
            ∙ skipped-clocks max bytes s (let g : only_timer0 c ≡ true = ground (arith, e) in g)))
    | inr e ↦
        (let there = sym (jump-landed enabled max ∙ ap landed (stays enabled max e)) ∙ jumped in cc)
  ]
