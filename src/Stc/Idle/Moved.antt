-- ===== src/Stc/Idle/Moved.antt =====
-- The machine with other values in the counter of timer 0, the prescalers and the clock, and a
-- clock of it.
use emu8051_stc.Prelude.{
  ℕ, ◌+◌, ◌*◌, ◌/◌, ◌%◌, ◌<◌, ◌≡◌, inl, inr, refl, arith, Bool, true, false, bit_and, ltb, nonzero,
  if◌then◌else◌, update, Bool-cases,
}
use emu8051_stc.Prelude.Bits.{bit_and_low}
use mathlib.Core.Path.{◌∙◌, ap, fun_ext}
use emu8051_stc.Cpu.{Cpu, set_sfr}
use emu8051_stc.Cpu.Regs.{reg_tl0, reg_th0}
use emu8051_stc.Core.Timer.{has, t0_runs, t1_runs}
use emu8051_stc.Stc.{Stc, set_stc, u64}
use emu8051_stc.Stc.Regs.{reg_auxr}
use emu8051_stc.Stc.Timers.{
  timer0_tick, timer1_tick, timer0_count, timer1_count, count0, count0_16, count0_reload, count0_8,
}
use emu8051_stc.Stc.Tick.{clocked}
use emu8051_stc.Stc.Idle.{timer0_mode}

module _ {B : Type 0} (c : Cpu (Stc B)) where
  abbrev pub moved : (low high pre0 pre1 clock : ℕ) → Cpu (Stc B)
  moved low high pre0 pre1 clock = record c {
    sfr = update (update c.sfr reg_tl0 low) reg_th0 high;
    env = record c.env { timer0_prescaler = pre0; timer1_prescaler = pre1; osc_clocks = clock };
  }

  -- The next value of a prescaler, in 1T where `fast`.
  abbrev pub prescaled : Bool → ℕ → ℕ
  prescaled fast p = if fast then p else (p + 1) % 12

  module _ (l h a b o : ℕ) where
    pub clocked-moved : clocked (moved l h a b o) ≡ moved l h a b (u64 (o + 1))
    unfolding clocked set_stc
    clocked-moved = refl

    next_below : b < 12 → ltb ((b + 1) % 0x100) 12 ≡ true → (b + 1) % 0x100 ≡ (b + 1) % 12
    next_below lt k = ground arith

    next_wraps : b < 12 → ltb ((b + 1) % 0x100) 12 ≡ false → 0 ≡ (b + 1) % 12
    next_wraps lt k = ground arith

    pub timer1_tick-moved :
        t1_runs c ≡ false
        → b < 12
        → timer1_tick (moved l h a b o) ≡ moved l h a (prescaled (has c reg_auxr 0x40) b) o
    unfolding timer1_tick timer1_count t1_runs has set_stc
    timer1_tick-moved still lt = elim (Bool-cases (nonzero (bit_and (c.sfr reg_auxr) 0x40))) [
      | inl e ↦ rw (e, still) refl
      | inr e ↦ elim (Bool-cases (ltb ((b + 1) % 0x100) 12)) [
        | inl k ↦ rw (e, k) (ap (λ n. moved l h a n o) (next_below lt k))
        | inr k ↦ rw (e, k, still) (ap (λ n. moved l h a n o) (next_wraps lt k))
      ]
    ]

    -- Where the count does not reach the top, timer 0 counts as a number.
    pub timer0_tick-slow :
        has c reg_auxr 0x80 ≡ false
        → a < 11
        → timer0_tick (moved l h a b o) ≡ (false, moved l h (a + 1) b o)
    unfolding timer0_tick has set_stc
    timer0_tick-slow slow lt =
        let k : ltb ((a + 1) % 0x100) 12 ≡ true = ground arith in
        let n : (a + 1) % 0x100 ≡ a + 1 = omega arith in
        rw (slow, k) (ap (λ x. (false, moved l h x b o)) n)

    pub timer0_tick-count :
        has c reg_auxr 0x80 ≡ false
        → a ≡ 11
        → timer0_tick (moved l h a b o) ≡ timer0_count (moved l h 0 b o)
    unfolding timer0_tick has set_stc
    timer0_tick-count slow e =
        let k : ltb ((a + 1) % 0x100) 12 ≡ false = ground arith in rw (slow, k) refl

    pub timer0_tick-fast :
        has c reg_auxr 0x80 ≡ true → timer0_tick (moved l h a b o) ≡ timer0_count (moved l h a b o)
    unfolding timer0_tick has
    timer0_tick-fast fast = rw fast refl

    pub timer0_count-moved :
        t0_runs c ≡ true → timer0_count (moved l h a b o) ≡ count0 (moved l h a b o)
    unfolding timer0_count t0_runs has
    timer0_count-moved runs = rw runs refl

    pub count0-16 : timer0_mode c ≡ 1 → count0 (moved l h a b o) ≡ count0_16 (moved l h a b o)
    unfolding count0 timer0_mode
    count0-16 mode = rw mode refl

    pub count0-reload :
        timer0_mode c ≡ 2 → count0 (moved l h a b o) ≡ count0_reload (moved l h a b o)
    unfolding count0 timer0_mode
    count0-reload mode = rw mode refl

    -- Stores into the counter.
    set_low : (v : ℕ) → v < 256 → set_sfr (moved l h a b o) reg_tl0 v ≡ moved v h a b o
    unfolding set_sfr
    set_low v lt = ap (λ f. record (moved l h a b o) { sfr = f }) (fun_ext (λ j. ground arith))

    set_high : (v : ℕ) → v < 256 → set_sfr (moved l h a b o) reg_th0 v ≡ moved l v a b o
    unfolding set_sfr
    set_high v lt = ap (λ f. record (moved l h a b o) { sfr = f }) (fun_ext (λ j. ground arith))

  pub count0_16-moved :
      (l h a b o : ℕ)
      → l < 256
      → h < 256
      → h * 256 + l < 0xffff
      → count0_16 (moved l h a b o)
        ≡ (false, moved ((h * 256 + l + 1) % 256) ((h * 256 + l + 1) / 256) a b o)
  unfolding count0_16 count0_8
  count0_16-moved l h a b o hl hh lt =
      let low = bit_and_low (l + 1) (omega arith) in
      let high = bit_and_low (h + 1) (omega arith) in
      elim (Bool-cases (ltb 0xff (l + 1))) [
        | inl e ↦
            (let n : bit_and (l + 1) 255 ≡ 0 = ground (arith, low) in
              let m : bit_and (h + 1) 255 ≡ h + 1 = ground (arith, high) in
              let k : ltb 0xff (h + 1) ≡ false = ground arith in
              let x : h + 1 ≡ (h * 256 + l + 1) / 256 = ground arith in
              let y : 0 ≡ (h * 256 + l + 1) % 256 = ground arith in
              rw
                (
                  e,
                  n,
                  set_low l h a b o 0 (omega arith),
                  k,
                  m,
                  set_high 0 h a b o (h + 1) (omega arith),
                )
                (ap (λ v. (false, moved v (h + 1) a b o)) y
                  ∙ ap (λ v. (false, moved ((h * 256 + l + 1) % 256) v a b o)) x))
        | inr e ↦
            (let n : bit_and (l + 1) 255 ≡ l + 1 = ground (arith, low) in
              let x : h ≡ (h * 256 + l + 1) / 256 = ground arith in
              let y : l + 1 ≡ (h * 256 + l + 1) % 256 = ground arith in
              rw (e, n, set_low l h a b o (l + 1) (ground arith))
                (ap (λ v. (false, moved v h a b o)) y
                  ∙ ap (λ v. (false, moved ((h * 256 + l + 1) % 256) v a b o)) x))
      ]

  pub count0_reload-moved :
      (l h a b o : ℕ) → l < 255 → count0_reload (moved l h a b o) ≡ (false, moved (l + 1) h a b o)
  unfolding count0_reload
  count0_reload-moved l h a b o lt =
      let low = bit_and_low (l + 1) (omega arith) in
      let e : ltb 0xff (l + 1) ≡ false = ground arith in
      let n : bit_and (l + 1) 255 ≡ l + 1 = omega (arith, low) in
      rw (e, n, set_low l h a b o (l + 1) (omega arith)) refl
