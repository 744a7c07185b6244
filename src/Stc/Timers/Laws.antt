-- ===== src/Stc/Timers/Laws.antt =====
-- Timer 0 of the STC parts against that of the core, and its prescaler.
use emu8051_stc.Prelude.{
  ℕ, zero, suc, ◌+◌, ◌%◌, ◌<◌, ◌≡◌, refl, arith, Bool, true, false, ◌==◌, bit_and, ltb, if_map,
}
use mathlib.Core.Path.{◌∙◌, ap}
use emu8051_stc.Cpu.{Cpu}
use emu8051_stc.Cpu.Regs.{reg_tmod, reg_tl0, reg_th0}
use emu8051_stc.Core.Timer.{
  has, t0_runs, count8, count13, count16, count_reload, set_tf0, count_timer0, tick_timer0,
  tmod_m_0,
}
use emu8051_stc.Stc.{Stc, set_stc}
use emu8051_stc.Stc.Regs.{reg_auxr}
use emu8051_stc.Stc.Timers.{
  over0, count0_8, count0_13, count0_16, count0_reload, count0, timer0_count, timer0_tick,
}

module _ {E : Type 0} where
  abbrev second : Bool × Cpu E → Cpu E
  second p = p.1

  -- Each way to count leads where the core's does.
  count0_8-core : (r : ℕ) (c : Cpu E) → (count0_8 r c).1 ≡ count8 set_tf0 r c
  unfolding count0_8 count8 over0
  count0_8-core r c = if_map second (ltb 0xff (c.sfr r + 1)) _ _ _ _ (λ _. refl) (λ _. refl)

  count0_13-core : (c : Cpu E) → (count0_13 c).1 ≡ count13 set_tf0 reg_tl0 reg_th0 c
  unfolding count0_13 count13
  count0_13-core c =
      if_map second (ltb 0x1f (bit_and (c.sfr reg_tl0) 0x1f + 1)) _ _ _ _
        (λ _. count0_8-core reg_th0 _) (λ _. refl)

  count0_16-core : (c : Cpu E) → (count0_16 c).1 ≡ count16 set_tf0 reg_tl0 reg_th0 c
  unfolding count0_16 count16
  count0_16-core c =
      if_map second (ltb 0xff (c.sfr reg_tl0 + 1)) _ _ _ _ (λ _. count0_8-core reg_th0 _)
        (λ _. refl)

  count0_reload-core : (c : Cpu E) → (count0_reload c).1 ≡ count_reload set_tf0 reg_tl0 reg_th0 c
  unfolding count0_reload count_reload over0
  count0_reload-core c =
      if_map second (ltb 0xff (c.sfr reg_tl0 + 1)) _ _ _ _ (λ _. refl) (λ _. refl)

  -- In its modes 0 to 2 a count of timer 0 is that of the core's timer 0 with the timer running.
  pub timer0_count-core :
      (c : Cpu E) → bit_and (c.sfr reg_tmod) tmod_m_0 < 3 → (timer0_count c).1 ≡ tick_timer0 c
  unfolding timer0_count tick_timer0 count0 count_timer0
  timer0_count-core c lt =
      let mode = bit_and (c.sfr reg_tmod) tmod_m_0 in
      if_map second (t0_runs c) _ _ _ _
        (λ _.
          if_map second (mode == 0) _ _ _ _ (λ _. count0_13-core c)
            (λ n0.
              if_map second (mode == 1) _ _ _ _ (λ _. count0_16-core c)
                (λ n1.
                  if_map second (mode == 2) _ _ _ _ (λ _. count0_reload-core c)
                    (λ n2. absurd (ground (arith, lt, n0, n1, n2))))))
        (λ _. refl)

-- As many clocks of timer 0.
unfoldable pub timer0_ticks : {B : Type 0} → ℕ → Cpu (Stc B) → Cpu (Stc B)
timer0_ticks zero c = c
timer0_ticks (suc n) c = (timer0_tick (timer0_ticks n c)).1

abbrev pub with_prescaler : {B : Type 0} → Cpu (Stc B) → ℕ → Cpu (Stc B)
with_prescaler c n = record c { env = record c.env { timer0_prescaler = n } }

module _ {B : Type 0} (c : Cpu (Stc B)) (slow : has c reg_auxr 0x80 ≡ false) where
  tick_waits :
      (n : ℕ) → n < 11 → timer0_tick (with_prescaler c n) ≡ (false, with_prescaler c (n + 1))
  unfolding timer0_tick has set_stc
  tick_waits n lt =
      let k : ltb ((n + 1) % 256) 12 ≡ true = ground arith in
      let e : (n + 1) % 256 ≡ n + 1 = omega arith in
      rw (slow, k) (ap (λ x. (false, with_prescaler c x)) e)

  tick_counts : timer0_tick (with_prescaler c 11) ≡ timer0_count (with_prescaler c 0)
  unfolding timer0_tick has set_stc
  tick_counts = rw slow refl

  ticks_wait : (n : ℕ) → n < 12 → timer0_ticks n (with_prescaler c 0) ≡ with_prescaler c n
  unfolding timer0_ticks
  ticks_wait zero lt = refl
  ticks_wait (suc n) lt =
      let e : n + 1 ≡ suc n = omega arith in
      ap (λ d. (timer0_tick d).1) (ticks_wait n (omega arith))
      ∙ ap (λ p. p.1) (tick_waits n (omega arith))
      ∙ ap (with_prescaler c) e

  -- In 12T, from a cleared prescaler, twelve clocks are one count of timer 0 and leave the
  -- prescaler cleared before it.
  timer0_ticks-12t : timer0_ticks 12 (with_prescaler c 0) ≡ (timer0_count (with_prescaler c 0)).1
  unfolding timer0_ticks
  timer0_ticks-12t =
      ap (λ d. (timer0_tick d).1) (ticks_wait 11 (omega arith)) ∙ ap (λ p. p.1) tick_counts
