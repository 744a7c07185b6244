-- ===== src/Stc/Wdt/Laws.antt =====
-- How often the watchdog counts.
use emu8051_stc.Prelude.{ℕ, zero, suc, ◌+◌, ◌%◌, ◌<◌, ◌≤◌, ◌≡◌, refl, arith, true, false, ltb}
use mathlib.Core.Path.{◌∙◌, ap}
use emu8051_stc.Cpu.{Cpu}
use emu8051_stc.Core.Timer.{has}
use emu8051_stc.Stc.{Stc, set_stc}
use emu8051_stc.Stc.Regs.{reg_wdt_contr}
use emu8051_stc.Stc.Wdt.{wdt_divisor, wdt_count, wdt_tick}

-- As many clocks of the watchdog.
unfoldable pub wdt_ticks : {B : Type 0} → ℕ → Cpu (Stc B) → Cpu (Stc B)
wdt_ticks zero c = c
wdt_ticks (suc n) c = wdt_tick (wdt_ticks n c)

abbrev pub with_cnt : {B : Type 0} → Cpu (Stc B) → ℕ → Cpu (Stc B)
with_cnt c n = record c { env = record c.env { wdt_prescaler_cnt = n } }

module _ {B : Type 0} (c : Cpu (Stc B)) (enabled : has c reg_wdt_contr 0x20 ≡ true) where
  abbrev divisor : ℕ
  divisor = wdt_divisor (c.sfr reg_wdt_contr)

  tick_waits :
      (n : ℕ) → (n + 1) % 256 < divisor → wdt_tick (with_cnt c n) ≡ with_cnt c ((n + 1) % 256)
  unfolding wdt_tick has set_stc
  tick_waits n lt =
      let k : ltb ((n + 1) % 256) divisor ≡ true = ground arith in rw (enabled, k) refl

  tick_counts :
      (n : ℕ) → divisor ≤ (n + 1) % 256 → wdt_tick (with_cnt c n) ≡ wdt_count (with_cnt c 0)
  unfolding wdt_tick has set_stc
  tick_counts n le =
      let k : ltb ((n + 1) % 256) divisor ≡ false = ground arith in rw (enabled, k) refl

  ticks_wait : (n : ℕ) → n < divisor → n < 256 → wdt_ticks n (with_cnt c 0) ≡ with_cnt c n
  unfolding wdt_ticks
  ticks_wait zero lt le = refl
  ticks_wait (suc n) lt le =
      let s : (n + 1) % 256 ≡ suc n = omega arith in
      ap wdt_tick (ticks_wait n (omega arith) (omega arith))
      ∙ tick_waits n (omega (arith, s))
      ∙ ap (with_cnt c) s

  -- From a cleared prescaler and with a divisor of 128 or less, as many clocks as the divisor are
  -- one count of the watchdog, and the prescaler is clear again.
  wdt_ticks-count :
      (n : ℕ)
      → divisor ≡ suc n
      → n < 255
      → wdt_ticks (suc n) (with_cnt c 0) ≡ wdt_count (with_cnt c 0)
  unfolding wdt_ticks
  wdt_ticks-count n d lt =
      ap wdt_tick (ticks_wait n (omega (arith, d)) (omega arith)) ∙ tick_counts n (omega (arith, d))

  -- With a divisor of 256 the prescaler, a byte, never reaches it: no number of clocks counts.
  pub wdt_ticks-never : (n : ℕ) → divisor ≡ 256 → wdt_ticks n (with_cnt c 0) ≡ with_cnt c (n % 256)
  unfolding wdt_ticks
  wdt_ticks-never zero d = refl
  wdt_ticks-never (suc n) d =
      let s : (n % 256 + 1) % 256 ≡ suc n % 256 = omega arith in
      ap wdt_tick (wdt_ticks-never n d)
      ∙ tick_waits (n % 256) (omega (arith, d))
      ∙ ap (with_cnt c) s
