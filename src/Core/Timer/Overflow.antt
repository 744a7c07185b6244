-- ===== src/Core/Timer/Overflow.antt =====
-- core.c, `timer_tick`: timer 0 in mode 1 up to its overflow.
use emu8051_stc.Prelude.{
  ℕ, zero, suc, ◌+◌, ◌<◌, ◌≤◌, ◌≡◌, refl, ap, ◌∙◌, arith, bit_and, bit_or, nonzero, ◌==◌, true,
  false, Bool-cases, inl, inr,
}
use emu8051_stc.Prelude.Bits.{passes_below, passes_below_lem, byte_eq}
use emu8051_stc.Cpu.{Cpu, set_sfr}
use emu8051_stc.Cpu.Valid.{IsValid}
use emu8051_stc.Cpu.Regs.{reg_tmod, reg_tcon}
use emu8051_stc.Core.Timer.{
  has, or_sfr, count8, count13, count16, count_reload, set_tf0, t0_runs, t1_runs, t0_mode3,
  count_timer0, tick_timer0, tick_timer1, timer_tick,
}
use emu8051_stc.Core.Timer.Valid.{timer_tick-IsValid}
use emu8051_stc.Core.Timer.Laws.{counter16, tcon_after, mode0, count_timer0_16}

-- Timer 0 runs in mode 1, and timer 1 does not run.
pub record IsCounting {E : Type 0} (c : Cpu E) : Type 0 where
  pub runs : t0_runs c ≡ true
  pub mode : mode0 c ≡ 1
  pub alone : t1_runs c ≡ false

-- TF0 does not touch TR0 and TR1.
tr0_bit : (x : ℕ) → x < 256 → bit_and (bit_or x 0x20) 0x10 ≡ bit_and x 0x10
unfolding passes_below
tr0_bit = byte_eq _ (λ x. bit_and x 0x10) refl

tr1_bit : (x : ℕ) → x < 256 → bit_and (bit_or x 0x20) 0x40 ≡ bit_and x 0x40
unfolding passes_below
tr1_bit = byte_eq _ (λ x. bit_and x 0x40) refl

tf0_bit : (x : ℕ) → x < 256 → nonzero (bit_and (bit_or x 0x20) 0x20) ≡ true
unfolding passes_below
tf0_bit x lt = passes_below_lem 256 (λ x. nonzero (bit_and (bit_or x 0x20) 0x20)) x refl lt

module _ {E : Type 0} (c : Cpu E) (h : IsValid c) (w : IsCounting c) where
  tmod-count_timer0 : (count_timer0 c).sfr reg_tmod ≡ c.sfr reg_tmod
  unfolding count_timer0 count16 count8 count13 count_reload set_tf0 or_sfr set_sfr
  tmod-count_timer0 = ground arith

  count_timer0-IsCounting : IsCounting (count_timer0 c)
  unfolding t0_runs t1_runs has
  count_timer0-IsCounting =
      let tmod = tmod-count_timer0 in
      let tcon = (count_timer0_16 c h w.mode).1 in
      let b0 = tr0_bit (c.sfr reg_tcon) (h.sfrs reg_tcon) in
      let b1 = tr1_bit (c.sfr reg_tcon) (h.sfrs reg_tcon) in
      elim (Bool-cases (counter16 c == 0xffff)) [
        | inl e ↦
            let t = tcon ∙ ap (λ b. tcon_after c b) e in
            record {
              runs = rw (tmod, t, b0) w.runs;
              mode = rw tmod w.mode;
              alone = rw (tmod, t, b1) w.alone;
            }
        | inr e ↦
            let t = tcon ∙ ap (λ b. tcon_after c b) e in
            record {
              runs = rw (tmod, t) w.runs;
              mode = rw tmod w.mode;
              alone = rw (tmod, t) w.alone;
            }
      ]

  timer_tick-count_timer0 : timer_tick c ≡ count_timer0 c
  unfolding timer_tick t0_mode3 tick_timer0 tick_timer1
  timer_tick-count_timer0 =
      let next = count_timer0-IsCounting in rw (w.mode, w.runs, next.alone) refl

-- As many ticks of the timers.
unfoldable pub timer_ticks : {E : Type 0} → ℕ → Cpu E → Cpu E
timer_ticks zero c = c
timer_ticks (suc n) c = timer_ticks n (timer_tick c)

module _ {E : Type 0} where
  -- A tick that does not overflow.
  tick_once :
      (c : Cpu E)
      → IsValid c
      → IsCounting c
      → counter16 c < 0xffff
      → ((timer_tick c).sfr reg_tcon ≡ c.sfr reg_tcon)
        × (counter16 (timer_tick c) ≡ counter16 c + 1)
  tick_once c h w lt =
      let (count, tcon) = count_timer0_16 c h w.mode in
      let e : (counter16 c == 0xffff) ≡ false = ground arith in
      rw (timer_tick-count_timer0 c h w) (tcon ∙ ap (λ b. tcon_after c b) e, count ∙ omega arith)

  tick_over :
      (c : Cpu E)
      → IsValid c
      → IsCounting c
      → counter16 c ≡ 0xffff
      → ((timer_tick c).sfr reg_tcon ≡ bit_or (c.sfr reg_tcon) 0x20)
        × (counter16 (timer_tick c) ≡ 0)
  tick_over c h w full =
      let (count, tcon) = count_timer0_16 c h w.mode in
      let e : (counter16 c == 0xffff) ≡ true = ground arith in
      rw (timer_tick-count_timer0 c h w) (tcon ∙ ap (λ b. tcon_after c b) e, count ∙ omega arith)

  next-IsCounting : (c : Cpu E) → IsValid c → IsCounting c → IsCounting (timer_tick c)
  next-IsCounting c h w = rw (timer_tick-count_timer0 c h w) (count_timer0-IsCounting c h w)

  before :
      (m : ℕ) (c : Cpu E)
      → IsValid c
      → IsCounting c
      → counter16 c + m < 0x10000
      → ((timer_ticks m c).sfr reg_tcon ≡ c.sfr reg_tcon)
        × (counter16 (timer_ticks m c) ≡ counter16 c + m)
  unfolding timer_ticks
  before zero c h w lt = (refl, omega arith)
  before (suc m) c h w lt =
      let (tcon, count) = tick_once c h w (omega arith) in
      let (flags, counter) =
        before m (timer_tick c) (timer_tick-IsValid h) (next-IsCounting c h w) (omega arith) in
      (flags ∙ tcon, counter ∙ omega arith)

  last :
      (n : ℕ) (c : Cpu E)
      → IsValid c
      → IsCounting c
      → counter16 c + suc n ≡ 0x10000
      → ((timer_ticks (suc n) c).sfr reg_tcon ≡ bit_or (c.sfr reg_tcon) 0x20)
        × (counter16 (timer_ticks (suc n) c) ≡ 0)
  unfolding timer_ticks
  last zero c h w left = tick_over c h w (omega arith)
  last (suc n) c h w left =
      let (tcon, count) = tick_once c h w (omega arith) in
      let (flags, counter) =
        last n (timer_tick c) (timer_tick-IsValid h) (next-IsCounting c h w) (omega arith) in
      (flags ∙ ap (λ x. bit_or x 0x20) tcon, counter)

  -- A valid machine whose timer 0 runs in mode 1 while timer 1 stands, with n + 1 counts left of
  -- 2^16: after m ticks of the timers, m at most n, TCON is as it was, so that TF0 is set only if
  -- it was, and the count is m higher. After n + 1 ticks TF0 is set, nothing else of TCON has
  -- changed, and the count is 0.
  pub timer_ticks-overflow :
      (n m : ℕ) (c : Cpu E)
      → IsValid c
      → IsCounting c
      → counter16 c + suc n ≡ 0x10000
      → m ≤ n
      → let b = timer_ticks m c in
        let d = timer_ticks (suc n) c in
        (b.sfr reg_tcon ≡ c.sfr reg_tcon)
        × (counter16 b ≡ counter16 c + m)
        × (d.sfr reg_tcon ≡ bit_or (c.sfr reg_tcon) 0x20)
        × (has d reg_tcon 0x20 ≡ true)
        × (counter16 d ≡ 0)
  unfolding has
  timer_ticks-overflow n m c h w left le =
      let (same, count) = before m c h w (omega arith) in
      let (set, zeroed) = last n c h w left in
      (same, count, set, rw set (tf0_bit (c.sfr reg_tcon) (h.sfrs reg_tcon)), zeroed)
