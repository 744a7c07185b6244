-- ===== src/Stc/Idle/Whole.antt =====
-- The machine written out at the start of a jump and after whole counts.
use emu8051_stc.Prelude.{
  ℕ, ◌+◌, ◌*◌, ◌-◌, ◌/◌, ◌%◌, ◌≤◌, ◌≡◌, ◌⊎◌, inl, inr, refl, arith, true, false, ◌==◌, Bool-cases,
  update, IsBytes,
}
use emu8051_stc.Prelude.Bits.{bit_or_word, bit_and_low}
use mathlib.Core.Path.{sym, ◌∙◌, ap, fun_ext}
use emu8051_stc.Cpu.{Cpu, set_sfr}
use emu8051_stc.Cpu.Regs.{reg_tl0, reg_th0}
use emu8051_stc.Core.Timer.{has}
use emu8051_stc.Stc.{Stc, u64}
use emu8051_stc.Stc.Regs.{reg_auxr}
use emu8051_stc.Stc.Idle.{
  timer0_mode, clock_divisor, counter16, ticks_to_overflow, skip_ticks, count_on,
}
use emu8051_stc.Stc.Idle.Moved.{moved}
use emu8051_stc.Stc.Idle.Count.{top, count_now, counts, phase, after, at_count, fast0, fast1}
use emu8051_stc.Stc.Idle.Guards.{Settled}

-- The machine written out: at the start, and after whole counts.
module _ {B : Type 0} (c : Cpu (Stc B)) (bytes : IsBytes c.sfr) (s : Settled c) where
  same_sfr :
      (l h : ℕ)
      → l ≡ c.sfr reg_tl0
      → h ≡ c.sfr reg_th0
      → update (update c.sfr reg_tl0 l) reg_th0 h ≡ c.sfr
  same_sfr l h el eh = fun_ext (λ j. ground (arith, el, eh))

  moved-eq :
      (l m h k a d b e o n : ℕ)
      → l ≡ m
      → h ≡ k
      → a ≡ d
      → b ≡ e
      → o ≡ n
      → moved c l h a b o ≡ moved c m k d e n
  moved-eq l m h k a d b e o n el eh ea eb eo = λ i. moved c (el i) (eh i) (ea i) (eb i) (eo i)

  moved-same :
      moved c
        (c.sfr reg_tl0)
        (c.sfr reg_th0)
        c.env.timer0_prescaler
        c.env.timer1_prescaler
        c.env.osc_clocks
      ≡ c
  moved-same = ap (λ f. record c { sfr = f }) (same_sfr _ _ refl refl)

  pub start : c ≡ after c 0
  start =
      let hl = bytes reg_tl0 in
      let hh = bytes reg_th0 in
      sym (
        moved-eq _ _ _ _ _ _ _ _ _ _ (ground (arith, hl, hh, s.pre0))
          (ground (arith, hl, hh, s.pre0)) (ground (arith, s.pre0)) (ground (arith, s.pre1))
          (let lt = s.clock_lt in omega arith)
        ∙ moved-same)

  counts_whole : (t : ℕ) → counts c (t * clock_divisor c) ≡ t
  unfolding clock_divisor
  counts_whole t =
      let p = s.pre0 in
      elim (Bool-cases (has c reg_auxr 0x80)) [
        | inl e ↦ rw e (omega arith)
        | inr e ↦ rw e (omega arith)
      ]

  phase0_whole :
      (t : ℕ)
      → phase c (fast0 c) c.env.timer0_prescaler (t * clock_divisor c) ≡ c.env.timer0_prescaler
  unfolding clock_divisor
  phase0_whole t =
      let p = s.pre0 in
      elim (Bool-cases (has c reg_auxr 0x80)) [ inl e ↦ rw e refl | inr e ↦ rw e (omega arith) ]

  phase1_whole :
      (t : ℕ)
      → phase c (fast1 c) c.env.timer1_prescaler (t * clock_divisor c) ≡ c.env.timer1_prescaler
  unfolding clock_divisor
  phase1_whole t =
      let p = s.pre1 in
      elim s.rates [
        | inl e ↦ rw e (elim (Bool-cases (has c reg_auxr 0x40)) [
          | inl k ↦ rw k refl
          | inr k ↦ rw k (omega arith)
        ])
        | inr k ↦ rw k refl
      ]

  -- After whole counts the prescalers are where they were.
  pub after_whole :
      (t : ℕ)
      → after c (t * clock_divisor c)
        ≡ at_count c
            (count_now c + t)
            c.env.timer0_prescaler
            c.env.timer1_prescaler
            (u64 (c.env.osc_clocks + t * clock_divisor c))
  after_whole t = λ i.
      at_count c (count_now c + counts_whole t i) (phase0_whole t i) (phase1_whole t i)
        (u64 (c.env.osc_clocks + t * clock_divisor c))

  -- The counter set forward.
  pub counted :
      (t : ℕ)
      → (timer0_mode c ≡ 1) ⊎ (timer0_mode c ≡ 2)
      → count_now c + t ≤ top c
      → count_on c t
        ≡ at_count c
            (count_now c + t)
            c.env.timer0_prescaler
            c.env.timer1_prescaler
            c.env.osc_clocks
  unfolding count_on counter16 set_sfr
  counted t (inl mode) le =
      let m : (timer0_mode c == 1) ≡ true = rw mode refl in
      let word = bit_or_word (c.sfr reg_th0) (c.sfr reg_tl0) (bytes reg_th0) (bytes reg_tl0) in
      let v = c.sfr reg_th0 * 0x100 + c.sfr reg_tl0 + t in
      let lt : v ≤ 0xffff = ground (arith, mode, le) in
      let low = bit_and_low v (omega (arith, lt)) in
      let high = bit_and_low (v / 0x100) (omega (arith, lt)) in
      let whole : v % 0x100000000 ≡ v = omega (arith, lt) in
      let e : v % 0x100 % 0x100 ≡ v % 0x100 = omega arith in
      let k : v / 0x100 % 0x100 % 0x100 ≡ v / 0x100 = omega (arith, lt) in
      rw (m, word, whole, low, high)
        (λ i. record c { sfr = update (update c.sfr reg_tl0 (e i)) reg_th0 (k i) })
  counted t (inr mode) le =
      let m : (timer0_mode c == 1) ≡ false = rw mode refl in
      let lt : c.sfr reg_tl0 + t ≤ 0xff = ground (arith, mode, le) in
      let hh = bytes reg_th0 in
      rw m (ap (λ f. record c { sfr = f }) (fun_ext (λ j. ground (arith, lt))))

  -- The last count that is skipped is not past the last value.
  skip_ticks_le : (max : ℕ) → skip_ticks c max ≤ ticks_to_overflow c - 1
  unfolding skip_ticks clock_divisor
  skip_ticks_le max = elim (Bool-cases (has c reg_auxr 0x80)) [
    | inl e ↦ rw e (ground arith)
    | inr e ↦ rw e (ground arith)
  ]

  to_overflow :
      (timer0_mode c ≡ 1) ⊎ (timer0_mode c ≡ 2) → count_now c + (ticks_to_overflow c - 1) ≤ top c
  unfolding ticks_to_overflow counter16
  to_overflow (inl mode) =
      let word = bit_or_word (c.sfr reg_th0) (c.sfr reg_tl0) (bytes reg_th0) (bytes reg_tl0) in
      let hh = bytes reg_th0 in
      let hl = bytes reg_tl0 in
      let m : (timer0_mode c == 1) ≡ true = rw mode refl in rw (m, word) (omega arith)
  to_overflow (inr mode) =
      let hl = bytes reg_tl0 in
      let m : (timer0_mode c == 1) ≡ false = rw mode refl in rw m (omega arith)

  pub fits :
      (max : ℕ) → (timer0_mode c ≡ 1) ⊎ (timer0_mode c ≡ 2) → count_now c + skip_ticks c max ≤ top c
  fits max m = let a = skip_ticks_le max in let b = to_overflow m in omega arith

  pub counts_le_top :
      (max : ℕ)
      → (timer0_mode c ≡ 1) ⊎ (timer0_mode c ≡ 2)
      → count_now c + counts c (skip_ticks c max * clock_divisor c) ≤ top c
  counts_le_top max m = let e = counts_whole (skip_ticks c max) in let b = fits max m in rw e b
