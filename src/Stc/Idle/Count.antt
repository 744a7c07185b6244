-- ===== src/Stc/Idle/Count.antt =====
-- The counter of timer 0 as a number, and a clock of it.
use emu8051_stc.Prelude.{
  ℕ, suc, ◌+◌, ◌*◌, ◌/◌, ◌%◌, ◌<◌, ◌≤◌, ◌≡◌, ◌⊎◌, inl, inr, ==_iff, refl, arith, Bool, true, false,
  ◌==◌, if◌then◌else◌, Bool-cases,
}
use mathlib.Core.Path.{◌∙◌, ap}
use emu8051_stc.Cpu.{Cpu}
use emu8051_stc.Cpu.Regs.{reg_tl0, reg_th0}
use emu8051_stc.Core.Timer.{has, t0_runs}
use emu8051_stc.Stc.{Stc, u64}
use emu8051_stc.Stc.Regs.{reg_auxr}
use emu8051_stc.Stc.Timers.{timer0_tick, timer0_count}
use emu8051_stc.Stc.Idle.{timer0_mode}
use emu8051_stc.Stc.Idle.Moved.{
  moved, timer0_tick-slow, timer0_tick-count, timer0_tick-fast, timer0_count-moved, count0-16,
  count0-reload, count0_16-moved, count0_reload-moved,
}

module _ {B : Type 0} (c : Cpu (Stc B)) where
  -- The counter of timer 0 as a number, in its modes 1 and 2, its last value, and its registers.
  abbrev pub top : ℕ
  top = if timer0_mode c == 1 then 0xffff else 0xff

  abbrev pub count_now : ℕ
  count_now = if timer0_mode c == 1 then c.sfr reg_th0 * 0x100 + c.sfr reg_tl0 else c.sfr reg_tl0

  abbrev pub low_of : ℕ → ℕ
  low_of v = if timer0_mode c == 1 then v % 0x100 else v

  abbrev pub high_of : ℕ → ℕ
  high_of v = if timer0_mode c == 1 then v / 0x100 else c.sfr reg_th0

  abbrev pub at_count : (v pre0 pre1 now : ℕ) → Cpu (Stc B)
  at_count v pre0 pre1 now = moved c (low_of v) (high_of v) pre0 pre1 now

  abbrev pub fast0 : Bool
  fast0 = has c reg_auxr 0x80

  abbrev pub fast1 : Bool
  fast1 = has c reg_auxr 0x40

  -- The counts in `k` clocks, and the machine after them.
  abbrev pub counts : ℕ → ℕ
  counts k = if fast0 then k else (c.env.timer0_prescaler + k) / 12

  abbrev pub phase : Bool → ℕ → ℕ → ℕ
  phase fast p k = if fast then p else (p + k) % 12

  abbrev pub after : ℕ → Cpu (Stc B)
  after k =
      at_count (count_now + counts k) (phase fast0 c.env.timer0_prescaler k)
        (phase fast1 c.env.timer1_prescaler k) (u64 (c.env.osc_clocks + k))

  timer0_count-at :
      (v a b o : ℕ)
      → t0_runs c ≡ true
      → (timer0_mode c ≡ 1) ⊎ (timer0_mode c ≡ 2)
      → v < top
      → timer0_count (at_count v a b o) ≡ (false, at_count (v + 1) a b o)
  timer0_count-at v a b o runs (inl mode) lt =
      let m : (timer0_mode c == 1) ≡ true = rw mode refl in
      let below : v < 0xffff = rw⁻¹ (ap {B = ℕ} (λ t. if t then 0xffff else 0xff) m) lt in
      let l = v % 0x100 in
      let h = v / 0x100 in
      let e : h * 0x100 + l + 1 ≡ v + 1 = omega arith in
      rw m (
        timer0_count-moved c l h a b o runs
        ∙ count0-16 c l h a b o mode
        ∙ count0_16-moved c l h a b o (omega arith) (omega arith) (omega arith)
        ∙ ap (λ n. (false, moved c (n % 0x100) (n / 0x100) a b o)) e)
  timer0_count-at v a b o runs (inr mode) lt =
      let m : (timer0_mode c == 1) ≡ false = rw mode refl in
      let below : v < 0xff = rw⁻¹ (ap {B = ℕ} (λ t. if t then 0xffff else 0xff) m) lt in
      let h = c.sfr reg_th0 in
      rw m (
        timer0_count-moved c v h a b o runs
        ∙ count0-reload c v h a b o mode
        ∙ count0_reload-moved c v h a b o below)

  -- A clock of timer 0 on the way, for each state of its prescaler.
  module _ (runs : t0_runs c ≡ true) (modes : (timer0_mode c ≡ 1) ⊎ (timer0_mode c ≡ 2)) where
    tick_fast :
        (v a b o : ℕ)
        → fast0 ≡ true
        → v < top
        → timer0_tick (at_count v a b o) ≡ (false, at_count (v + 1) a b o)
    tick_fast v a b o e lt =
        timer0_tick-fast c (low_of v) (high_of v) a b o e ∙ timer0_count-at v a b o runs modes lt

    tick_slow :
        (v p b o : ℕ)
        → fast0 ≡ false
        → v + (p + 1) / 12 ≤ v + p / 12 + 0
        → timer0_tick (at_count v (p % 12) b o) ≡ (false, at_count v ((p + 1) % 12) b o)
    tick_slow v p b o e lt =
        let n : p % 12 + 1 ≡ (p + 1) % 12 = omega arith in
        timer0_tick-slow c (low_of v) (high_of v) (p % 12) b o e (omega arith)
        ∙ ap (λ x. (false, at_count v x b o)) n

    tick_count :
        (v p b o : ℕ)
        → fast0 ≡ false
        → p % 12 ≡ 11
        → v < top
        → timer0_tick (at_count v (p % 12) b o) ≡ (false, at_count (v + 1) ((p + 1) % 12) b o)
    tick_count v p b o e last lt =
        let n : 0 ≡ (p + 1) % 12 = omega arith in
        timer0_tick-count c (low_of v) (high_of v) (p % 12) b o e last
        ∙ timer0_count-at v 0 b o runs modes lt
        ∙ ap (λ x. (false, at_count (v + 1) x b o)) n

    tick_prescaled :
        (n p b o : ℕ)
        → fast0 ≡ false
        → n + (p + 1) / 12 ≤ top
        → timer0_tick (at_count (n + p / 12) (p % 12) b o)
          ≡ (false, at_count (n + (p + 1) / 12) ((p + 1) % 12) b o)
    tick_prescaled n p b o e le = elim (Bool-cases (p % 12 == 11)) [
      | inl k ↦
          (let last : p % 12 ≡ 11 = (==_iff _ _).0 k in
            let m : n + p / 12 + 1 ≡ n + (p + 1) / 12 = omega arith in
            tick_count (n + p / 12) p b o e last (omega arith)
            ∙ ap (λ x. (false, at_count x ((p + 1) % 12) b o)) m)
      | inr k ↦
          (let still : (p + 1) / 12 ≡ p / 12 = ground arith in
            let m : n + p / 12 ≡ n + (p + 1) / 12 = omega arith in
            tick_slow (n + p / 12) p b o e (omega arith)
            ∙ ap (λ x. (false, at_count x ((p + 1) % 12) b o)) m)
    ]

    pub timer0_tick-after :
        (k b o : ℕ)
        → count_now + counts (suc k) ≤ top
        → timer0_tick (at_count (count_now + counts k) (phase fast0 c.env.timer0_prescaler k) b o)
          ≡ (
            false,
            at_count (count_now + counts (suc k)) (phase fast0 c.env.timer0_prescaler (suc k)) b o,
          )
    timer0_tick-after k b o le = elim (Bool-cases fast0) [
      | inl e ↦
          (let m : count_now + k + 1 ≡ count_now + suc k = omega arith in
            let fits : count_now + counts (suc k) ≡ count_now + suc k = rw e refl in
            rw e (
              tick_fast (count_now + k) c.env.timer0_prescaler b o e (omega arith)
              ∙ ap (λ x. (false, at_count x c.env.timer0_prescaler b o)) m))
      | inr e ↦
          (let p = c.env.timer0_prescaler in
            let m : p + k + 1 ≡ p + suc k = omega arith in
            let fits : count_now + counts (suc k) ≡ count_now + (p + suc k) / 12 = rw e refl in
            rw e (
              tick_prescaled count_now (p + k) b o e (omega arith)
              ∙ ap (λ x. (false, at_count (count_now + x / 12) (x % 12) b o)) m))
    ]
