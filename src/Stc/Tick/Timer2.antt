-- ===== src/Stc/Tick/Timer2.antt =====
-- Timer 2 of the STC89 as a number.
use emu8051_stc.Prelude.{
  ℕ, ◌+◌, ◌*◌, ◌/◌, ◌%◌, ◌<◌, ◌≡◌, refl, arith, not, ◌&&◌, ◌==◌, bit_or, if◌then◌else◌, Bool-cases,
  inl, inr, IsBytes,
}
use emu8051_stc.Prelude.Bits.{bit_and_low, bit_or_halves, passes_below, byte_eq}
use mathlib.Core.Path.{◌∙◌, ap}
use emu8051_stc.Cpu.{Cpu, set_sfr}
use emu8051_stc.Core.Timer.{has, or_sfr}
use emu8051_stc.Stc.{Stc}
use emu8051_stc.Stc.Tick.{t2_counter, t2_next, t2_count}

-- TH2:TL2 and RCAP2H:RCAP2L.
abbrev pub timer2 : {B : Type 0} → Cpu (Stc B) → ℕ
timer2 c = c.sfr 0x4d * 0x100 + c.sfr 0x4c

abbrev pub rcap2 : {B : Type 0} → Cpu (Stc B) → ℕ
rcap2 c = c.sfr 0x4b * 0x100 + c.sfr 0x4a

tf2_byte : (x : ℕ) → x < 256 → bit_or x 0x80 % 256 ≡ bit_or x 0x80
unfolding passes_below
tf2_byte = byte_eq (λ x. bit_or x 0x80 % 256) (λ x. bit_or x 0x80) refl

module _ {B : Type 0} (c : Cpu (Stc B)) (bytes : IsBytes c.sfr) where
  counter_lem : t2_counter c ≡ (timer2 c + 1) % 0x10000
  unfolding t2_counter
  counter_lem = ap (λ n. (n + 1) % 0x10000) (bit_or_halves _ _ (bytes 0x4c) (bytes 0x4d))

  next_lem :
      t2_next c
      ≡ (if timer2 c == 0xffff then (if has c 0x48 0x01 then 0 else rcap2 c) else timer2 c + 1)
  unfolding t2_next
  next_lem =
      let e = counter_lem in
      let reload = bit_or_halves _ _ (bytes 0x4a) (bytes 0x4b) in
      let hl = bytes 0x4c in let hh = bytes 0x4d in rw (e, reload) (ground arith)

  next_lt : t2_next c < 0x10000
  next_lt =
      let a = bytes 0x4a in
      let b = bytes 0x4b in let l = bytes 0x4c in let h = bytes 0x4d in rw next_lem (ground arith)

  wraps : (t2_counter c == 0) ≡ (timer2 c == 0xffff)
  wraps = let l = bytes 0x4c in let h = bytes 0x4d in rw counter_lem (ground arith)

  value_lem : timer2 (t2_count c) ≡ t2_next c
  unfolding t2_count set_sfr
  value_lem =
      let lt = next_lt in
      let low = bit_and_low (t2_next c) (omega (arith, lt)) in
      let high = bit_and_low (t2_next c / 0x100) (omega (arith, lt)) in
      rw (low, high) (omega (arith, lt))

  flag_lem : (t2_count c).sfr 0x48 ≡ (
      if timer2 c == 0xffff && not (has c 0x48 0x30) then bit_or (c.sfr 0x48) 0x80 else c.sfr 0x48)
  unfolding t2_count or_sfr set_sfr
  flag_lem =
      let byte = tf2_byte (c.sfr 0x48) (bytes 0x48) in
      rw wraps (elim (Bool-cases (timer2 c == 0xffff)) [
        | inl e ↦
            rw e (elim (Bool-cases (has c 0x48 0x30)) [ inl k ↦ rw k refl | inr k ↦ rw k byte ])
        | inr e ↦ rw e refl
      ])

  -- Where the registers are bytes: a count of timer 2 of the STC89 adds 1, and at 65535 goes on
  -- with RCAP2, or with 0 under CP/RL2. TF2 is set where the count was 65535 and RCLK and TCLK are
  -- both clear, and T2CON stays otherwise.
  pub t2_count-timer2 :
      let d = t2_count c in
      (timer2 d
        ≡ (if timer2 c == 0xffff then (if has c 0x48 0x01 then 0 else rcap2 c) else timer2 c + 1))
      × (d.sfr 0x48 ≡ (
          if timer2 c == 0xffff && not (has c 0x48 0x30)
          then bit_or (c.sfr 0x48) 0x80
          else c.sfr 0x48))
  t2_count-timer2 = (value_lem ∙ next_lem, flag_lem)
