-- ===== src/Stc/Pca/Laws.antt =====
-- The counter of the PCA as a number, and the output of its PWM.
use emu8051_stc.Prelude.{
  ℕ, ◌+◌, ◌*◌, ◌/◌, ◌%◌, ◌^◌, ◌<◌, ◌≡◌, refl, arith, Bool, true, false, not, ◌&&◌, ◌==◌, bit_and,
  bit_or, bit_xor, and_not, nonzero, leb, if◌then◌else◌, Bool-cases, inl, inr, IsBytes, if_true,
  if_both,
}
use emu8051_stc.Prelude.Bits.{bit_and_low, bit_or_halves, passes_below, passes_below_lem, byte_eq}
use mathlib.Core.Path.{◌∙◌, ap}
use emu8051_stc.Cpu.{Cpu, set_sfr}
use emu8051_stc.Core.Timer.{has, or_sfr, clear_sfr}
use emu8051_stc.Stc.{Stc, set_stc}
use emu8051_stc.Stc.Regs.{reg_cl, reg_ch, reg_ccon}
use emu8051_stc.Stc.Pins.{port_regs, emit_pin_changes, unobserved, changed_pins}
use emu8051_stc.Stc.Pca.{ccapl_regs, pca_pin, next_count, pca_count, pwm_drive, of_module}

-- CH:CL.
abbrev pub counter : {B : Type 0} → Cpu (Stc B) → ℕ
counter c = c.sfr reg_ch * 0x100 + c.sfr reg_cl

cf_byte : (x : ℕ) → x < 256 → bit_or x 0x80 % 256 ≡ bit_or x 0x80
unfolding passes_below
cf_byte = byte_eq (λ x. bit_or x 0x80 % 256) (λ x. bit_or x 0x80) refl

module _ {B : Type 0} (c : Cpu (Stc B)) (bytes : IsBytes c.sfr) where
  next_lem : next_count c ≡ (counter c + 1) % 0x10000
  unfolding next_count
  next_lem = ap (λ n. (n + 1) % 0x10000) (bit_or_halves _ _ (bytes reg_cl) (bytes reg_ch))

  wraps : (next_count c == 0) ≡ (counter c == 0xffff)
  wraps = let l = bytes reg_cl in let h = bytes reg_ch in rw next_lem (ground arith)

  -- A count of the PCA adds 1 to CH:CL as a word, and sets CF where it wraps to 0, where the
  -- registers are bytes.
  pca_count-counter :
      (counter (pca_count c) ≡ (counter c + 1) % 0x10000)
      × ((pca_count c).sfr reg_ccon
          ≡ (if counter c == 0xffff then bit_or (c.sfr reg_ccon) 0x80 else c.sfr reg_ccon))
  unfolding pca_count or_sfr set_sfr
  pca_count-counter =
      let lt : next_count c < 0x10000 = rw next_lem (omega arith) in
      let low = bit_and_low (next_count c) (omega (arith, lt)) in
      let high = bit_and_low (next_count c / 0x100) (omega (arith, lt)) in
      let byte = cf_byte (c.sfr reg_ccon) (bytes reg_ccon) in
      elim (Bool-cases (next_count c == 0)) [
        | inl e ↦ (rw (e, low, high) (omega (arith, lt)) ∙ next_lem, rw⁻¹ wraps (rw e byte))
        | inr e ↦ (rw (e, low, high) (omega (arith, lt)) ∙ next_lem, rw⁻¹ wraps (rw e refl))
      ]

pin_table :
    passes_below 8 (λ bit. passes_below 256 (λ x.
      nonzero (bit_and (bit_or x (2 ^ bit) % 256) (2 ^ bit))
      && not (nonzero (bit_and (and_not x (2 ^ bit) % 256) (2 ^ bit)))))
    ≡ true
unfolding passes_below
pin_table = refl

module _ {B : Type 0} where
  -- The registers are not what an emission changes.
  emit-sfr : (c : Cpu (Stc B)) (port r : ℕ) → (emit_pin_changes c port).sfr r ≡ c.sfr r
  unfolding emit_pin_changes set_stc
  emit-sfr c port r =
      let at : Cpu (Stc B) → ℕ = λ d. d.sfr r in
      if_both at (at c) (unobserved c.env) c _ refl
        (if_both at (at c) (changed_pins c port == 0) c _ refl refl)

  set_same : (c : Cpu (Stc B)) (r v : ℕ) → (set_sfr c r v).sfr r ≡ v % 256
  unfolding set_sfr
  set_same c r v = if_true (r == r) _ _ (ground arith)

  pin_lt : (c : Cpu (Stc B)) (m : ℕ) → (pca_pin c m).1 < 8
  unfolding pca_pin of_module
  pin_lt c m = ground arith

  -- The latch of a pin after it is driven.
  driven :
      (c : Cpu (Stc B)) (r bit : ℕ) (high : Bool)
      → c.sfr r < 256
      → bit < 8
      → has (if high then or_sfr c r (2 ^ bit) else clear_sfr c r (2 ^ bit)) r (2 ^ bit) ≡ high
  unfolding or_sfr clear_sfr has
  driven c r bit true lt below =
      let t = passes_below_lem 256 _ (c.sfr r) (passes_below_lem 8 _ bit pin_table below) lt in
      ap (λ x. nonzero (bit_and x (2 ^ bit))) (set_same c r _) ∙ ground (arith, t)
  driven c r bit false lt below =
      let t = passes_below_lem 256 _ (c.sfr r) (passes_below_lem 8 _ bit pin_table below) lt in
      ap (λ x. nonzero (bit_and x (2 ^ bit))) (set_same c r _) ∙ ground (arith, t)

  -- The PWM output of a module is high from the compare value of the module on: after a clock of
  -- the output the latch of its pin is set exactly where CL is not below CCAPnL, where the
  -- registers are bytes.
  pwm_drive-level :
      (c : Cpu (Stc B)) (m : ℕ)
      → IsBytes c.sfr
      → let (port, bit) = pca_pin c m in
        has (pwm_drive m c) (port_regs port) (2 ^ bit) ≡ leb (c.sfr (ccapl_regs m)) (c.sfr reg_cl)
  unfolding pwm_drive has
  pwm_drive-level c m bytes =
      let port = (pca_pin c m).0 in
      let bit = (pca_pin c m).1 in
      let r = port_regs port in
      let high = leb (c.sfr (ccapl_regs m)) (c.sfr reg_cl) in
      let d = if high then or_sfr c r (2 ^ bit) else clear_sfr c r (2 ^ bit) in
      let at : Cpu (Stc B) → ℕ = λ e. e.sfr r in
      ap (λ x. nonzero (bit_and x (2 ^ bit)))
        (if_both at (at d) (nonzero (bit_and (bit_xor (c.sfr r) (d.sfr r)) (2 ^ bit)))
          (emit_pin_changes d port) d (emit-sfr d port r) refl)
      ∙ driven c r bit high (bytes r) (pin_lt c m)
