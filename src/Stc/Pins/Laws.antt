-- ===== src/Stc/Pins/Laws.antt =====
-- What an emission of pin changes leaves to emit.
use emu8051_stc.Prelude.{
  ℕ, ◌<◌, ◌≡◌, refl, arith, true, ◌==◌, ==_iff, bit_or, bit_xor, if◌then◌else◌, IsBytes, if_true,
  if_keeps, update,
}
use emu8051_stc.Prelude.Bits.{passes_below, byte_eq}
use mathlib.Core.Path.{sym, ◌∙◌, ap, subst}
use emu8051_stc.Cpu.{Cpu}
use emu8051_stc.Stc.{Stc, set_stc}
use emu8051_stc.Stc.Pins.{
  port_regs, m1_regs, m0_regs, changed_pins, emit_changed, emit_pin_changes, unobserved, emit_pins,
  pins,
}

xor_same : (x : ℕ) → x < 256 → bit_xor x x ≡ 0
unfolding passes_below
xor_same = byte_eq (λ x. bit_xor x x) (λ _. 0) refl

module _ {B : Type 0} (c : Cpu (Stc B)) (port : ℕ) (bytes : IsBytes c.sfr) where
  shadow_same : (f : ℕ → ℕ) (v : ℕ) → v < 256 → bit_xor v (update f port v port) ≡ 0
  shadow_same f v lt =
      ap (bit_xor v) (if_true (port == port) v (f port) (ground arith)) ∙ xor_same v lt

  nothing_left : changed_pins (set_stc c (emit_changed c port)) port ≡ 0
  unfolding changed_pins set_stc emit_changed
  nothing_left =
      let s =
        emit_pins port (c.sfr (port_regs port)) (c.sfr (m1_regs port)) (c.sfr (m0_regs port))
          (changed_pins c port) pins c.env in
      let a = shadow_same s.pin_drive_shadow (c.sfr (port_regs port)) (bytes (port_regs port)) in
      let b = shadow_same s.pin_m1_shadow (c.sfr (m1_regs port)) (bytes (m1_regs port)) in
      let d = shadow_same s.pin_m0_shadow (c.sfr (m0_regs port)) (bytes (m0_regs port)) in
      λ i. bit_or (bit_or (a i) (b i)) (d i)

  stays : (d : Cpu (Stc B)) → changed_pins d port ≡ 0 → emit_pin_changes d port ≡ d
  unfolding emit_pin_changes
  stays d e =
      let k : (changed_pins d port == 0) ≡ true = ground (arith, e) in
      if_keeps (λ x. x ≡ d) (unobserved d.env) d _ (λ _. refl)
        (λ _. if_true (changed_pins d port == 0) _ _ k)

  abbrev Settled : Cpu (Stc B) → Type 0
  Settled d = emit_pin_changes d port ≡ d

  unseen : unobserved c.env ≡ true → emit_pin_changes c port ≡ c
  unfolding emit_pin_changes
  unseen e = if_true (unobserved c.env) _ _ e

  unfolded : emit_pin_changes c port ≡ (
      if unobserved c.env
      then c
      else if changed_pins c port == 0
      then c
      else set_stc c (emit_changed c port))
  unfolding emit_pin_changes
  unfolded = refl

  -- An emission leaves nothing to emit: another one right after it changes nothing, where the
  -- registers are bytes.
  emit_pin_changes-idempotent :
      emit_pin_changes (emit_pin_changes c port) port ≡ emit_pin_changes c port
  emit_pin_changes-idempotent = subst Settled (sym unfolded) (
      if_keeps Settled (unobserved c.env) c _ unseen (λ _.
        if_keeps Settled (changed_pins c port == 0) c (set_stc c (emit_changed c port))
          (λ e. stays c ((==_iff _ _).0 e))
          (λ _. stays (set_stc c (emit_changed c port)) nothing_left)))
