-- ===== src/Core/Timer/Laws.antt =====
-- What a tick of timer 0 does in the modes that count with both registers.
use emu8051_stc.Prelude.{
  ℕ, ◌+◌, ◌*◌, ◌/◌, ◌%◌, ◌<◌, ◌≡◌, refl, arith, bit_and, bit_or, and_not, ltb, ◌==◌, if◌then◌else◌,
  Bool, Bool-cases, inl, inr,
}
use emu8051_stc.Prelude.Bits.{passes_below, bit_and_31, bit_and_low, byte_eq}
use emu8051_stc.Cpu.{Cpu, set_sfr}
use emu8051_stc.Cpu.Valid.{IsValid}
use emu8051_stc.Cpu.Regs.{reg_tmod, reg_tcon, reg_tl0, reg_th0}
use emu8051_stc.Core.Timer.{
  or_sfr, count8, count13, count16, count_reload, set_tf0, count_timer0, tmod_m_0, tcon_tf0,
}

-- The mode of timer 0, and the flag of an overflow with the rest of TCON.
abbrev pub mode0 : {E : Type 0} → Cpu E → ℕ
mode0 c = bit_and (c.sfr reg_tmod) tmod_m_0

abbrev pub tcon_after : {E : Type 0} → Cpu E → Bool → ℕ
tcon_after c over = if over then bit_or (c.sfr reg_tcon) tcon_tf0 else c.sfr reg_tcon

abbrev pub counter16 : {E : Type 0} → Cpu E → ℕ
counter16 c = c.sfr reg_th0 * 0x100 + c.sfr reg_tl0

abbrev pub counter13 : {E : Type 0} → Cpu E → ℕ
counter13 c = c.sfr reg_th0 * 0x20 + c.sfr reg_tl0 % 0x20

tf0_byte : (x : ℕ) → x < 256 → bit_or x 0x20 % 256 ≡ bit_or x 0x20
unfolding passes_below
tf0_byte = byte_eq _ (λ x. bit_or x 0x20) refl

low5 :
    (x : ℕ)
    → x < 256
    → bit_or (and_not x 0x1f) (bit_and (x % 32 + 1) 0x1f) % 256 ≡ x / 32 * 32 + (x + 1) % 32
unfolding passes_below
low5 =
    byte_eq (λ x. bit_or (and_not x 0x1f) (bit_and (x % 32 + 1) 0x1f) % 256)
      (λ x. x / 32 * 32 + (x + 1) % 32) refl

module _ {E : Type 0} (c : Cpu E) (h : IsValid c) where
  -- Mode 1 counts TH0:TL0 as one word, and sets TF0 where it wraps to 0.
  pub count_timer0_16 :
      mode0 c ≡ 1
      → (counter16 (count_timer0 c) ≡ (counter16 c + 1) % 0x10000)
        × ((count_timer0 c).sfr reg_tcon ≡ tcon_after c (counter16 c == 0xffff))
  unfolding count_timer0 count16 count8 set_tf0 or_sfr set_sfr
  count_timer0_16 mode =
      let hl = h.sfrs reg_tl0 in
      let hh = h.sfrs reg_th0 in
      let ht = h.sfrs reg_tcon in
      let low = bit_and_low (c.sfr reg_tl0 + 1) (omega arith) in
      let high = bit_and_low (c.sfr reg_th0 + 1) (omega arith) in
      rw mode (elim (Bool-cases (ltb 0xff (c.sfr reg_tl0 + 1))) [
        | inl e ↦ elim (Bool-cases (ltb 0xff (c.sfr reg_th0 + 1))) [
          | inl k ↦ (
            rw (e, k) (ground (arith, low, high)),
            rw (e, k, tf0_byte (c.sfr reg_tcon) ht) (ground (arith, low, high)),
          )
          | inr k ↦ (rw (e, k) (ground (arith, low, high)), rw (e, k) (ground (arith, low, high)))
        ]
        | inr e ↦ (rw e (ground (arith, low, high)), rw e (ground (arith, low, high)))
      ])

  -- Mode 0 counts TH0 and the low five bits of TL0, whose other bits stay, and sets TF0 where
  -- they wrap to 0.
  pub count_timer0_13 :
      mode0 c ≡ 0
      → (counter13 (count_timer0 c) ≡ (counter13 c + 1) % 0x2000)
        × ((count_timer0 c).sfr reg_tl0 / 0x20 ≡ c.sfr reg_tl0 / 0x20)
        × ((count_timer0 c).sfr reg_tcon ≡ tcon_after c (counter13 c == 0x1fff))
  unfolding count_timer0 count13 count8 set_tf0 or_sfr set_sfr
  count_timer0_13 mode =
      let hl = h.sfrs reg_tl0 in
      let hh = h.sfrs reg_th0 in
      let ht = h.sfrs reg_tcon in
      let t = low5 (c.sfr reg_tl0) hl in
      let low = bit_and_31 (c.sfr reg_tl0) hl in
      let high = bit_and_low (c.sfr reg_th0 + 1) (omega arith) in
      rw (mode, low, t)
        (elim (Bool-cases (ltb 0x1f (c.sfr reg_tl0 % 32 + 1))) [
          | inl e ↦ elim (Bool-cases (ltb 0xff (c.sfr reg_th0 + 1))) [
            | inl k ↦ (
              rw (e, k) (ground (arith, high)),
              rw (e, k) (ground arith),
              rw (e, k, tf0_byte (c.sfr reg_tcon) ht) (ground (arith, high)),
            )
            | inr k ↦ (
              rw (e, k) (ground (arith, high)),
              rw (e, k) (ground arith),
              rw (e, k) (ground (arith, high)),
            )
          ]
          | inr e ↦ (rw e (ground (arith, high)), rw e (ground arith), rw e (ground (arith, high)))
        ])

  -- Mode 2 counts TL0, and where it wraps loads it from TH0 and sets TF0.
  count_timer0_reload :
      mode0 c ≡ 2
      → let d = count_timer0 c in
        (d.sfr reg_th0 ≡ c.sfr reg_th0)
        × (d.sfr reg_tl0 ≡ (if c.sfr reg_tl0 == 0xff then c.sfr reg_th0 else c.sfr reg_tl0 + 1))
        × (d.sfr reg_tcon ≡ tcon_after c (c.sfr reg_tl0 == 0xff))
  unfolding count_timer0 count_reload set_tf0 or_sfr set_sfr
  count_timer0_reload mode =
      let hl = h.sfrs reg_tl0 in
      let hh = h.sfrs reg_th0 in
      let ht = h.sfrs reg_tcon in
      let low = bit_and_low (c.sfr reg_tl0 + 1) (omega arith) in
      rw mode (elim (Bool-cases (ltb 0xff (c.sfr reg_tl0 + 1))) [
        | inl e ↦ (
          rw e (ground arith),
          rw e (ground arith),
          rw (e, tf0_byte (c.sfr reg_tcon) ht) (ground arith),
        )
        | inr e ↦ (rw e (ground arith), rw e (ground (arith, low)), rw e (ground (arith, low)))
      ])
