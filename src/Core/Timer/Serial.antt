-- ===== src/Core/Timer/Serial.antt =====
-- What the serial port puts on its line.
use emu8051_stc.Prelude.{
  ℕ, suc, ◌-◌, ◌/◌, ◌%◌, ◌^◌, ◌<◌, ◌≡◌, refl, arith, to_bool, bit_and, bit_or, and_not, leb,
  nonzero, ◌==◌, ==_iff, if◌then◌else◌, true, false, Bool, ◌∙◌,
}
use emu8051_stc.Prelude.Bits.{passes_below, passes_below_lem, byte_eq}
use emu8051_stc.Cpu.{Cpu, set_sfr}
use emu8051_stc.Cpu.Valid.{IsValid}
use emu8051_stc.Cpu.Regs.{reg_p3, reg_sbuf}
use emu8051_stc.Core.Timer.{or_sfr, clear_sfr, serial_done, serial_shift, serial_tx}

-- A byte shifted right is nonzero where the byte is at least the power of two.
shift_table :
    passes_below 16
      (λ n. passes_below 256 (λ s. to_bool (s / 2 ^ n) == (if leb (2 ^ n) s then 1 else 0)))
    ≡ true
unfolding passes_below
shift_table = refl

nonzero_shift :
    (n s : ℕ) → n < 16 → s < 256 → to_bool (s / 2 ^ n) ≡ (if leb (2 ^ n) s then 1 else 0)
nonzero_shift n s hn hs =
    let row =
      passes_below_lem 16
        (λ n. passes_below 256 (λ s. to_bool (s / 2 ^ n) == (if leb (2 ^ n) s then 1 else 0))) n
        shift_table hn in
    (==_iff _ _).0
      (passes_below_lem 256 (λ s. to_bool (s / 2 ^ n) == (if leb (2 ^ n) s then 1 else 0)) s row hs)

line_off : (p : ℕ) → p < 256 → bit_and (and_not p 2 % 256) 2 ≡ 0
unfolding passes_below
line_off = byte_eq _ (λ p. 0) refl

line_on : (p : ℕ) → p < 256 → bit_and (bit_or (and_not p 2 % 256) 2 % 256) 2 ≡ 2
unfolding passes_below
line_on = byte_eq _ (λ p. 2) refl

module _ {E : Type 0} (c : Cpu E) where
  p3-serial_done : (serial_done c).sfr reg_p3 ≡ c.sfr reg_p3
  unfolding serial_done or_sfr set_sfr
  p3-serial_done = ground arith

  p3-if : (b : Bool) → (if b then serial_done c else c).sfr reg_p3 ≡ c.sfr reg_p3
  p3-if true = p3-serial_done
  p3-if false = refl

module _ {E : Type 0} (c : Cpu E) (h : IsValid c) where
  p3-shift :
      (on : Bool)
      → let c1 =
          clear_sfr
            (record c { serial_out_remaining_bits = c.serial_out_remaining_bits - 1 })
            reg_p3
            2 in
        bit_and ((if on then or_sfr c1 reg_p3 2 else c1).sfr reg_p3) 2 ≡ (if on then 2 else 0)
  unfolding clear_sfr or_sfr set_sfr
  p3-shift true = line_on (c.sfr reg_p3) (h.sfrs reg_p3)
  p3-shift false = line_off (c.sfr reg_p3) (h.sfrs reg_p3)

  -- With `n + 1` bits to go, at most 16, the line (P3.1) shows whether SBUF is at least 2^n: whether
  -- any of its bits from `n` up is set, and not its bit `n`.
  serial_tx_lem :
      (n : ℕ)
      → n < 16
      → c.serial_out_remaining_bits ≡ suc n
      → bit_and ((serial_tx c).sfr reg_p3) 2 ≡ (if leb (2 ^ n) (c.sfr reg_sbuf) then 2 else 0)
  unfolding serial_tx serial_shift
  serial_tx_lem n lt left =
      let z : (c.serial_out_remaining_bits == 0) ≡ false = ground arith in
      let k : c.serial_out_remaining_bits - 1 ≡ n = omega arith in
      let t = nonzero_shift n (c.sfr reg_sbuf) lt (h.sfrs reg_sbuf) in
      let bits = c.serial_out_remaining_bits - 1 in
      let on = nonzero (c.sfr reg_sbuf / 2 ^ bits) in
      let c1 = clear_sfr (record c { serial_out_remaining_bits = bits }) reg_p3 2 in
      let c2 = if on then or_sfr c1 reg_p3 2 else c1 in
      rw (z, p3-if c2 (bits == 0)) (p3-shift on ∙ rw k (ground (arith, t)))
