-- ===== src/Core/Tick/Laws.antt =====
-- The timing of a tick, the parity and the power-saving modes.
use emu8051_stc.Prelude.{
  ℕ, zero, suc, ◌+◌, ◌*◌, ◌/◌, ◌%◌, ◌<◌, ◌≡◌, refl, arith, bit_or, and_not, nonzero, ◌==◌, true,
  Bool-cases, inl, inr, ◌&&◌,
}
use emu8051_stc.Prelude.Bits.{passes_below, passes_below_lem, byte_eq}
use emu8051_stc.Cpu.{Cpu}
use emu8051_stc.Cpu.Valid.{IsValid}
use emu8051_stc.Mem.{opened, acc, psw}
use emu8051_stc.Core.Tick.{parity, update_parity}

-- The number of ones among the lowest `n` bits.
pub ones : ℕ → ℕ → ℕ
ones zero x = 0
ones (suc n) x = x % 2 + ones n (x / 2)

parity-ones : (x : ℕ) → x < 256 → parity x ≡ ones 8 x % 2
unfolding passes_below parity ones
parity-ones = byte_eq parity (λ x. ones 8 x % 2) refl

psw_parity_table :
    passes_below 256
      (λ p. (bit_or (and_not p 1) 0 == p / 2 * 2) && (bit_or (and_not p 1) 1 == p / 2 * 2 + 1))
    ≡ true
unfolding passes_below
psw_parity_table = refl

-- The parity flag is that of the number of ones in A, and the other flags stay.
pub update_parity_lem :
    {E : Type 0} (c : Cpu E)
    → IsValid c
    → psw (update_parity c) ≡ psw c / 2 * 2 + ones 8 (acc c) % 2
unfolding update_parity opened
update_parity_lem c h =
    let p = parity-ones (c.sfr 0x60) (h.sfrs 0x60) in
    let t =
      passes_below_lem 256
        (λ p. (bit_or (and_not p 1) 0 == p / 2 * 2) && (bit_or (and_not p 1) 1 == p / 2 * 2 + 1))
        (c.sfr 0x50) psw_parity_table (h.sfrs 0x50) in
    let hp = h.sfrs 0x50 in
    rw p (elim (Bool-cases (nonzero (ones 8 (c.sfr 0x60) % 2))) [
      | inl e ↦ let one : ones 8 (c.sfr 0x60) % 2 ≡ 1 = ground arith in rw one (ground (arith, t))
      | inr e ↦ let none : ones 8 (c.sfr 0x60) % 2 ≡ 0 = ground arith in rw none (ground (arith, t))
    ])
