-- ===== src/Ops/Jump/Compare.antt =====
-- CJNE: the order of the two values, and the jump.
use emu8051_stc.Prelude.{
  ℕ, ◌+◌, ◌%◌, ◌<◌, ◌≡◌, refl, arith, ◌==◌, if◌then◌else◌, ltb, bit_or, and_not, Bool-cases, inl,
  inr,
}
use emu8051_stc.Prelude.Bits.{passes_below, byte_eq}
use emu8051_stc.Cpu.{Cpu}
use emu8051_stc.Cpu.Valid.{IsValid}
use emu8051_stc.Mem.{opened, psw, operand2}
use emu8051_stc.Flags.Laws.{signed}
use emu8051_stc.Ops.Jump.{compare_branch}

set_flag : (p : ℕ) → p < 256 → bit_or p 0x80 ≡ p % 0x80 + 0x80
unfolding passes_below
set_flag = byte_eq (λ p. bit_or p 0x80) (λ p. p % 0x80 + 0x80) refl

clear_flag : (p : ℕ) → p < 256 → and_not p 0x80 ≡ p % 0x80
unfolding passes_below
clear_flag = byte_eq (λ p. and_not p 0x80) (λ p. p % 0x80) refl

-- The end that the four CJNE share, in a valid machine: the carry is whether the first value is
-- below the second, the other flags stay, and the jump by the signed third byte (`signed` less 128)
-- from the next instruction is taken where the values differ.
compare_branch_lem :
    {E : Type 0} (c : Cpu E)
    → IsValid c
    → (x y : ℕ)
    → let d = compare_branch c x y in
      (psw d ≡ psw c % 0x80 + (if ltb x y then 0x80 else 0))
      × (d.pc ≡ (if x == y then c.pc + 3 else c.pc + 3 + signed (operand2 c) + 0xff80) % 0x10000)
unfolding compare_branch opened
compare_branch_lem c h x y =
    let p = c.sfr 0x50 in
    let hp = h.sfrs 0x50 in
    let on = set_flag p hp in
    let off = clear_flag p hp in
    let b : operand2 c < 0x100 = h.code _ in
    let jump : (compare_branch c x y).pc
        ≡ (if x == y then c.pc + 3 else c.pc + 3 + signed (operand2 c) + 0xff80) % 0x10000 =
      ground (arith, b) in
    elim (Bool-cases (ltb x y)) [
      | inl e ↦ (rw (e, on) (omega arith), jump)
      | inr e ↦ (rw (e, off) (omega arith), jump)
    ]
