-- ===== src/Ops/Logic/Rotate.antt =====
-- The rotations undo each other.
use emu8051_stc.Prelude.{
  ℕ, ◌+◌, ◌*◌, ◌/◌, ◌%◌, ◌<◌, ◌≡◌, refl, arith, ◌==◌, ==_iff, true, bit_and, bit_or, and_not,
  to_bool,
}
use emu8051_stc.Prelude.Bits.{passes_below, passes_below_lem, byte_eq, bit_and_1}
use emu8051_stc.Cpu.{Cpu}
use emu8051_stc.Cpu.Valid.{IsValid}
use emu8051_stc.Mem.{opened, acc, psw}
use emu8051_stc.Ops.Logic.{rr_a, rl_a, rrc_a, rlc_a}
use emu8051_stc.Ops.Logic.Valid.{rrc_a-IsValid, rr_a-IsValid}

-- The bits that the rotations put together.
high_table :
    passes_below 256 (λ a. passes_below 2 (λ k. bit_or (a / 2) (k * 0x80) == a / 2 + k * 0x80))
    ≡ true
unfolding passes_below
high_table = refl

high_bit : (a k : ℕ) → a < 256 → k < 2 → bit_or (a / 2) (k * 0x80) ≡ a / 2 + k * 0x80
high_bit a k ha hk = (==_iff _ _).0 (
    passes_below_lem 2 (λ k. bit_or (a / 2) (k * 0x80) == a / 2 + k * 0x80) k
      (passes_below_lem 256
        (λ a. passes_below 2 (λ k. bit_or (a / 2) (k * 0x80) == a / 2 + k * 0x80)) a high_table ha)
      hk)

low_table : passes_below 256 (λ a. passes_below 2 (λ k. bit_or (a * 2) k == a * 2 + k)) ≡ true
unfolding passes_below
low_table = refl

low_bit : (a k : ℕ) → a < 256 → k < 2 → bit_or (a * 2) k ≡ a * 2 + k
low_bit a k ha hk = (==_iff _ _).0 (
    passes_below_lem 2 (λ k. bit_or (a * 2) k == a * 2 + k) k
      (passes_below_lem 256 (λ a. passes_below 2 (λ k. bit_or (a * 2) k == a * 2 + k)) a low_table
        ha)
      hk)

flag_table :
    passes_below 256
      (λ p. passes_below 2 (λ k. bit_or (and_not p 0x80) (k * 0x80) == p % 0x80 + k * 0x80))
    ≡ true
unfolding passes_below
flag_table = refl

flag_bit : (p k : ℕ) → p < 256 → k < 2 → bit_or (and_not p 0x80) (k * 0x80) ≡ p % 0x80 + k * 0x80
flag_bit p k hp hk = (==_iff _ _).0 (
    passes_below_lem 2 (λ k. bit_or (and_not p 0x80) (k * 0x80) == p % 0x80 + k * 0x80) k
      (passes_below_lem 256
        (λ p. passes_below 2 (λ k. bit_or (and_not p 0x80) (k * 0x80) == p % 0x80 + k * 0x80)) p
        flag_table hp)
      hk)

carry_bit : (p : ℕ) → p < 256 → bit_and p 0x80 / 0x80 ≡ p / 0x80
unfolding passes_below
carry_bit = byte_eq (λ p. bit_and p 0x80 / 0x80) (λ p. p / 0x80) refl

right_byte : (a : ℕ) → a < 256 → bit_or (a / 2) (a * 0x80) % 256 ≡ a / 2 + a % 2 * 0x80
unfolding passes_below
right_byte = byte_eq (λ a. bit_or (a / 2) (a * 0x80) % 256) (λ a. a / 2 + a % 2 * 0x80) refl

left_byte : (a : ℕ) → a < 256 → bit_or (a * 2) (a / 0x80) % 256 ≡ a % 0x80 * 2 + a / 0x80
unfolding passes_below
left_byte = byte_eq (λ a. bit_or (a * 2) (a / 0x80) % 256) (λ a. a % 0x80 * 2 + a / 0x80) refl

module _ {E : Type 0} (c : Cpu E) (h : IsValid c) where
  bytes : (acc c < 256) × (psw c < 256)
  unfolding opened
  bytes = (h.sfrs _, h.sfrs _)

  rrc_a_lem :
      (acc (rrc_a c).1 ≡ acc c / 2 + psw c / 0x80 * 0x80)
      × (psw (rrc_a c).1 ≡ psw c % 0x80 + acc c % 2 * 0x80)
  unfolding rrc_a opened
  rrc_a_lem =
      let a = c.sfr 0x60 in
      let p = c.sfr 0x50 in
      let (ha, hp) = bytes in
      (
        rw (carry_bit p hp, high_bit a (p / 0x80) ha (omega arith)) (omega arith),
        rw (bit_and_1 a (omega arith), flag_bit p (a % 2) hp (omega arith)) (omega arith),
      )

  rlc_a_lem :
      (acc (rlc_a c).1 ≡ acc c % 0x80 * 2 + psw c / 0x80)
      × (psw (rlc_a c).1 ≡ psw c % 0x80 + acc c / 0x80 * 0x80)
  unfolding rlc_a opened
  rlc_a_lem =
      let a = c.sfr 0x60 in
      let p = c.sfr 0x50 in
      let (ha, hp) = bytes in
      let bit : to_bool (a / 0x80) ≡ a / 0x80 = ground arith in
      (
        rw (carry_bit p hp, low_bit a (p / 0x80) ha (omega arith)) (omega arith),
        rw (bit, flag_bit p (a / 0x80) hp (omega arith)) (omega arith),
      )

  rr_a_lem : acc (rr_a c).1 ≡ acc c / 2 + acc c % 2 * 0x80
  unfolding rr_a opened
  rr_a_lem = right_byte (c.sfr 0x60) (h.sfrs 0x60)

  rl_a_lem : acc (rl_a c).1 ≡ acc c % 0x80 * 2 + acc c / 0x80
  unfolding rl_a opened
  rl_a_lem = left_byte (c.sfr 0x60) (h.sfrs 0x60)

module _ {E : Type 0} (c : Cpu E) (h : IsValid c) where
  -- RLC after RRC restores A and the PSW of a valid machine, the carry among it.
  pub rlc_a-rrc_a : let d = (rlc_a (rrc_a c).1).1 in (acc d ≡ acc c) × (psw d ≡ psw c)
  rlc_a-rrc_a =
      let (ha, hp) = bytes c h in
      let (a1, p1) = rrc_a_lem c h in
      let (a2, p2) = rlc_a_lem (rrc_a c).1 (rrc_a-IsValid c h) in
      (omega (arith, a1, p1, a2), omega (arith, a1, p1, p2))

  -- RL after RR restores A of a valid machine.
  pub rl_a-rr_a : acc (rl_a (rr_a c).1).1 ≡ acc c
  rl_a-rr_a =
      let (ha, _) = bytes c h in
      let a1 = rr_a_lem c h in
      let a2 = rl_a_lem (rr_a c).1 (rr_a-IsValid c h) in omega (arith, a1, a2)

  -- RL after RR restores A, and RLC after RRC restores A and the PSW, the carry among it, of a
  -- valid machine.
  rotations-back :
      (acc (rl_a (rr_a c).1).1 ≡ acc c)
      × (let d = (rlc_a (rrc_a c).1).1 in (acc d ≡ acc c) × (psw d ≡ psw c))
  rotations-back = (rl_a-rr_a, rlc_a-rrc_a)
