-- ===== src/Ops/Bit/Laws.antt =====
-- SETB, CLR and CPL of a bit of the internal memory, as a read of the bit sees them.
use emu8051_stc.Prelude.{
  ℕ, ◌-◌, ◌%◌, ◌^◌, ◌<◌, ◌≡◌, refl, ◌∙◌, arith, ◌==◌, ◌&&◌, true, false, ltb, bit_and, bit_or,
  bit_xor, and_not, Bool,
}
use emu8051_stc.Prelude.Bits.{passes_below, passes_below_lem, bit_and_7}
use emu8051_stc.Cpu.{Cpu, Hooks}
use emu8051_stc.Cpu.Valid.{IsValid}
use emu8051_stc.Mem.{opened, add_pc, operand1}
use emu8051_stc.Ops.Bit.{
  bitmask, byte_of_bit, read_bit, change_byte, setb_bitaddr, clr_bitaddr, cpl_bitaddr,
}

-- For a byte and one of its bits: set, cleared and turned over.
abbrev is_bit : ℕ → ℕ → Bool
is_bit x m =
    bit_and (bit_or x m % 256) m == m
    && bit_and (and_not x m % 256) m == 0
    && bit_and (bit_xor x m % 256) m == m - bit_and x m

bit_table : passes_below 256 (λ x. passes_below 8 (λ k. is_bit x (2 ^ k))) ≡ true
unfolding passes_below
bit_table = refl

is_bit-power : (x k : ℕ) → x < 256 → k < 8 → is_bit x (2 ^ k) ≡ true
is_bit-power x k hx hk =
    passes_below_lem 8 (λ k. is_bit x (2 ^ k)) k
      (passes_below_lem 256 (λ x. passes_below 8 (λ k. is_bit x (2 ^ k))) x bit_table hx) hk

module _ {E : Type 0} (hooks : Hooks E) (c : Cpu E) where
  -- The instructions that change the addressed bit do so to the byte that a read of it takes.
  read_bit-change_byte :
      (a : ℕ) (f : ℕ → ℕ)
      → a < 0x80
      → (read_bit hooks (change_byte hooks c a f) a).0
        ≡ bit_and (f (c.lower_data (byte_of_bit a)) % 256) (bitmask a)
  unfolding read_bit change_byte opened
  read_bit-change_byte a f lt =
      let low : ltb 0x7f a ≡ false = ground arith in
      let same : (byte_of_bit a == byte_of_bit a) ≡ true = ground arith in rw (low, same) refl

  read_bit-lower :
      (a : ℕ)
      → a < 0x80
      → (read_bit hooks c a).0 ≡ bit_and (c.lower_data (byte_of_bit a)) (bitmask a)
  unfolding read_bit
  read_bit-lower a lt = let low : ltb 0x7f a ≡ false = ground arith in rw low refl

module _ {E : Type 0} (hooks : Hooks E) (c : Cpu E) where
  -- A read of a bit does not see the counter.
  read_bit-add_pc :
      (d : Cpu E) (n a : ℕ) → a < 0x80 → (read_bit hooks (add_pc d n) a).0 ≡ (read_bit hooks d a).0
  unfolding read_bit opened
  read_bit-add_pc d n a lt = let low : ltb 0x7f a ≡ false = ground arith in rw low refl

  changed :
      operand1 c < 0x80
      → let a = operand1 c in
        let x = c.lower_data (byte_of_bit a) in
        ((read_bit hooks (setb_bitaddr hooks c).1 a).0
          ≡ bit_and (bit_or x (bitmask a) % 256) (bitmask a))
        × ((read_bit hooks (clr_bitaddr hooks c).1 a).0
            ≡ bit_and (and_not x (bitmask a) % 256) (bitmask a))
        × ((read_bit hooks (cpl_bitaddr hooks c).1 a).0
            ≡ bit_and (bit_xor x (bitmask a) % 256) (bitmask a))
  unfolding setb_bitaddr clr_bitaddr cpl_bitaddr
  changed lt =
      let a = operand1 c in
      (
        read_bit-add_pc _ 2 a lt ∙ read_bit-change_byte hooks c a _ lt,
        read_bit-add_pc _ 2 a lt ∙ read_bit-change_byte hooks c a _ lt,
        read_bit-add_pc _ 2 a lt ∙ read_bit-change_byte hooks c a _ lt,
      )

-- SETB, CLR and CPL of a bit of the internal memory in a valid machine: a read of the bit then gives
-- it set, cleared, and turned over, in place.
read_bit-bitaddr :
    {E : Type 0} (hooks : Hooks E) (c : Cpu E)
    → IsValid c
    → operand1 c < 0x80
    → let a = operand1 c in
      ((read_bit hooks (setb_bitaddr hooks c).1 a).0 ≡ bitmask a)
      × ((read_bit hooks (clr_bitaddr hooks c).1 a).0 ≡ 0)
      × ((read_bit hooks (cpl_bitaddr hooks c).1 a).0 ≡ bitmask a - (read_bit hooks c a).0)
unfolding bitmask
read_bit-bitaddr hooks c h lt =
    let a = operand1 c in
    let (on, off, over) = changed hooks c lt in
    let k : bit_and a 7 ≡ a % 8 = bit_and_7 a (omega arith) in
    let t =
      is_bit-power (c.lower_data (byte_of_bit a)) (bit_and a 7) (h.lower _) (rw k (omega arith)) in
    let now = read_bit-lower hooks c a lt in
    (rw on (ground (arith, t)), rw off (ground (arith, t)), rw (over, now) (ground (arith, t)))
