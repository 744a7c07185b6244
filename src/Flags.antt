-- ===== src/Flags.antt =====
-- opcodes.c, `add_solve_flags` and `sub_solve_flags`: the carry, auxiliary carry and overflow
-- bits of the PSW.
use emu8051_stc.Prelude.{ℕ, ◌+◌, ◌-◌, ◌*◌, ◌/◌, ◌%◌, bit_and, bit_or, bit_xor, to_bool, and_not}
use emu8051_stc.Cpu.{Cpu}
use emu8051_stc.Mem.{psw, set_psw}
pub mod Laws

-- The three bits of an addition, as 0 or 1.
unfoldable pub add_carry : ℕ → ℕ → ℕ → ℕ
add_carry a b cin = to_bool ((bit_and a 255 + bit_and b 255 + cin) / 0x100)

unfoldable pub add_auxcarry : ℕ → ℕ → ℕ → ℕ
add_auxcarry a b cin = to_bool ((bit_and a 7 + bit_and b 7 + cin) / 8)

unfoldable pub add_overflow : ℕ → ℕ → ℕ → ℕ
add_overflow a b cin =
    to_bool (bit_xor ((bit_and a 127 + bit_and b 127 + cin) / 0x80) (add_carry a b cin))

-- Those of a subtraction. The difference is an `int`: 2^16 is added, which leaves alone the bits
-- that are read.
unfoldable pub sub_carry : ℕ → ℕ → ℕ → ℕ
sub_carry a b cin = to_bool (bit_and ((bit_and a 255 + 0x10000 - bit_and b 255 - cin) / 0x100) 1)

unfoldable pub sub_auxcarry : ℕ → ℕ → ℕ → ℕ
sub_auxcarry a b cin = to_bool (bit_and ((bit_and a 7 + 0x10000 - bit_and b 7 - cin) / 8) 1)

unfoldable pub sub_overflow : ℕ → ℕ → ℕ → ℕ
sub_overflow a b cin = to_bool (
    bit_xor (bit_and ((bit_and a 127 + 0x10000 - bit_and b 127 - cin) / 0x80) 1)
      (sub_carry a b cin))

-- The PSW with the three bits replaced.
unfoldable pub with_flags : ℕ → ℕ → ℕ → ℕ → ℕ
with_flags p carry auxcarry overflow =
    bit_or (bit_or (bit_or (and_not p 0xc4) (carry * 0x80)) (auxcarry * 0x40)) (overflow * 4)

unfoldable pub add_solve_flags : {E : Type 0} → Cpu E → ℕ → ℕ → ℕ → Cpu E
add_solve_flags c value1 value2 carryin = set_psw c (
    with_flags (psw c) (add_carry value1 value2 carryin) (add_auxcarry value1 value2 carryin)
      (add_overflow value1 value2 carryin))

unfoldable pub sub_solve_flags : {E : Type 0} → Cpu E → ℕ → ℕ → ℕ → Cpu E
sub_solve_flags c value1 value2 carryin = set_psw c (
    with_flags (psw c) (sub_carry value1 value2 carryin) (sub_auxcarry value1 value2 carryin)
      (sub_overflow value1 value2 carryin))
