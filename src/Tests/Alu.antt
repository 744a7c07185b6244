-- ===== src/Tests/Alu.antt =====
-- Runs of the handlers that compute.
use emu8051_stc.Prelude.{ℕ, ◌+◌, ◌*◌, ◌/◌, ◌%◌, ◌<◌, ◌⊎◌, ◌≡◌, refl, arith}
use emu8051_stc.Cpu.{Cpu}
use emu8051_stc.Cpu.Valid.{IsValid}
use emu8051_stc.Mem.{
  read_mem, acc, psw, carry, operand1, rx_address, indir_rx_address, read_mem_indir, opened,
}
use emu8051_stc.Ops.Alu.{
  div_ab, add_a_imm, add_a_rx, add_a_indir_rx, subb_a_imm, subb_a_rx, subb_a_indir_rx, add_a_mem,
  subb_a_mem, da_a,
}
use emu8051_stc.Flags.Laws.{HasFlags}
use emu8051_stc.Cpu.Regs.{reg_b}
use emu8051_stc.Ops.Alu.MulDiv.{div_ab_lem}
use emu8051_stc.Ops.Alu.Laws.{IsSum, IsDifference, add-IsSum, subb-IsDifference}
use emu8051_stc.Ops.Alu.Decimal.{IsDecimal, FlagsOfSum, decimal, da_a_lem, da_a-add_a_imm}
use emu8051_stc.Tests.{
  callbacks, callbacks-AreValid, cells, cells-IsBytes, machine, machine-IsValid,
}

-- A = 0x7f, B = 0x91, the carry set, and an operand 0x95.
abbrev adder : Cpu ℕ
adder = machine (cells 0 0x34 1 0x95 2 0) (cells 0x60 0x7f 0x50 0x80 0x70 0x91) 1

adder-IsValid : IsValid adder
adder-IsValid =
    machine-IsValid _ _ 1
      (cells-IsBytes 0 0x34 1 0x95 2 0 (omega arith) (omega arith) (omega arith))
      (cells-IsBytes 0x60 0x7f 0x50 0x80 0x70 0x91 (omega arith) (omega arith) (omega arith))

-- 0x99 + 0x99 in decimal: A = 0x32 with both carries.
abbrev decimal_sum : Cpu ℕ
decimal_sum = machine (cells 0 0xd4 1 0 2 0) (cells 0x60 0x32 0x50 0xc0 2 0) 1

decimal_sum-IsValid : IsValid decimal_sum
decimal_sum-IsValid =
    machine-IsValid _ _ 1 (cells-IsBytes 0 0xd4 1 0 2 0 (omega arith) (omega arith) (omega arith))
      (cells-IsBytes 0x60 0x32 0x50 0xc0 2 0 (omega arith) (omega arith) (omega arith))

nines-IsDecimal : IsDecimal 0x99
nines-IsDecimal = record { low = omega arith; high = omega arith }

decimal_sum-FlagsOfSum : FlagsOfSum (psw decimal_sum) 0x99 0x99 0
unfolding opened
decimal_sum-FlagsOfSum = record { carry = refl; auxcarry = refl }

decimal_sum-acc : acc decimal_sum ≡ (0x99 + 0x99 + 0) % 0x100
unfolding opened
decimal_sum-acc = refl

da_a_example :
    let d = (da_a decimal_sum).1 in
    IsDecimal (acc d) × (psw d / 0x80 * 100 + decimal (acc d) ≡ decimal 0x99 + decimal 0x99 + 0)
da_a_example =
    da_a_lem decimal_sum decimal_sum-IsValid 0x99 0x99 0 nines-IsDecimal nines-IsDecimal
      (omega arith) decimal_sum-acc decimal_sum-FlagsOfSum

-- 4 + 4, which DA A makes 0x0e.
abbrev four_and_four : Cpu ℕ
four_and_four = machine (cells 0 0x24 1 4 2 0xd4) (cells 0x60 4 0 0 0 0) 1

four_and_four-IsValid : IsValid four_and_four
four_and_four-IsValid =
    machine-IsValid _ _ 1
      (cells-IsBytes 0 0x24 1 4 2 0xd4 (omega arith) (omega arith) (omega arith))
      (cells-IsBytes 0x60 4 0 0 0 0 (omega arith) (omega arith) (omega arith))

four_and_four-acc : (acc four_and_four ≡ 4) × (operand1 four_and_four ≡ 4)
unfolding opened
four_and_four-acc = (refl, refl)

four_and_four-IsDecimal : IsDecimal (acc four_and_four) × IsDecimal (operand1 four_and_four)
four_and_four-IsDecimal =
    let (a, o) = four_and_four-acc in
    (
      record { low = omega (arith, a); high = omega (arith, a) },
      record { low = omega (arith, o); high = omega (arith, o) },
    )

digits_of_four_and_four :
    (acc four_and_four % 16 < 8)
    × (operand1 four_and_four % 16 < 8)
    × (7 < acc four_and_four % 16 + operand1 four_and_four % 16)
    × (acc four_and_four % 16 + operand1 four_and_four % 16 < 10)
digits_of_four_and_four =
    let (a, o) = four_and_four-acc in
    (omega (arith, a), omega (arith, o), omega (arith, a, o), omega (arith, a, o))

da_a-add_a_imm_example : ¬ IsDecimal (acc (da_a (add_a_imm four_and_four).1).1)
da_a-add_a_imm_example =
    da_a-add_a_imm four_and_four four_and_four-IsValid four_and_four-IsDecimal.0
      four_and_four-IsDecimal.1 digits_of_four_and_four.0 digits_of_four_and_four.1
      digits_of_four_and_four.2 digits_of_four_and_four.3

add-IsSum_example :
    IsSum adder (add_a_imm adder).1 (operand1 adder) 0
    × IsSum adder (add_a_indir_rx adder).1 (read_mem_indir adder (indir_rx_address adder)) 0
    × IsSum adder (add_a_rx adder).1 (adder.lower_data (rx_address adder)) 0
    × IsSum
        (read_mem callbacks adder (operand1 adder)).1
        (add_a_mem callbacks adder).1
        (read_mem callbacks adder (operand1 adder)).0
        0
add-IsSum_example = add-IsSum callbacks callbacks-AreValid adder adder-IsValid

subb-IsDifference_example :
    IsDifference adder (subb_a_imm adder).1 (operand1 adder) (carry adder)
    × IsDifference adder
        (subb_a_indir_rx adder).1
        (read_mem_indir adder (indir_rx_address adder))
        (carry adder)
    × IsDifference adder (subb_a_rx adder).1 (adder.lower_data (rx_address adder)) (carry adder)
    × IsDifference
        (read_mem callbacks adder (operand1 adder)).1
        (subb_a_mem callbacks adder).1
        (read_mem callbacks adder (operand1 adder)).0
        (carry adder)
subb-IsDifference_example = subb-IsDifference callbacks callbacks-AreValid adder adder-IsValid

-- 0x7f divided by 0x91.
div_ab_lem_example :
    let d = (div_ab adder).1 in
    ((0 < adder.sfr reg_b)
      × (acc adder ≡ acc d * adder.sfr reg_b + d.sfr reg_b)
      × (d.sfr reg_b < adder.sfr reg_b)
      × HasFlags (psw adder) (psw d) 0 (psw adder / 0x40 % 2) 0)
    ⊎ ((adder.sfr reg_b ≡ 0)
        × (acc d ≡ acc adder)
        × (d.sfr reg_b ≡ 0)
        × HasFlags (psw adder) (psw d) 0 (psw adder / 0x40 % 2) 1)
div_ab_lem_example = div_ab_lem adder adder-IsValid
