-- ===== src/Ops/Alu/Laws.antt =====
-- opcodes.c: ADD and SUBB against arithmetic.
use emu8051_stc.Prelude.{
  ℕ, ◌+◌, ◌-◌, ◌/◌, ◌%◌, ◌<◌, ◌≡◌, refl, arith, true, ltb, if◌then◌else◌, bit_and,
}
use emu8051_stc.Prelude.Bits.{passes_below, passes_below_lem}
use native.Mathlib.Nat.{add_comm}
use emu8051_stc.Cpu.{Cpu, Hooks, set_sfr, set_pc}
use emu8051_stc.Cpu.Valid.{IsValid}
use emu8051_stc.Mem.{
  opened, acc, psw, carry, operand1, rx_address, indir_rx_address, read_mem_indir, read_mem,
  set_acc, set_psw, add_pc,
}
use emu8051_stc.Mem.Valid.{AreValid, read_mem_indir-lt, read_mem-lt, read_mem-IsValid}
use emu8051_stc.Flags.{add_solve_flags, sub_solve_flags}
use emu8051_stc.Flags.Laws.{
  signed, overflows, sub_overflows, HasFlags, add_flags_lem, sub_flags_lem,
}
use emu8051_stc.Ops.Alu.{
  add_a_imm, add_a_rx, add_a_indir_rx, subb_a_imm, subb_a_rx, subb_a_indir_rx, add_a_mem,
  subb_a_mem,
}

-- What an addition of `b` and a carry to A leaves. The auxiliary carry is that out of bit 2.
pub record IsSum {E : Type 0} (c d : Cpu E) (b cin : ℕ) : Type 0 where
  pub sum : acc d ≡ (acc c + b + cin) % 0x100
  pub flags :
      HasFlags
        (psw c)
        (psw d)
        ((acc c + b + cin) / 0x100)
        ((acc c % 8 + b % 8 + cin) / 8)
        (overflows (acc c) b cin)

-- What a subtraction of `b` and a borrow from A leaves.
pub record IsDifference {E : Type 0} (c d : Cpu E) (b cin : ℕ) : Type 0 where
  pub difference : acc d ≡ (acc c + 0x200 - b - cin) % 0x100
  pub auxcarry : ℕ
  pub flags :
      HasFlags
        (psw c)
        (psw d)
        (if ltb (acc c) (b + cin) then 1 else 0)
        auxcarry
        (sub_overflows (acc c) b cin)

pub HasFlags-swap :
    {p q : ℕ} (a b cin : ℕ)
    → HasFlags p q ((a + b + cin) / 0x100) ((a % 8 + b % 8 + cin) / 8) (overflows a b cin)
    → HasFlags p q ((b + a + cin) / 0x100) ((b % 8 + a % 8 + cin) / 8) (overflows b a cin)
HasFlags-swap a b cin f =
    rw (add_comm b a, add_comm (b % 8) (a % 8), add_comm (signed b) (signed a)) f

carry_table : passes_below 256 (λ p. ltb (bit_and p 0x80 / 0x80) 2) ≡ true
unfolding passes_below
carry_table = refl

pub carry-lt : {E : Type 0} (c : Cpu E) → IsValid c → carry c < 2
unfolding opened
carry-lt c h =
    let t =
      passes_below_lem 256 (λ p. ltb (bit_and p 0x80 / 0x80) 2) (c.sfr 0x50) carry_table
        (h.sfrs 0x50) in
    ground arith

module _ {E : Type 0} (c : Cpu E) (h : IsValid c) where
  -- ADD of its immediate operand in a valid machine leaves the sum and its flags, with AC the carry out of
  -- bit 2.
  pub add_a_imm-IsSum : IsSum c (add_a_imm c).1 (operand1 c) 0
  unfolding add_a_imm add_solve_flags opened
  add_a_imm-IsSum =
      let b = operand1 c in
      let hb : b < 0x100 = h.code _ in
      let f =
        add_flags_lem (c.sfr 0x50) (c.sfr 0x60) b 0 (h.sfrs 0x50) (h.sfrs 0x60) hb (omega arith) in
      record { sum = omega arith; flags = f }

  -- ADD of the operand that its register points to in a valid machine leaves the sum and its flags, with AC the carry out of
  -- bit 2.
  pub add_a_indir_rx-IsSum : IsSum c (add_a_indir_rx c).1 (read_mem_indir c (indir_rx_address c)) 0
  unfolding add_a_indir_rx add_solve_flags opened
  add_a_indir_rx-IsSum =
      let b = read_mem_indir c (indir_rx_address c) in
      let hb : b < 0x100 = read_mem_indir-lt h _ in
      let f =
        add_flags_lem (c.sfr 0x50) (c.sfr 0x60) b 0 (h.sfrs 0x50) (h.sfrs 0x60) hb (omega arith) in
      record { sum = omega arith; flags = f }

  -- ADD of its register in a valid machine leaves the sum and its flags, with AC the carry out of
  -- bit 2.
  pub add_a_rx-IsSum : IsSum c (add_a_rx c).1 (c.lower_data (rx_address c)) 0
  unfolding add_a_rx add_solve_flags opened
  add_a_rx-IsSum =
      let b = c.lower_data (rx_address c) in
      let hb : b < 0x100 = h.lower _ in
      let f =
        add_flags_lem (c.sfr 0x50) b (c.sfr 0x60) 0 (h.sfrs 0x50) hb (h.sfrs 0x60) (omega arith) in
      record { sum = omega arith; flags = HasFlags-swap b (c.sfr 0x60) 0 f }

  -- SUBB of its immediate operand in a valid machine leaves the difference with the borrow, its borrow
  -- and its overflow.
  pub subb_a_imm-IsDifference : IsDifference c (subb_a_imm c).1 (operand1 c) (carry c)
  unfolding subb_a_imm sub_solve_flags opened
  subb_a_imm-IsDifference =
      let b = operand1 c in
      let hb : b < 0x100 = h.code _ in
      let hc = carry-lt c h in
      let f =
        sub_flags_lem (c.sfr 0x50) (c.sfr 0x60) b (carry c) (h.sfrs 0x50) (h.sfrs 0x60) hb hc in
      record { difference = omega arith; auxcarry = f.0; flags = f.1 }

  -- SUBB of the operand that its register points to in a valid machine leaves the difference with the borrow, its borrow
  -- and its overflow.
  pub subb_a_indir_rx-IsDifference :
      IsDifference c (subb_a_indir_rx c).1 (read_mem_indir c (indir_rx_address c)) (carry c)
  unfolding subb_a_indir_rx sub_solve_flags opened
  subb_a_indir_rx-IsDifference =
      let b = read_mem_indir c (indir_rx_address c) in
      let hb : b < 0x100 = read_mem_indir-lt h _ in
      let hc = carry-lt c h in
      let f =
        sub_flags_lem (c.sfr 0x50) (c.sfr 0x60) b (carry c) (h.sfrs 0x50) (h.sfrs 0x60) hb hc in
      record { difference = omega arith; auxcarry = f.0; flags = f.1 }

  -- SUBB of its register in a valid machine leaves the difference with the borrow, its borrow
  -- and its overflow.
  pub subb_a_rx-IsDifference :
      IsDifference c (subb_a_rx c).1 (c.lower_data (rx_address c)) (carry c)
  unfolding subb_a_rx sub_solve_flags opened
  subb_a_rx-IsDifference =
      let b = c.lower_data (rx_address c) in
      let hb : b < 0x100 = h.lower _ in
      let hc = carry-lt c h in
      let f =
        sub_flags_lem (c.sfr 0x50) (c.sfr 0x60) b (carry c) (h.sfrs 0x50) (h.sfrs 0x60) hb hc in
      record { difference = omega arith; auxcarry = f.0; flags = f.1 }

module _ {E : Type 0} (hooks : Hooks E) (ok : AreValid hooks) (c : Cpu E) (h : IsValid c) where
  add_a_mem-IsSum :
      IsSum
        (read_mem hooks c (operand1 c)).1
        (add_a_mem hooks c).1
        (read_mem hooks c (operand1 c)).0
        0
  unfolding add_a_mem add_solve_flags set_sfr set_pc set_acc set_psw add_pc psw acc
  add_a_mem-IsSum =
      let (b, d) = read_mem hooks c (operand1 c) in
      let hb : b < 0x100 = read_mem-lt ok h _ in
      let valid : IsValid d = read_mem-IsValid ok h _ in
      let f =
        add_flags_lem (d.sfr 0x50) (d.sfr 0x60) b 0 (valid.sfrs 0x50) (valid.sfrs 0x60) hb
          (omega arith) in
      record { sum = omega arith; flags = f }

  subb_a_mem-IsDifference :
      IsDifference
        (read_mem hooks c (operand1 c)).1
        (subb_a_mem hooks c).1
        (read_mem hooks c (operand1 c)).0
        (carry c)
  unfolding subb_a_mem sub_solve_flags set_sfr set_pc set_acc set_psw add_pc psw acc
  subb_a_mem-IsDifference =
      let (b, d) = read_mem hooks c (operand1 c) in
      let hb : b < 0x100 = read_mem-lt ok h _ in
      let valid : IsValid d = read_mem-IsValid ok h _ in
      let f =
        sub_flags_lem (d.sfr 0x50) (d.sfr 0x60) b (carry c) (valid.sfrs 0x50) (valid.sfrs 0x60) hb
          (carry-lt c h) in
      record { difference = omega arith; auxcarry = f.0; flags = f.1 }

  -- ADD of an immediate operand, of the operand that a register points to, of a register and of the
  -- operand at a direct address leaves, in a valid machine whose callbacks keep it valid, the sum
  -- modulo 256, the carry out of bit 7, the signed overflow and in AC the carry out of bit 2. At a
  -- direct address, A is what the callback of the address leaves in it.
  pub add-IsSum :
      IsSum c (add_a_imm c).1 (operand1 c) 0
      × IsSum c (add_a_indir_rx c).1 (read_mem_indir c (indir_rx_address c)) 0
      × IsSum c (add_a_rx c).1 (c.lower_data (rx_address c)) 0
      × IsSum
          (read_mem hooks c (operand1 c)).1
          (add_a_mem hooks c).1
          (read_mem hooks c (operand1 c)).0
          0
  add-IsSum = (add_a_imm-IsSum c h, add_a_indir_rx-IsSum c h, add_a_rx-IsSum c h, add_a_mem-IsSum)

  -- SUBB of an immediate operand, of the operand that a register points to, of a register and of
  -- the operand at a direct address leaves, in a valid machine whose callbacks keep it valid, the
  -- difference with the borrow that was there, its borrow and its signed overflow. At a direct
  -- address, A is what the callback of the address leaves in it.
  pub subb-IsDifference :
      IsDifference c (subb_a_imm c).1 (operand1 c) (carry c)
      × IsDifference c (subb_a_indir_rx c).1 (read_mem_indir c (indir_rx_address c)) (carry c)
      × IsDifference c (subb_a_rx c).1 (c.lower_data (rx_address c)) (carry c)
      × IsDifference
          (read_mem hooks c (operand1 c)).1
          (subb_a_mem hooks c).1
          (read_mem hooks c (operand1 c)).0
          (carry c)
  subb-IsDifference = (
    subb_a_imm-IsDifference c h,
    subb_a_indir_rx-IsDifference c h,
    subb_a_rx-IsDifference c h,
    subb_a_mem-IsDifference,
  )
