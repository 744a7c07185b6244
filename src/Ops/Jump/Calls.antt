-- ===== src/Ops/Jump/Calls.antt =====
-- Calls and returns: a call leaves the address of the next instruction on the stack, and a return
-- takes it from there.
use emu8051_stc.Prelude.{
  ℕ, ◌+◌, ◌-◌, ◌*◌, ◌%◌, ◌/◌, ◌<◌, ◌≤◌, ◌≡◌, ◌==◌, if◌then◌else◌, refl, arith, ◌∙◌, true, u16,
  bit_or,
}
use emu8051_stc.Prelude.Bits.{bit_or_word}
use emu8051_stc.Cpu.{Cpu, Hooks, set_sfr, set_pc}
use emu8051_stc.Cpu.Regs.{reg_sp}
use emu8051_stc.Mem.{read_mem_indir}
use emu8051_stc.Mem.Stack.{
  Pushed, set_pc-Pushed, push_word-Pushed, pc-push_to_stack, has_cell, pop_from_stack-eq,
}
use emu8051_stc.Ops.Jump.{pop_pc, ret, lcall_address, acall_offset}

-- What a return does: `a` is the new counter, and `sp` the new stack pointer.
pub record Returned {E : Type 0} (d e : Cpu E) (sp a : ℕ) : Type 0 where
  pub counter : e.pc ≡ a
  pub pointer : e.sfr reg_sp ≡ sp
  pub registers : (r : ℕ) → e.sfr r ≡ (if r == reg_sp then sp else d.sfr r)
  pub memory : (b : ℕ) → read_mem_indir e b ≡ read_mem_indir d b
  pub levels : e.interrupt_active ≡ d.interrupt_active

module _ {E : Type 0} (d : Cpu E) where
  -- The machine between the two pops.
  half : Cpu E
  half = set_pc (set_sfr d 1 (d.sfr 1 - 1)) (read_mem_indir d (d.sfr 1) * 0x100)

  done : Cpu E
  done =
      let e = set_sfr half 1 (half.sfr 1 - 1) in
      set_pc e (bit_or e.pc (read_mem_indir half (half.sfr 1)))

module _ {E : Type 0} (hooks : Hooks E) (d : Cpu E) (sp a : ℕ) (room : sp < 0xfd) (lt : a < 0x10000)
    (p : Pushed sp a d) where
  half-sp : (half d).sfr 1 ≡ sp + 1
  unfolding half set_pc set_sfr
  half-sp = omega (arith, p.pointer)

  pop_pc-eq : pop_pc hooks d ≡ done d
  unfolding pop_pc done
  pop_pc-eq =
      let first = pop_from_stack-eq hooks d (omega (arith, p.pointer)) (omega (arith, p.pointer)) in
      let second =
        pop_from_stack-eq hooks (half d) (omega (arith, half-sp)) (omega (arith, half-sp)) in
      unfold half in rw (first, second)

  half-read : (b : ℕ) → read_mem_indir (half d) b ≡ read_mem_indir d b
  unfolding half set_pc set_sfr read_mem_indir
  half-read b = refl

  done-pc : (done d).pc ≡ a
  unfolding done set_pc set_sfr
  done-pc =
      let pc1 : (half d).pc ≡ a / 0x100 * 0x100 =
        unfold half in rw (p.pointer, p.high) (omega arith) in
      rw
        (
          half-sp,
          half-read,
          p.low,
          pc1,
          bit_or_word (a / 0x100) (a % 0x100) (omega arith) (omega arith),
        )
        (omega arith)

  done-Returned : Returned d (done d) sp a
  unfolding done set_pc set_sfr
  done-Returned = record {
    counter = done-pc;
    pointer = omega (arith, half-sp);
    registers = λ r. unfold half in ground (arith, p.pointer);
    memory = λ b. unfold half read_mem_indir in refl;
    levels = unfold half in refl;
  }

  pub pop_pc-Returned : Returned d (pop_pc hooks d) sp a
  pop_pc-Returned = rw pop_pc-eq done-Returned

-- A return where the address stands on the stack goes to it, takes it off the stack, and changes
-- no other register, no memory and no level of interrupt.
pub ret_lem :
    {E : Type 0} (hooks : Hooks E) (d : Cpu E) (sp a : ℕ)
    → sp < 0xfd
    → a < 0x10000
    → Pushed sp a d
    → Returned d (ret hooks d).1 sp a
unfolding ret
ret_lem hooks d sp a room lt p = pop_pc-Returned hooks d sp a room lt p

module _ {E : Type 0} (hooks : Hooks E) (c : Cpu E) (room : c.sfr reg_sp < 0xfd)
    (pc_lt : c.pc < 0x10000) (cell1 : has_cell c (c.sfr reg_sp + 1) ≡ true)
    (cell2 : has_cell c (c.sfr reg_sp + 2) ≡ true) where
  -- LCALL leaves on the stack the address behind itself, modulo 2^16.
  pub lcall_address-Pushed : Pushed (c.sfr reg_sp) (u16 (c.pc + 3)) (lcall_address hooks c).1
  unfolding lcall_address
  lcall_address-Pushed = set_pc-Pushed _ (
      push_word-Pushed hooks c room cell1 cell2 (c.pc + 3) _ (omega arith)
        (rw (pc-push_to_stack hooks c room cell1 cell2)))

  -- ACALL leaves on the stack the address behind itself, modulo 2^16.
  pub acall_offset-Pushed : Pushed (c.sfr reg_sp) (u16 (c.pc + 2)) (acall_offset hooks c).1
  unfolding acall_offset
  acall_offset-Pushed = set_pc-Pushed _ (
      push_word-Pushed hooks c room cell1 cell2 (c.pc + 2) _ (omega arith)
        (rw (pc-push_to_stack hooks c room cell1 cell2)))

-- LCALL at a stack pointer below 0xfd with memory behind the next two cells of the stack and a
-- counter of 16 bits: RET, in any machine `d` that has the stack pointer and these two bytes as the
-- call left them, goes to the instruction behind the call, modulo 2^16, and restores the stack
-- pointer of the caller; it changes nothing else of the registers, the internal memory and the
-- levels in service.
pub ret-lcall_address :
    {E : Type 0} (hooks : Hooks E) (c d : Cpu E)
    → c.sfr reg_sp < 0xfd
    → c.pc < 0x10000
    → has_cell c (c.sfr reg_sp + 1) ≡ true
    → has_cell c (c.sfr reg_sp + 2) ≡ true
    → d.sfr reg_sp ≡ (lcall_address hooks c).1.sfr reg_sp
    → ((b : ℕ)
        → c.sfr reg_sp < b
        → b ≤ c.sfr reg_sp + 2
        → read_mem_indir d b ≡ read_mem_indir (lcall_address hooks c).1 b)
    → Returned d (ret hooks d).1 (c.sfr reg_sp) (u16 (c.pc + 3))
ret-lcall_address hooks c d room lt cell1 cell2 sp cells =
    let p = lcall_address-Pushed hooks c room lt cell1 cell2 in
    ret_lem hooks d (c.sfr reg_sp) (u16 (c.pc + 3)) room (omega arith) record {
      pointer = sp ∙ p.pointer;
      low = cells (c.sfr reg_sp + 1) (omega arith) (omega arith) ∙ p.low;
      high = cells (c.sfr reg_sp + 2) (omega arith) (omega arith) ∙ p.high;
    }
