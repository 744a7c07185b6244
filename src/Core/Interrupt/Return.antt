-- ===== src/Core/Interrupt/Return.antt =====
-- The call of an interrupt vector and RETI: what the entry saves, the return restores.
use emu8051_stc.Prelude.{
  ℕ, ◌+◌, bit_and, ◌/◌, ◌<◌, ◌≤◌, ◌≡◌, refl, arith, bit_or, Bool, true, false, if◌then◌else◌, ◌==◌,
  nonzero, none, some, Option, ◌⊎◌, inl, inr, zero, suc, ltb, ==_iff, ◌∙◌,
}
use mathlib.Core.Bool.{false≢true}
use emu8051_stc.Cpu.{Cpu, Hooks, set_tick_delay, set_interrupt_active, set_sfr, set_pc}
use emu8051_stc.Cpu.Regs.{reg_sp}
use emu8051_stc.Mem.{acc, psw, read_mem_indir, push_to_stack}
use emu8051_stc.Mem.Stack.{Pushed, has_cell, push_pc-Pushed, levels-push_push, set_pc-Pushed}
use emu8051_stc.Ops.Jump.{reti, active_left, iret_check, raise_unless, psw_preserved, pop_pc}
use emu8051_stc.Ops.Jump.Calls.{pop_pc-Returned}
use emu8051_stc.Core.Interrupt.Valid.{active_taken-lt}
use emu8051_stc.Core.Timer.{clear_sfr}
use emu8051_stc.Core.Interrupt.{acknowledge, save_registers, enter}

module _ {E : Type 0} {sp a : ℕ} {d : Cpu E} (p : Pushed sp a d) where
  set_tick_delay-Pushed : (n : ℕ) → Pushed sp a (set_tick_delay d n)
  unfolding set_tick_delay read_mem_indir
  set_tick_delay-Pushed n = record { pointer = p.pointer; low = p.low; high = p.high }

  set_interrupt_active-Pushed : (n : ℕ) → Pushed sp a (set_interrupt_active d n)
  unfolding set_interrupt_active read_mem_indir
  set_interrupt_active-Pushed n = record { pointer = p.pointer; low = p.low; high = p.high }

  save_registers-Pushed : (n : ℕ) → Pushed sp a (save_registers d n)
  unfolding save_registers read_mem_indir
  save_registers-Pushed n = record { pointer = p.pointer; low = p.low; high = p.high }

  set_sfr-Pushed : (r v : ℕ) → (r == 1) ≡ false → Pushed sp a (set_sfr d r v)
  unfolding set_sfr read_mem_indir
  set_sfr-Pushed r v ne = record { pointer = rw ne p.pointer; low = p.low; high = p.high }

  trigger-Pushed : (b : Bool) → Pushed sp a (record d { serial_interrupt_trigger = b })
  unfolding read_mem_indir
  trigger-Pushed b = record { pointer = p.pointer; low = p.low; high = p.high }

tcon-Pushed :
    {E : Type 0} {sp a : ℕ} {d : Cpu E} → Pushed sp a d → (v : ℕ) → Pushed sp a (set_sfr d 8 v)
tcon-Pushed p v = set_sfr-Pushed p 8 v refl

if-Pushed :
    {E : Type 0} {sp a : ℕ} (b : Bool) (d e : Cpu E)
    → Pushed sp a d
    → Pushed sp a e
    → Pushed sp a (if b then d else e)
if-Pushed true d e p q = p
if-Pushed false d e p q = q

acknowledge-Pushed :
    {E : Type 0} {sp a : ℕ} {d : Cpu E} → Pushed sp a d → (v : ℕ) → Pushed sp a (acknowledge d v)
unfolding acknowledge clear_sfr
acknowledge-Pushed p v = search (if-Pushed, tcon-Pushed, trigger-Pushed)

interrupt_active-acknowledge :
    {E : Type 0} (d : Cpu E) (v : ℕ) → (acknowledge d v).interrupt_active ≡ d.interrupt_active
unfolding acknowledge clear_sfr set_sfr
interrupt_active-acknowledge d v = ground arith

-- The levels in service when an interrupt is taken.
abbrev pub taken : Bool → ℕ → ℕ
taken hi active = if hi then bit_or active 2 else 1

module _ {E : Type 0} (hooks : Hooks E) (c : Cpu E) (room : c.sfr reg_sp < 0xfd)
    (pc_lt : c.pc < 0x10000) (cell1 : has_cell c (c.sfr reg_sp + 1) ≡ true)
    (cell2 : has_cell c (c.sfr reg_sp + 2) ≡ true) (v : ℕ) (hi : Bool) where
  cleared-Pushed :
      let c1 = clear_sfr c 7 1 in
      Pushed (c.sfr reg_sp) c.pc (
        push_to_stack hooks
          (push_to_stack hooks c1 (bit_and c1.pc 0xff))
          ((push_to_stack hooks c1 (bit_and c1.pc 0xff)).pc / 0x100))
  unfolding clear_sfr set_sfr
  cleared-Pushed = push_pc-Pushed hooks (clear_sfr c 7 1) room cell1 cell2 pc_lt

  cleared-levels :
      (lo hi : ℕ)
      → (push_to_stack hooks (push_to_stack hooks (clear_sfr c 7 1) lo) hi).interrupt_active
        ≡ c.interrupt_active
  unfolding clear_sfr set_sfr
  cleared-levels lo hi = levels-push_push hooks (clear_sfr c 7 1) room cell1 cell2 lo hi

  -- The call of a vector leaves the interrupted address on the stack.
  pub enter-Pushed : Pushed (c.sfr reg_sp) c.pc (enter hooks c v hi)
  unfolding enter
  enter-Pushed =
      save_registers-Pushed
        (set_interrupt_active-Pushed
          (acknowledge-Pushed (set_tick_delay-Pushed (set_pc-Pushed v cleared-Pushed) 2) v) _)
        _

  pub interrupt_active-enter :
      c.interrupt_active < 4 → (enter hooks c v hi).interrupt_active ≡ taken hi c.interrupt_active
  unfolding enter save_registers set_interrupt_active set_tick_delay set_pc
  interrupt_active-enter lt =
      rw (interrupt_active-acknowledge, cleared-levels)
        (omega (arith, active_taken-lt hi c.interrupt_active lt))

-- The registers that RETI checks are those that the entry saved for the level in service.
abbrev pub slot : {E : Type 0} → Cpu E → ℕ
slot d = if ltb 1 d.interrupt_active then 1 else 0

pub record Preserved {E : Type 0} (d : Cpu E) : Type 0 where
  pub same_a : d.int_a (slot d) ≡ acc d
  pub same_sp : d.int_sp (slot d) ≡ d.sfr reg_sp
  pub same_psw : bit_and (d.int_psw (slot d)) psw_preserved ≡ bit_and (psw d) psw_preserved

iret_check-eq : {E : Type 0} (hooks : Hooks E) (d : Cpu E) → Preserved d → iret_check hooks d ≡ d
unfolding iret_check raise_unless
iret_check-eq hooks d p =
    let test_a = (==_iff _ _).1 p.same_a in
    let test_sp = (==_iff _ _).1 p.same_sp in
    let test_psw = (==_iff _ _).1 p.same_psw in rw (test_a, test_sp, test_psw)

checked-eq :
    {E : Type 0} (hooks : Hooks E) (d : Cpu E)
    → Preserved d
    → (o : Option (Cpu E → ℕ → Cpu E))
    → ◌≡◌ {A = Cpu E} (elim o [ none ↦ d | some _ ↦ iret_check hooks d ]) d
checked-eq hooks d p none = refl
checked-eq hooks d p (some f) = iret_check-eq hooks d p

-- RETI with nothing to complain of drops the level in service and returns.
reti-eq :
    {E : Type 0} (hooks : Hooks E) (d : Cpu E)
    → Preserved d
    → 0 < d.interrupt_active
    → (reti hooks d).1 ≡ pop_pc hooks (set_interrupt_active d (active_left d.interrupt_active))
unfolding reti
reti-eq hooks d p pos =
    let serving : nonzero d.interrupt_active ≡ true = ground arith in
    rw (serving, checked-eq hooks d p hooks.except)

nesting_table :
    (active_left (taken false 0) ≡ 0)
    × (active_left (taken true 0) ≡ 0)
    × (active_left (taken true 1) ≡ 1)
unfolding active_left
nesting_table = (refl, refl, refl)

-- The levels in service come back, where the entry was allowed.
pub active_left-taken :
    (hi : Bool) (a : ℕ)
    → a ≤ 1
    → (hi ≡ true) ⊎ (a ≡ 0)
    → (active_left (taken hi a) ≡ a) × (0 < taken hi a) × (taken hi a < 4)
active_left-taken true zero le h = (nesting_table.1, omega arith, omega arith)
active_left-taken true (suc zero) le h = (nesting_table.2, omega arith, omega arith)
active_left-taken true (suc (suc n)) le h = absurd (omega arith)
active_left-taken false zero le h = (nesting_table.0, omega arith, omega arith)
active_left-taken false (suc n) le (inl h) = absurd (false≢true h)
active_left-taken false (suc n) le (inr h) = absurd (omega arith)

-- The entry of a routine, of high priority or, where no level is in service, of either, at a stack
-- pointer below 0xfd with memory behind the next two cells of the stack, a counter of 16 bits and
-- at most the low level in service. In any machine `d` that has the stack pointer, these two bytes
-- and the level in service as the entry left them, and whose A, stack pointer and PSW, without the
-- bits that RETI does not compare, are those that were saved for the level, RETI goes back to the
-- interrupted instruction and restores the stack pointer and the level in service; the other
-- registers stay.
pub reti-enter :
    {E : Type 0} (hooks : Hooks E) (c d : Cpu E) (v : ℕ) (hi : Bool)
    → c.sfr reg_sp < 0xfd
    → c.pc < 0x10000
    → has_cell c (c.sfr reg_sp + 1) ≡ true
    → has_cell c (c.sfr reg_sp + 2) ≡ true
    → c.interrupt_active ≤ 1
    → (hi ≡ true) ⊎ (c.interrupt_active ≡ 0)
    → d.sfr reg_sp ≡ (enter hooks c v hi).sfr reg_sp
    → ((b : ℕ)
        → c.sfr reg_sp < b
        → b ≤ c.sfr reg_sp + 2
        → read_mem_indir d b ≡ read_mem_indir (enter hooks c v hi) b)
    → d.interrupt_active ≡ (enter hooks c v hi).interrupt_active
    → Preserved d
    → let e = (reti hooks d).1 in
      (e.pc ≡ c.pc)
      × (e.interrupt_active ≡ c.interrupt_active)
      × ((r : ℕ) → e.sfr r ≡ (if r == reg_sp then c.sfr reg_sp else d.sfr r))
unfolding set_interrupt_active
reti-enter hooks c d v hi room lt cell1 cell2 below allowed sp cells level kept =
    let p = enter-Pushed hooks c room lt cell1 cell2 v hi in
    let n = active_left-taken hi c.interrupt_active below allowed in
    let active = level ∙ interrupt_active-enter hooks c room lt cell1 cell2 v hi (omega arith) in
    let q : Pushed (c.sfr reg_sp) c.pc d = record {
      pointer = sp ∙ p.pointer;
      low = cells (c.sfr reg_sp + 1) (omega arith) (omega arith) ∙ p.low;
      high = cells (c.sfr reg_sp + 2) (omega arith) (omega arith) ∙ p.high;
    } in
    let left = active_left d.interrupt_active in
    let r =
      pop_pc-Returned hooks (set_interrupt_active d left) (c.sfr reg_sp) c.pc room lt
        (set_interrupt_active-Pushed q left) in
    rw (reti-eq hooks d kept (omega (arith, active)))
      (r.counter, r.levels ∙ rw (active, n.0) (omega arith), r.registers)
