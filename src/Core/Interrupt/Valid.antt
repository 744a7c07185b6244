-- ===== src/Core/Interrupt/Valid.antt =====
-- Taking an interrupt keeps every field in its width.
use emu8051_stc.Prelude.{
  ℕ, ◌<◌, ◌≡◌, refl, arith, bit_or, ltb, ◌==◌, ◌&&◌, not, Bool, true, false, Option, none, some,
  if◌then◌else◌,
}
use emu8051_stc.Prelude.Bits.{passes_below, passes_below_lem}
use emu8051_stc.Cpu.{Cpu, Hooks}
use emu8051_stc.Cpu.Valid.{
  IsValid, set_pc-IsValid, set_tick_delay-IsValid, set_interrupt_active-IsValid,
}
use emu8051_stc.Mem.Valid.{AreValid, if-IsValid, push_to_stack-IsValid}
use emu8051_stc.Core.Timer.Valid.{clear_sfr-IsValid, trigger-IsValid}
use emu8051_stc.Core.Interrupt.{
  Pick, pick, acknowledge, save_registers, enter, take, handle_interrupts,
}

module _ {E : Type 0} {c : Cpu E} (h : IsValid c) where
  acknowledge-IsValid : (v : ℕ) → IsValid (acknowledge c v)
  unfolding acknowledge
  acknowledge-IsValid v = search (if-IsValid, clear_sfr-IsValid, trigger-IsValid)

  save_registers-IsValid : (hi : ℕ) → IsValid (save_registers c hi)
  unfolding save_registers
  save_registers-IsValid hi = record {
    code = h.code;
    ext = h.ext;
    lower = h.lower;
    upper = h.upper;
    sfrs = h.sfrs;
    pc_lt = h.pc_lt;
    delay_lt = h.delay_lt;
    active_lt = h.active_lt;
    serial_idx = h.serial_idx;
  }

-- The levels in service after an interrupt of high or of low priority is taken.
active_table : passes_below 4 (λ a. ltb (bit_or a 2) 4) ≡ true
unfolding passes_below
active_table = refl

pub active_taken-lt : (hi : Bool) (a : ℕ) → a < 4 → (if hi then bit_or a 2 else 1) < 4
active_taken-lt true a lt =
    let h = passes_below_lem 4 (λ x. ltb (bit_or x 2) 4) a active_table lt in ground arith
active_taken-lt false a lt = omega arith

module _ {E : Type 0} {hooks : Hooks E} (ok : AreValid hooks) {c : Cpu E} (h : IsValid c) where
  pub enter-IsValid : (v : ℕ) (hi : Bool) → IsValid (enter hooks c v hi)
  unfolding enter
  enter-IsValid v hi =
      let v1 = clear_sfr-IsValid h 7 1 in
      let v3 = push_to_stack-IsValid ok (push_to_stack-IsValid ok v1 _) _ in
      let v4 = acknowledge-IsValid (set_tick_delay-IsValid (set_pc-IsValid v3 v) 2) v in
      save_registers-IsValid (set_interrupt_active-IsValid v4 _ (active_taken-lt hi _ v4.active_lt))
        _

  take-IsValid : (p : Pick) → IsValid (take hooks c p)
  unfolding take
  take-IsValid p = go p.dest_ip
    where
      go :
          (o : Option ℕ)
          → IsValid (elim o [
            | none ↦ c
            | some d ↦ if c.interrupt_active == 1 && not p.hi then c else enter hooks c d p.hi
          ])
      go none = h
      go (some d) = if-IsValid _ _ _ h (enter-IsValid d p.hi)

  -- `handle_interrupts` keeps the machine valid.
  pub handle_interrupts-IsValid : IsValid (handle_interrupts hooks c)
  unfolding handle_interrupts
  handle_interrupts-IsValid = if-IsValid _ _ _ h (take-IsValid (pick c))
