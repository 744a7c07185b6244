-- ===== src/Core/Interrupt.antt =====
-- core.c, `handle_interrupts`: which interrupt is taken, and the call of its vector.
pub mod Valid
pub mod Priority
pub mod Return
use emu8051_stc.Prelude.{
  ℕ, ◌/◌, bit_and, bit_or, ◌==◌, ltb, if◌then◌else◌, Bool, true, false, not, ◌&&◌, ◌||◌, Option,
  none, some, update,
}
use emu8051_stc.Cpu.{Cpu, Hooks, set_pc, set_tick_delay, set_interrupt_active}
use emu8051_stc.Cpu.Regs.{reg_acc, reg_psw, reg_sp, reg_ip, reg_ie, reg_tcon, reg_pcon}
use emu8051_stc.Mem.{push_to_stack}
use emu8051_stc.Core.Timer.{has, clear_sfr}

-- `enum ISR_VECTORS`.
abbrev pub isr_int0 : ℕ
isr_int0 = 0x03

abbrev pub isr_tf0 : ℕ
isr_tf0 = 0x0b

abbrev pub isr_int1 : ℕ
isr_int1 = 0x13

abbrev pub isr_tf1 : ℕ
isr_tf1 = 0x1b

abbrev pub isr_sr : ℕ
isr_sr = 0x23

abbrev pub isr_pca : ℕ
isr_pca = 0x3b

-- The local variables: `dest_ip`, where -1 is `none`, `hi` and `lo`.
pub record Pick : Type 0 where
  pub dest_ip : Option ℕ
  pub hi : Bool
  pub lo : Bool

abbrev pub no_pick : Pick
no_pick = record { dest_ip = none; hi = false; lo = false }

-- One of the tests after the first: a source with its vector and its priority bit.
unfoldable pub poll : Bool → ℕ → Bool → Pick → Pick
poll pending vector priority p =
    let p1 = if p.lo then p else record p { dest_ip = some vector; lo = true } in
    let p2 = if priority then record p1 { hi = true; dest_ip = some vector } else p1 in
    if pending && not p.hi then p2 else p

module _ {E : Type 0} (c : Cpu E) where
  unfoldable pub int0_pending : Bool
  int0_pending = has c reg_ie 0x01 && has c reg_tcon 0x02

  unfoldable pub tf0_pending : Bool
  tf0_pending = has c reg_ie 0x02 && has c reg_tcon 0x20

  unfoldable pub int1_pending : Bool
  int1_pending = has c reg_ie 0x04 && has c reg_tcon 0x08

  unfoldable pub tf1_pending : Bool
  tf1_pending = has c reg_ie 0x08 && has c reg_tcon 0x80

  unfoldable pub serial_pending : Bool
  serial_pending = has c reg_ie 0x10 && c.serial_interrupt_trigger

  -- CCON at 0xd8, CMOD at 0xd9 and CCAPM0 to CCAPM2 at 0xda to 0xdc.
  unfoldable pub pca_pending : Bool
  pca_pending =
      (has c 0x58 0x01 && has c 0x5a 0x01)
      || (has c 0x58 0x02 && has c 0x5b 0x01)
      || (has c 0x58 0x04 && has c 0x5c 0x01)
      || (has c 0x58 0x80 && has c 0x59 0x01)

  -- The first test sets `hi` and `lo` whatever they are.
  unfoldable pub poll_int0 : Pick
  poll_int0 =
      if int0_pending
      then record { dest_ip = some isr_int0; hi = has c reg_ip 0x01; lo = true }
      else no_pick

  unfoldable pub poll_all : Pick
  poll_all =
      let p1 = poll tf0_pending isr_tf0 (has c reg_ip 0x02) poll_int0 in
      let p2 = poll int1_pending isr_int1 (has c reg_ip 0x04) p1 in
      let p3 = poll tf1_pending isr_tf1 (has c reg_ip 0x08) p2 in
      let p4 = poll serial_pending isr_sr (has c reg_ip 0x10) p3 in
      poll pca_pending isr_pca (has c reg_ip 0x80) p4

  unfoldable pub pick : Pick
  pick = if has c reg_ie 0x80 then poll_all else no_pick

  -- The flag that the call of a vector clears.
  unfoldable pub acknowledge : ℕ → Cpu E
  acknowledge dest_ip =
      if dest_ip == isr_tf0
      then clear_sfr c reg_tcon 0x20
      else if dest_ip == isr_tf1
      then clear_sfr c reg_tcon 0x80
      else if dest_ip == isr_sr
      then record c { serial_interrupt_trigger = false }
      else c

  -- The registers that RETI checks, saved in the slot of the level.
  unfoldable pub save_registers : ℕ → Cpu E
  save_registers hi = record c {
    int_a = update c.int_a hi (c.sfr reg_acc);
    int_psw = update c.int_psw hi (c.sfr reg_psw);
    int_sp = update c.int_sp hi (c.sfr reg_sp);
  }

module _ {E : Type 0} (hooks : Hooks E) where
  -- The call of the vector.
  unfoldable pub enter : Cpu E → ℕ → Bool → Cpu E
  enter c dest_ip hi =
      let c1 = clear_sfr c reg_pcon 0x01 in
      let c2 = push_to_stack hooks c1 (bit_and c1.pc 0xff) in
      let c3 = push_to_stack hooks c2 (c2.pc / 0x100) in
      let c4 = acknowledge (set_tick_delay (set_pc c3 dest_ip) 2) dest_ip in
      let c5 = set_interrupt_active c4 (if hi then bit_or c4.interrupt_active 2 else 1) in
      save_registers c5 (if hi then 1 else 0)

  -- A level is not interrupted by its own.
  unfoldable pub take : Cpu E → Pick → Cpu E
  take c p = elim p.dest_ip [
    | none ↦ c
    | some dest_ip ↦ if c.interrupt_active == 1 && not p.hi then c else enter c dest_ip p.hi
  ]

  unfoldable pub handle_interrupts : Cpu E → Cpu E
  handle_interrupts c = if ltb 1 c.interrupt_active then c else take c (pick c)
