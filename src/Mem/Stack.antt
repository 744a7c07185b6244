-- ===== src/Mem/Stack.antt =====
-- The laws of the stack: what a push stores, a pop reads.
use emu8051_stc.Prelude.{
  ℕ, ◌+◌, ◌-◌, ◌%◌, ◌/◌, ◌<◌, ◌≡◌, arith, ap, ◌∙◌, Bool, true, false, ◌||◌, ltb, ◌==◌,
  if◌then◌else◌, none, some, u8, u16, bit_and,
}
use mathlib.Core.Path.{subst}
use emu8051_stc.Prelude.Bits.{bit_and_low}
use emu8051_stc.Cpu.{Cpu, Hooks, set_sfr, set_lower, set_upper, set_pc}
use emu8051_stc.Cpu.Regs.{reg_sp}
use emu8051_stc.Mem.{read_mem_indir, write_mem_indir, push_to_stack, pop_from_stack}

-- There is memory behind the indirect address: below 0x80 always, above it if it was given.
abbrev pub has_cell : {E : Type 0} → Cpu E → ℕ → Bool
has_cell c a = ltb a 0x80 || elim c.upper_data [ none ↦ false | some _ ↦ true ]

module _ {E : Type 0} (c : Cpu E) where
  -- A read after a write through indirect addresses.
  pub read_mem_indir-write_mem_indir :
      (a b v : ℕ)
      → has_cell c a ≡ true
      → read_mem_indir (write_mem_indir c a v) b ≡ (if a == b then u8 v else read_mem_indir c b)
  unfolding read_mem_indir write_mem_indir set_lower set_upper
  read_mem_indir-write_mem_indir a b v h = ground arith

  -- A write through an indirect address changes no register.
  pub sfr-write_mem_indir : (a v : ℕ) → (write_mem_indir c a v).sfr ≡ c.sfr
  unfolding write_mem_indir set_lower set_upper
  sfr-write_mem_indir a v = ground arith

  pub levels-write_mem_indir :
      (a v : ℕ) → (write_mem_indir c a v).interrupt_active ≡ c.interrupt_active
  unfolding write_mem_indir set_lower set_upper
  levels-write_mem_indir a v = ground arith

  pub pc-write_mem_indir : (a v : ℕ) → (write_mem_indir c a v).pc ≡ c.pc
  unfolding write_mem_indir set_lower set_upper
  pc-write_mem_indir a v = ground arith

module _ {E : Type 0} (hooks : Hooks E) (c : Cpu E) where
  pub push_to_stack-eq :
      (v : ℕ)
      → c.sfr reg_sp < 0xff
      → push_to_stack hooks c v
        ≡ write_mem_indir (set_sfr c reg_sp (c.sfr reg_sp + 1)) (c.sfr reg_sp + 1) v
  unfolding push_to_stack set_sfr
  push_to_stack-eq v lt =
      let fits : (c.sfr 1 + 1) % 256 ≡ c.sfr 1 + 1 = omega arith in
      let no_wrap : (c.sfr 1 + 1 == 0) ≡ false = ground arith in
      rw (fits, sfr-write_mem_indir, no_wrap)

  pub pop_from_stack-eq :
      0 < c.sfr reg_sp
      → c.sfr reg_sp < 0x100
      → pop_from_stack hooks c
        ≡ (read_mem_indir c (c.sfr reg_sp), set_sfr c reg_sp (c.sfr reg_sp - 1))
  unfolding pop_from_stack set_sfr
  pop_from_stack-eq pos lt =
      let fits : (c.sfr 1 + 256 - 1) % 256 ≡ (c.sfr 1 - 1) % 256 = omega arith in
      let no_wrap : ((c.sfr 1 - 1) % 256 == 255) ≡ false = ground arith in rw (fits, no_wrap)

-- The two bytes of the address `a` stand on the stack of `d`, above the stack pointer `sp`.
pub record Pushed {E : Type 0} (sp a : ℕ) (d : Cpu E) : Type 0 where
  pub pointer : d.sfr reg_sp ≡ sp + 2
  pub low : read_mem_indir d (sp + 1) ≡ a % 0x100
  pub high : read_mem_indir d (sp + 2) ≡ a / 0x100

has_cell-write_mem_indir :
    {E : Type 0} (c : Cpu E) (a v b : ℕ) → has_cell (write_mem_indir c a v) b ≡ has_cell c b
unfolding write_mem_indir set_lower set_upper
has_cell-write_mem_indir c a v b = ground arith

-- What a push does where it neither wraps nor meets a hole in the memory.
record IsPush {E : Type 0} (c d : Cpu E) (v : ℕ) : Type 0 where
  pointer : d.sfr ≡ (set_sfr c reg_sp (c.sfr reg_sp + 1)).sfr
  cell : (b : ℕ) → read_mem_indir d b ≡ (if c.sfr reg_sp + 1 == b then u8 v else read_mem_indir c b)
  cells : (b : ℕ) → has_cell d b ≡ has_cell c b
  counter : d.pc ≡ c.pc
  levels : d.interrupt_active ≡ c.interrupt_active

push_to_stack-IsPush :
    {E : Type 0} (hooks : Hooks E) (c : Cpu E) (v : ℕ)
    → c.sfr reg_sp < 0xff
    → has_cell c (c.sfr reg_sp + 1) ≡ true
    → IsPush c (push_to_stack hooks c v) v
push_to_stack-IsPush hooks c v room mem =
    let a = c.sfr 1 + 1 in
    let c1 = set_sfr c 1 a in
    let mem1 : has_cell c1 a ≡ true = unfold set_sfr in mem in
    rw (push_to_stack-eq hooks c v room) record {
      pointer = sfr-write_mem_indir c1 a v;
      cell = λ b. unfold set_sfr read_mem_indir in read_mem_indir-write_mem_indir c1 a b v mem1;
      cells = λ b. unfold set_sfr in has_cell-write_mem_indir c1 a v b;
      counter = unfold set_sfr in pc-write_mem_indir c1 a v;
      levels = unfold set_sfr in levels-write_mem_indir c1 a v;
    }

-- A pop after a push, where the stack pointer does not wrap and there is memory above it, gives
-- the byte that was pushed and restores the stack pointer.
pub pop_from_stack-push_to_stack :
    {E : Type 0} (hooks : Hooks E) (c : Cpu E) (v : ℕ)
    → c.sfr reg_sp < 0xff
    → has_cell c (c.sfr reg_sp + 1) ≡ true
    → let (value, d) = pop_from_stack hooks (push_to_stack hooks c v) in
      (value ≡ u8 v) × (d.sfr reg_sp ≡ c.sfr reg_sp)
unfolding set_sfr
pop_from_stack-push_to_stack hooks c v lt cell =
    let p = push_to_stack-IsPush hooks c v lt cell in
    let d = push_to_stack hooks c v in
    let sp : d.sfr 1 ≡ c.sfr 1 + 1 = ap (λ (f : ℕ → ℕ). f 1) p.pointer ∙ omega arith in
    let popped = pop_from_stack-eq hooks d (omega (arith, sp)) (omega (arith, sp)) in
    (rw (popped, sp, p.cell) (ground arith), rw popped (omega (arith, sp)))

module _ {E : Type 0} (hooks : Hooks E) (c : Cpu E) (room : c.sfr reg_sp < 0xfd)
    (cell1 : has_cell c (c.sfr reg_sp + 1) ≡ true)
    (cell2 : has_cell c (c.sfr reg_sp + 2) ≡ true) where
  -- Two pushes, of a low byte and a high byte.
  pub push_push :
      (lo hi : ℕ)
      → let d = push_to_stack hooks (push_to_stack hooks c lo) hi in
        (d.sfr reg_sp ≡ c.sfr reg_sp + 2)
        × (read_mem_indir d (c.sfr reg_sp + 1) ≡ u8 lo)
        × (read_mem_indir d (c.sfr reg_sp + 2) ≡ u8 hi)
        × (d.pc ≡ c.pc)
        × (d.interrupt_active ≡ c.interrupt_active)
  unfolding set_sfr
  push_push lo hi =
      let p = push_to_stack-IsPush hooks c lo (omega arith) cell1 in
      let d = push_to_stack hooks c lo in
      let sp1 : d.sfr 1 ≡ c.sfr 1 + 1 = ap (λ (f : ℕ → ℕ). f 1) p.pointer ∙ omega arith in
      let mem : has_cell d (d.sfr 1 + 1) ≡ true =
        rw (sp1, p.cells) (ap (has_cell c) (omega arith) ∙ cell2) in
      let q = push_to_stack-IsPush hooks d hi (omega arith) mem in
      let sp2 = ap (λ (f : ℕ → ℕ). f 1) q.pointer in
      (
        omega arith,
        rw q.cell (ground (arith, p.cell (c.sfr 1 + 1))),
        rw q.cell (ground arith),
        q.counter ∙ p.counter,
        q.levels ∙ p.levels,
      )

  -- A word is pushed as its low byte and its high byte, modulo 2^16.
  pub push_word-Pushed :
      (w h : ℕ)
      → w < 0x10200
      → h ≡ w / 0x100
      → Pushed
          (c.sfr reg_sp)
          (u16 w)
          (push_to_stack hooks (push_to_stack hooks c (bit_and w 0xff)) h)
  push_word-Pushed w h lt e =
      let q = push_push (bit_and w 0xff) h in
      record {
        pointer = q.0;
        low = omega (arith, q.1, bit_and_low w lt);
        high = omega (arith, q.2);
      }

  pub pc-push_to_stack : (v : ℕ) → (push_to_stack hooks c v).pc ≡ c.pc
  pc-push_to_stack v = (push_to_stack-IsPush hooks c v (omega arith) cell1).counter

  -- The counter is pushed so.
  pub push_pc-Pushed :
      c.pc < 0x10000
      → Pushed (c.sfr reg_sp) c.pc (
          push_to_stack hooks
            (push_to_stack hooks c (bit_and c.pc 0xff))
            ((push_to_stack hooks c (bit_and c.pc 0xff)).pc / 0x100))
  push_pc-Pushed lt =
      let word =
        push_word-Pushed c.pc ((push_to_stack hooks c (bit_and c.pc 0xff)).pc / 0x100) (omega arith)
          (rw pc-push_to_stack) in
      subst
        (λ a. Pushed (c.sfr reg_sp) a (
          push_to_stack hooks (push_to_stack hooks c (bit_and c.pc 0xff))
            ((push_to_stack hooks c (bit_and c.pc 0xff)).pc / 0x100)))
        (omega arith) word

  pub levels-push_push :
      (lo hi : ℕ)
      → (push_to_stack hooks (push_to_stack hooks c lo) hi).interrupt_active ≡ c.interrupt_active
  levels-push_push lo hi = (push_push lo hi).4

pub set_pc-Pushed :
    {E : Type 0} {d : Cpu E} {sp a : ℕ} (t : ℕ) → Pushed sp a d → Pushed sp a (set_pc d t)
unfolding set_pc read_mem_indir
set_pc-Pushed t p = record { pointer = p.pointer; low = p.low; high = p.high }
