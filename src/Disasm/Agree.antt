-- ===== src/Disasm/Agree.antt =====
-- disasm.c and opcodes.c: the two tables, and the length of an instruction.
use emu8051_stc.Prelude.{
  ℕ, ◌+◌, ◌<◌, ◌≡◌, ◌∙◌, refl, sym, ap, true, false, Option, none, some, List, bit_and, u16,
}
use emu8051_stc.Prelude.Bits.{passes_below, passes_below_lem}
use emu8051_stc.Cpu.{Cpu, Hooks}
use emu8051_stc.Cpu.Regs.{reg_pcon}
use emu8051_stc.Mem.{opcode, codemem}
use emu8051_stc.Ops.Handler.{Op, exec}
use emu8051_stc.Ops.Table.{OpTable, op_setptrs}
use emu8051_stc.Ops.Switch.{call}
use emu8051_stc.Ops.Switch.Numbers.{op_number}
use emu8051_stc.Ops.Switch.Agree.{same, same_sound}
use emu8051_stc.Ops.Next.{KeepCounter}
use emu8051_stc.Ops.Next.Falls.{jumps, falls}
use emu8051_stc.Disasm.{decode}
use emu8051_stc.Disasm.Decoder.{call_decoder}
use emu8051_stc.Disasm.Table.{disasm_setptrs}

agree_table :
    (t u : OpTable) → passes_below 256 (λ x. same (disasm_setptrs t x) (op_setptrs u x)) ≡ true
unfolding passes_below same op_setptrs disasm_setptrs op_number
agree_table t u = refl

-- For every opcode, whatever the two tables held before, `disasm_setptrs` sets the decoder of the
-- instruction of which `op_setptrs` sets the handler.
pub disasm_setptrs-op_setptrs :
    (t u : OpTable) (x : ℕ)
    → x < 0x100
    → (o : Op) × (disasm_setptrs t x ≡ some o) × (op_setptrs u x ≡ some o)
disasm_setptrs-op_setptrs t u x lt =
    same_sound _ _ (
      passes_below_lem 256 (λ y. same (disasm_setptrs t y) (op_setptrs u y)) x (agree_table t u) lt)

some_inj : (o p : Op) → ◌≡◌ {A = Option Op} (some p) (some o) → p ≡ o
some_inj o p e = ap (λ (x : Option Op). elim x [ none ↦ o | some q ↦ q ]) e

decode_awake :
    {E : Type 0} (dec : OpTable) (c : Cpu E) (position : ℕ) (o : Op)
    → bit_and (c.sfr reg_pcon) 0x01 ≡ 0
    → bit_and (c.sfr reg_pcon) 0x02 ≡ 0
    → dec (codemem c position) ≡ some o
    → decode dec c position ≡ some (call_decoder c position o)
unfolding decode codemem
decode_awake dec c position o active powered e = rw active (rw powered (rw e refl))

call_set :
    {E : Type 0} (hooks : Hooks E) (table : OpTable) (c : Cpu E) (x : ℕ) (o : Op)
    → table x ≡ some o
    → call hooks (table x) c ≡ exec hooks o c
unfolding call
call_set hooks table c x o e = rw e refl

module _ {E : Type 0} (hooks : Hooks E) (ok : KeepCounter hooks) (t u : OpTable) (c : Cpu E)
    (byte : opcode c < 0x100) (active : bit_and (c.sfr reg_pcon) 0x01 ≡ 0)
    (powered : bit_and (c.sfr reg_pcon) 0x02 ≡ 0) where
  -- If the callbacks keep the counter, then in a machine that is neither idle nor powered down,
  -- with an opcode that is a byte and the handler `o` that does not jump, `decode` gives a text and
  -- a length at the counter, and the handler that is called advances the counter by this length.
  pub decode-call :
      (o : Op)
      → op_setptrs u (opcode c) ≡ some o
      → jumps o ≡ false
      → (r : List ℕ × ℕ) × (decode (disasm_setptrs t) c c.pc ≡ some r)
        × ((call hooks (op_setptrs u (opcode c)) c).1.pc ≡ u16 (c.pc + r.1))
  unfolding opcode
  decode-call o set straight =
      let (p, in_dec, in_op) = disasm_setptrs-op_setptrs t u (opcode c) byte in
      let same_op = some_inj o p (sym in_op ∙ set) in
      let decoded = in_dec ∙ ap some same_op in
      (
        call_decoder c c.pc o,
        decode_awake (disasm_setptrs t) c c.pc o active powered decoded,
        ap (λ (r : ℕ × Cpu E). r.1.pc) (call_set hooks (op_setptrs u) c (opcode c) o set)
            ∙ (falls hooks ok c o straight).at,
      )
