-- ===== src/Tests/Disasm.antt =====
-- Runs of the disassembler.
use emu8051_stc.Prelude.{
  length, ℕ, ◌+◌, ◌-◌, ◌<◌, ◌≡◌, refl, arith, false, some, none, List, ltb, if◌then◌else◌, u16,
}
use emu8051_stc.Prelude.{ap}
use mathlib.Core.Path.{subst}
use emu8051_stc.Cpu.{Cpu}
use emu8051_stc.Cpu.Valid.{IsValid}
use emu8051_stc.Mem.{opened, opcode}
use emu8051_stc.Ops.Handler.{Op}
use emu8051_stc.Ops.Bit.{byte_of_bit, sfr_of_bit}
use emu8051_stc.Ops.Table.{OpTable, op_setptrs}
use emu8051_stc.Ops.Switch.{call}
use emu8051_stc.Ops.Next.{KeepCounter}
use emu8051_stc.Ops.Next.Falls.{jumps}
use emu8051_stc.Disasm.{decode}
use emu8051_stc.Disasm.Text.{codes, sprintf, piece_text}
use emu8051_stc.Disasm.Fetch.{operand1_at, operand2_at}
use emu8051_stc.Disasm.Names.{bitaddr_memonic, mem_memonic}
use emu8051_stc.Disasm.Move.{disasm_mov_mem_mem}
use emu8051_stc.Disasm.Decoder.{call_decoder}
use emu8051_stc.Disasm.Table.{disasm_setptrs}
use emu8051_stc.Disasm.Agree.{disasm_setptrs-op_setptrs, decode-call}
use emu8051_stc.Disasm.Short.{decode_fits}
use emu8051_stc.Disasm.Bits.{bit_text, bitaddr_memonic_lem}
use emu8051_stc.Tests.{
  cells, cells-IsBytes, machine, machine-IsValid, callbacks, given, keep_code, read_port,
}

abbrev no_table : OpTable
no_table x = none

-- `MOV P1, B` at address 0.
abbrev mover : Cpu ℕ
mover = machine (cells 0 0x85 1 0xf0 2 0x90) (λ i. 0) 1

mover-IsValid : IsValid mover
mover-IsValid =
    machine-IsValid (cells 0 0x85 1 0xf0 2 0x90) (λ i. 0) 1
      (cells-IsBytes 0 0x85 1 0xf0 2 0x90 (omega arith) (omega arith) (omega arith))
      (λ i. omega arith)

callbacks-KeepCounter : KeepCounter callbacks
unfolding given
callbacks-KeepCounter = record {
  except_ok = λ f c code e.
      subst (λ (g : Cpu ℕ → ℕ → Cpu ℕ). (g c code).pc ≡ c.pc) (ap (given keep_code) e) refl;
  sfrread_ok = λ f c i a e. cc;
  sfrwrite_ok = λ f c i a e. cc;
  xread_ok = λ f c a e.
      subst (λ (g : Cpu ℕ → ℕ → ℕ × Cpu ℕ). ((g c a).1).pc ≡ c.pc) (ap (given read_port) e) refl;
  xwrite_ok = λ f c a v e. cc;
}

disasm_setptrs-op_setptrs_example :
    (o : Op) × (disasm_setptrs no_table 0xa5 ≡ some o) × (op_setptrs no_table 0xa5 ≡ some o)
disasm_setptrs-op_setptrs_example = disasm_setptrs-op_setptrs no_table no_table 0xa5 (omega arith)

decoded : decode (disasm_setptrs no_table) mover 0 ≡ some (codes "MOV   P1, B", 3)
unfolding decode disasm_setptrs call_decoder disasm_mov_mem_mem sprintf piece_text mem_memonic
    operand1_at operand2_at opened
decoded = refl

decode_fits_example : length (codes "MOV   P1, B") < 64
decode_fits_example =
    decode_fits mover mover-IsValid 0 (disasm_setptrs no_table) (codes "MOV   P1, B", 3) decoded

opcode-mover : opcode mover < 0x100
unfolding opened
opcode-mover = omega arith

handler-mover : op_setptrs no_table (opcode mover) ≡ some Op.mov_mem_mem
unfolding opened op_setptrs
handler-mover = refl

straight : jumps Op.mov_mem_mem ≡ false
unfolding jumps
straight = refl

decode-call_example :
    (r : List ℕ × ℕ) × (decode (disasm_setptrs no_table) mover 0 ≡ some r)
    × ((call callbacks (op_setptrs no_table (opcode mover)) mover).1.pc ≡ u16 (0 + r.1))
decode-call_example =
    decode-call callbacks callbacks-KeepCounter no_table no_table mover opcode-mover refl refl
      Op.mov_mem_mem handler-mover straight

bitaddr_memonic_lem_example :
    bitaddr_memonic 0x2b
    ≡ bit_text (if ltb 0x7f 0x2b then sfr_of_bit 0x2b else byte_of_bit 0x2b - 0x20) 0x2b
bitaddr_memonic_lem_example = bitaddr_memonic_lem 0x2b (omega arith)
