-- ===== src/Disasm.antt =====
-- disasm.c: the disassembler, and `decode` of core.c, which calls it.
pub mod Text
pub mod Fetch
pub mod Names
pub mod Alu
pub mod Logic
pub mod Jump
pub mod Bit
pub mod Move
pub mod Decoder
pub mod Table
pub mod Bounds
pub mod Short
pub mod Agree
pub mod Bits
use emu8051_stc.Prelude.{ℕ, bit_and, nonzero, if◌then◌else◌, Option, none, some, List, [], ◌∷◌}
use emu8051_stc.Cpu.{Cpu}
use emu8051_stc.Cpu.Regs.{reg_pcon}
use emu8051_stc.Ops.Table.{OpTable}
use emu8051_stc.Disasm.Text.{lit, sprintf}
use emu8051_stc.Disasm.Decoder.{call_decoder}

-- The text of the instruction at a position and its length; `none` is a call through an element
-- of the table that has not been set.
unfoldable pub decode : {E : Type 0} → OpTable → Cpu E → ℕ → Option (List ℕ × ℕ)
decode dec c position =
    if nonzero (bit_and (c.sfr reg_pcon) 0x01)
    then some (sprintf (lit "IDLE" ∷ []), 0)
    else if nonzero (bit_and (c.sfr reg_pcon) 0x02)
    then some (sprintf (lit "POWER DOWN" ∷ []), 0)
    else elim (dec (c.code_mem (bit_and position c.code_mem_max_idx))) [
      | none ↦ none
      | some o ↦ some (call_decoder c position o)
    ]
