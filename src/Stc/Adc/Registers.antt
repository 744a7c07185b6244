-- ===== src/Stc/Adc/Registers.antt =====
-- The two result registers after a conversion, described without the functions of the converter.
use emu8051_stc.Prelude.{ℕ, ◌/◌, ◌%◌, ◌^◌, ◌≡◌, ◌⊎◌, ◌==◌, Bool, none, some, ltb, if◌then◌else◌}
use emu8051_stc.Cpu.{Cpu}
use emu8051_stc.Stc.{Stc, part_stc15}
use emu8051_stc.Stc.Regs.{reg_adc_contr, reg_auxr1, reg_clk_div, reg_p1asf}

-- What the board answers for channel `ch` of port 1, or the array holds where there is no callback.
unfoldable pub IsMeasured : {B : Type 0} → Stc B → ℕ → ℕ → Type 0
IsMeasured {B} s ch n =
    ((s.on_read_analog ≡ none) × (s.adc_input ch ≡ n))
    ⊎ ((f : ℕ → ℕ → B → ℕ × B) × (s.on_read_analog ≡ some f) × ((f 1 ch s.board_user_data).0 ≡ n))

module _ {B : Type 0} (c : Cpu (Stc B)) where
  -- The high part of the result alone in its register, or eight bits of it.
  abbrev pub is_high_alone : Bool
  is_high_alone =
      if c.env.part_id == part_stc15
      then c.sfr reg_clk_div / 0x20 % 2 == 1
      else c.sfr reg_auxr1 / 0x04 % 2 == 1

  abbrev pub channel : ℕ
  channel = c.sfr reg_adc_contr % 8

  -- The counts of ten bits that a conversion of `n` counts leaves.
  abbrev pub converted : ℕ → ℕ
  converted n =
      if c.sfr reg_p1asf / 2 ^ channel % 2 == 1 then (if ltb n 1024 then n else 1023) else 0
