-- ===== src/Stc/Adc.antt =====
-- stc12.c, the converter: its start, its count-down, and the result in its registers.
pub mod Laws
pub mod Registers
use emu8051_stc.Prelude.{
  ℕ, ◌-◌, ◌/◌, ◌^◌, bit_and, ◌==◌, ltb, if◌then◌else◌, Bool, ◌&&◌, not, none, some,
}
use emu8051_stc.Cpu.{Cpu, set_sfr}
use emu8051_stc.Core.Timer.{has, or_sfr, clear_sfr}
use emu8051_stc.Stc.{Stc, set_stc, part_stc15}
use emu8051_stc.Stc.Regs.{
  reg_adc_contr, reg_adc_res, reg_adc_resl, reg_auxr1, reg_clk_div, reg_p1asf,
}

-- `clocks[speed]`, of four elements.
unfoldable pub adc_clocks : ℕ → ℕ
adc_clocks speed =
    if speed == 0 then 420 else if speed == 1 then 280 else if speed == 2 then 140 else 70

module _ {B : Type 0} where
  unfoldable pub sfr_read_adc_contr : Cpu (Stc B) → ℕ → ℕ × Cpu (Stc B)
  sfr_read_adc_contr c r = (c.sfr reg_adc_contr, c)

  -- ADC_START while ADC_POWER is on.
  unfoldable pub sfr_write_adc_contr : Cpu (Stc B) → ℕ → Cpu (Stc B)
  sfr_write_adc_contr c r =
      let speed = bit_and (c.sfr reg_adc_contr) 0x60 / 0x20 in
      if has c reg_adc_contr 0x08 && has c reg_adc_contr 0x80
      then set_stc c (record c.env { adc_countdown = adc_clocks speed })
      else c

  -- The counts of a channel, from the board or from the array.
  unfoldable pub sample : Stc B → ℕ → ℕ × Stc B
  sample s ch = elim s.on_read_analog [
    | none ↦ (s.adc_input ch, s)
    | some answer ↦
        (let (counts, board) = answer 1 ch s.board_user_data in
          (counts, record s { board_user_data = board }))
  ]

  -- At most ten bits, and nothing from a channel that P1ASF has not enabled.
  unfoldable pub limited : Cpu (Stc B) → ℕ → ℕ → ℕ
  limited c ch counts =
      let result = if ltb 1023 counts then 1023 else counts in
      if ltb ch 8 && not (has c reg_p1asf (2 ^ ch)) then 0 else result

  unfoldable pub adrj : Cpu (Stc B) → Bool
  adrj c = if c.env.part_id == part_stc15 then has c reg_clk_div 0x20 else has c reg_auxr1 0x04

  unfoldable pub put_result : Cpu (Stc B) → ℕ → Cpu (Stc B)
  put_result c result =
      if adrj c
      then set_sfr (set_sfr c reg_adc_resl (bit_and result 0xff)) reg_adc_res
          (bit_and (result / 0x100) 0x03)
      else set_sfr (set_sfr c reg_adc_res (bit_and (result / 4) 0xff)) reg_adc_resl
          (bit_and result 0x03)

  -- The end of a conversion.
  unfoldable pub adc_complete : Cpu (Stc B) → Cpu (Stc B)
  adc_complete c =
      let ch = bit_and (c.sfr reg_adc_contr) 0x07 in
      let (counts, s) = sample c.env ch in
      let c1 = put_result (set_stc c s) (limited c ch counts) in
      clear_sfr (or_sfr c1 reg_adc_contr 0x10) reg_adc_contr 0x08

  unfoldable pub adc_tick : Cpu (Stc B) → Cpu (Stc B)
  adc_tick c =
      let left = c.env.adc_countdown - 1 in
      let c1 = set_stc c (record c.env { adc_countdown = left }) in
      if c.env.adc_countdown == 0 then c else if left == 0 then adc_complete c1 else c1
