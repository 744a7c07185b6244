-- ===== src/Stc/Wdt.antt =====
-- stc12.c, the watchdog.
pub mod Laws
use emu8051_stc.Prelude.{ℕ, ◌+◌, ◌*◌, ◌^◌, bit_and, ltb, leb, if◌then◌else◌, u8}
use emu8051_stc.Cpu.{Cpu}
use emu8051_stc.Core.Timer.{has, or_sfr, clear_sfr}
use emu8051_stc.Stc.{Stc, set_stc, u32}
use emu8051_stc.Stc.Regs.{reg_wdt_contr}

-- `2 << ps`.
unfoldable pub wdt_divisor : ℕ → ℕ
wdt_divisor wdt = 2 * 2 ^ bit_and wdt 0x07

module _ {B : Type 0} where
  -- CLR_WDT clears the counters and itself.
  unfoldable pub sfr_write_wdt : Cpu (Stc B) → ℕ → Cpu (Stc B)
  sfr_write_wdt c r =
      let cleared = set_stc c (record c.env { wdt_counter = 0; wdt_prescaler_cnt = 0 }) in
      if has c reg_wdt_contr 0x10 then clear_sfr cleared reg_wdt_contr 0x10 else c

  -- A count of the watchdog: the flag is set at 2^15.
  unfoldable pub wdt_count : Cpu (Stc B) → Cpu (Stc B)
  wdt_count c =
      let counter = u32 (c.env.wdt_counter + 1) in
      if leb 32768 counter
      then set_stc (or_sfr c reg_wdt_contr 0x80) (record c.env { wdt_counter = 0 })
      else set_stc c (record c.env { wdt_counter = counter })

  unfoldable pub wdt_tick : Cpu (Stc B) → Cpu (Stc B)
  wdt_tick c =
      let cnt = u8 (c.env.wdt_prescaler_cnt + 1) in
      if has c reg_wdt_contr 0x20
      then (if ltb cnt (wdt_divisor (c.sfr reg_wdt_contr))
          then set_stc c (record c.env { wdt_prescaler_cnt = cnt })
          else wdt_count (set_stc c (record c.env { wdt_prescaler_cnt = 0 })))
      else c
