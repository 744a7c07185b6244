-- ===== src/Stc/Serial.antt =====
-- stc12.c, the two serial ports, SPI, and the second data pointer.
pub mod Fifo
pub mod Receiver
pub mod Dptr
use emu8051_stc.Prelude.{
  ℕ, ◌+◌, ◌-◌, ◌*◌, ◌/◌, ◌%◌, bit_and, ◌==◌, leb, nonzero, if◌then◌else◌, Bool, true, not, ◌&&◌, u8,
  Option, none, some, update,
}
use emu8051_stc.Cpu.{Cpu, set_sfr}
use emu8051_stc.Cpu.Regs.{reg_sbuf, reg_scon, reg_ie, reg_dpl, reg_dph}
use emu8051_stc.Core.Timer.{has, or_sfr, clear_sfr}
use emu8051_stc.Stc.{Stc, set_stc, u64, part_stc15}
use emu8051_stc.Stc.Regs.{
  reg_s2con, reg_s2buf, reg_spctl, reg_spstat, reg15_spctl, reg15_spstat, reg_auxr1,
}

-- `STC12_RX_FIFO`.
abbrev pub rx_fifo_size : ℕ
rx_fifo_size = 64

module _ {B : Type 0} where
  -- The receive interrupt, and the transmit one, when IE enables it.
  unfoldable pub trigger_serial : Cpu (Stc B) → Cpu (Stc B)
  trigger_serial c = if has c reg_ie 0x10 then record c { serial_interrupt_trigger = true } else c

  -- A character takes 1.041667 ms.
  unfoldable pub character_clocks : Stc B → ℕ
  character_clocks s = 1041667 * 0x100 / s.ns_per_clock_x256

  unfoldable pub rx_deliver : Cpu (Stc B) → ℕ → Cpu (Stc B)
  rx_deliver c byte =
      let s = c.env in
      let after = record s { rx_next_clock = u64 (s.osc_clocks + character_clocks s) } in
      let c1 = set_stc c (if nonzero s.ns_per_clock_x256 then after else s) in
      trigger_serial (or_sfr (set_sfr c1 reg_sbuf byte) reg_scon 0x01)

  -- The firmware has taken the last byte, and a character time has passed.
  unfoldable pub receiver_free : Cpu (Stc B) → Bool
  receiver_free c = not (has c reg_scon 0x01) && leb c.env.rx_next_clock c.env.osc_clocks

  unfoldable pub rx_enqueue : Stc B → ℕ → Stc B
  rx_enqueue s byte = record s {
    rx_fifo = update s.rx_fifo ((s.rx_head + s.rx_len) % rx_fifo_size) (u8 byte);
    rx_len = u8 (s.rx_len + 1);
  }

  unfoldable pub rx_dequeue : Stc B → Stc B
  rx_dequeue s = record s { rx_head = (s.rx_head + 1) % rx_fifo_size; rx_len = s.rx_len - 1 }

  -- A byte from outside: delivered, queued, or dropped when the queue is full.
  unfoldable pub serial_rx : Cpu (Stc B) → ℕ → Cpu (Stc B)
  serial_rx c byte =
      if c.env.rx_len == 0 && receiver_free c
      then rx_deliver c byte
      else if leb rx_fifo_size c.env.rx_len
      then c
      else set_stc c (rx_enqueue c.env byte)

  unfoldable pub serial_rx_pending : Stc B → ℕ
  serial_rx_pending s = s.rx_len

  -- The part of `stc12_tick` that hands over the next queued byte.
  unfoldable pub rx_tick : Cpu (Stc B) → Cpu (Stc B)
  rx_tick c =
      let taken = set_stc c (rx_dequeue c.env) in
      if nonzero c.env.rx_len && receiver_free c
      then rx_deliver taken (c.env.rx_fifo c.env.rx_head)
      else c

  unfoldable pub transmit : Option (ℕ → B → B) → ℕ → Cpu (Stc B) → Cpu (Stc B)
  transmit none byte c = c
  transmit (some sent) byte c =
      set_stc c (record c.env { board_user_data = sent byte c.env.board_user_data })

  -- A transmission completes at once.
  unfoldable pub sfr_write_sbuf : Cpu (Stc B) → ℕ → Cpu (Stc B)
  sfr_write_sbuf c r =
      let byte = c.sfr reg_sbuf in
      let c1 = record c {
        serial_out = update c.serial_out c.serial_out_idx byte;
        serial_out_idx = (c.serial_out_idx + 1) % 18;
      } in
      transmit c.env.on_serial_tx byte (trigger_serial (or_sfr c1 reg_scon 0x02))

  unfoldable pub sfr_write_s2buf : Cpu (Stc B) → ℕ → Cpu (Stc B)
  sfr_write_s2buf c r = transmit c.env.on_serial2_tx (c.sfr reg_s2buf) (or_sfr c reg_s2con 0x02)

  unfoldable pub serial2_rx : Cpu (Stc B) → ℕ → Cpu (Stc B)
  serial2_rx c byte = or_sfr (set_sfr c reg_s2buf byte) reg_s2con 0x01

  -- SPI, whose registers lie elsewhere on the STC15.
  unfoldable pub spi_reg_spctl : Stc B → ℕ
  spi_reg_spctl s = if s.part_id == part_stc15 then reg15_spctl else reg_spctl

  unfoldable pub spi_reg_spstat : Stc B → ℕ
  spi_reg_spstat s = if s.part_id == part_stc15 then reg15_spstat else reg_spstat

  unfoldable pub sfr_write_spdat : Cpu (Stc B) → ℕ → Cpu (Stc B)
  sfr_write_spdat c r =
      if has c (spi_reg_spctl c.env) 0x40 then or_sfr c (spi_reg_spstat c.env) 0x80 else c

  -- The flags that are written as 1 are cleared.
  unfoldable pub sfr_write_spstat : Cpu (Stc B) → ℕ → Cpu (Stc B)
  sfr_write_spstat c r =
      let reg = spi_reg_spstat c.env in
      let val = c.sfr reg in
      let c1 = if nonzero (bit_and val 0x80) then clear_sfr c reg 0x80 else c in
      if nonzero (bit_and val 0x40) then clear_sfr c1 reg 0x40 else c1

  -- A change of DPS exchanges the data pointers.
  unfoldable pub swap_dptr : Cpu (Stc B) → ℕ → Cpu (Stc B)
  swap_dptr c dps =
      let c1 = set_sfr (set_sfr c reg_dpl c.env.dptr1_l) reg_dph c.env.dptr1_h in
      set_stc c1 (record c.env { dptr1_l = c.sfr reg_dpl; dptr1_h = c.sfr reg_dph; last_dps = dps })

  unfoldable pub sfr_write_auxr1 : Cpu (Stc B) → ℕ → Cpu (Stc B)
  sfr_write_auxr1 c r =
      let dps = bit_and (c.sfr reg_auxr1) 0x01 in
      if dps == c.env.last_dps then c else swap_dptr c dps
