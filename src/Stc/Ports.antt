-- ===== src/Stc/Ports.antt =====
-- stc12.c, what a read of a port gives.
pub mod Laws
use emu8051_stc.Prelude.{
  ℕ, ◌^◌, bit_and, bit_or, ◌==◌, nonzero, if◌then◌else◌, not, List, [], ◌∷◌, none, some,
}
use emu8051_stc.Cpu.{Cpu}
use emu8051_stc.Stc.{Stc, set_stc}
use emu8051_stc.Stc.Pins.{port_regs, m1_regs, m0_regs, pins}

-- `PxM1` and `PxM0` of a port.
unfoldable pub get_port_mode : {B : Type 0} → Cpu (Stc B) → ℕ → ℕ × ℕ
get_port_mode c port = (c.sfr (m1_regs port), c.sfr (m0_regs port))

-- What the switch on the mode of a pin puts into the result.
unfoldable pub pin_read : (latch ext m1 m0 mask : ℕ) → ℕ
pin_read latch ext m1 m0 mask =
    let mode =
      bit_or (if nonzero (bit_and m1 mask) then 2 else 0)
        (if nonzero (bit_and m0 mask) then 1 else 0) in
    if mode == 0
    then bit_and (bit_and latch ext) mask
    else if mode == 1
    then bit_and latch mask
    else if mode == 2
    then bit_and ext mask
    else bit_and (bit_and latch ext) mask

-- The loop over the pins, and the whole function.
unfoldable pub mode_pins : (latch ext m1 m0 : ℕ) → List ℕ → ℕ → ℕ
mode_pins latch ext m1 m0 [] result = result
mode_pins latch ext m1 m0 (bit ∷ rest) result =
    mode_pins latch ext m1 m0 rest (bit_or result (pin_read latch ext m1 m0 (2 ^ bit)))

unfoldable pub apply_port_mode : (latch ext m1 m0 : ℕ) → ℕ
apply_port_mode latch ext m1 m0 = mode_pins latch ext m1 m0 pins 0

module _ {B : Type 0} where
  -- The pins as the board answers for them.
  unfoldable pub read_pins : (ℕ → ℕ → B → ℕ × B) → ℕ → List ℕ → ℕ → B → ℕ × B
  read_pins answer port [] ext board = (ext, board)
  read_pins answer port (bit ∷ rest) ext board =
      let (level, told) = answer port bit board in
      read_pins answer port rest (if nonzero level then bit_or ext (2 ^ bit) else ext) told

  unfoldable pub external : Stc B → ℕ → ℕ × Stc B
  external s port = elim s.on_read_pin [
    | none ↦ (s.port_ext port, s)
    | some answer ↦
        (let (ext, board) = read_pins answer port pins 0 s.board_user_data in
          (ext, record s { board_user_data = board }))
  ]

  unfoldable pub port_read : ℕ → Cpu (Stc B) → ℕ × Cpu (Stc B)
  port_read port c =
      let latch = c.sfr (port_regs port) in
      let (ext, s) = external c.env port in
      let (m1, m0) = get_port_mode c port in
      if not c.env.stc12_mode then (latch, c) else (apply_port_mode latch ext m1 m0, set_stc c s)

  -- `sfr_read_p0` to `sfr_read_p5`.
  unfoldable pub sfr_read_port : ℕ → Cpu (Stc B) → ℕ → ℕ × Cpu (Stc B)
  sfr_read_port port c r = port_read port c
