-- ===== src/Stc/Pins.antt =====
-- stc12.c, the pin changes and the port modes.
pub mod Laws
use emu8051_stc.Prelude.{
  ℕ, ◌+◌, ◌*◌, ◌/◌, ◌%◌, ◌^◌, bit_and, bit_or, bit_xor, ◌==◌, nonzero, if◌then◌else◌, Bool, true,
  false, ◌||◌, List, [], ◌∷◌, Option, none, some, update,
}
use emu8051_stc.Cpu.{Cpu}
use emu8051_stc.Cpu.Regs.{reg_p0, reg_p1, reg_p2, reg_p3}
use emu8051_stc.Stc.{Stc, put, set_stc, u32, u64}
use emu8051_stc.Stc.Regs.{
  reg_p1m1, reg_p1m0, reg_p0m1, reg_p0m0, reg_p2m1, reg_p2m0, reg_p3m1, reg_p3m0, reg_p4m1,
  reg_p4m0, reg_p5m1, reg_p5m0, reg_p4, reg_p5,
}

-- The tables `port_regs`, `m1_regs` and `m0_regs`, of six elements.
unfoldable pub port_regs : ℕ → ℕ
port_regs port =
    if port == 0
    then reg_p0
    else if port == 1
    then reg_p1
    else if port == 2
    then reg_p2
    else if port == 3
    then reg_p3
    else if port == 4
    then reg_p4
    else reg_p5

unfoldable pub m1_regs : ℕ → ℕ
m1_regs port =
    if port == 0
    then reg_p0m1
    else if port == 1
    then reg_p1m1
    else if port == 2
    then reg_p2m1
    else if port == 3
    then reg_p3m1
    else if port == 4
    then reg_p4m1
    else reg_p5m1

unfoldable pub m0_regs : ℕ → ℕ
m0_regs port =
    if port == 0
    then reg_p0m0
    else if port == 1
    then reg_p1m0
    else if port == 2
    then reg_p2m0
    else if port == 3
    then reg_p3m0
    else if port == 4
    then reg_p4m0
    else reg_p5m0

-- `(x >> bit) & 1`.
unfoldable pub bit_at : ℕ → ℕ → ℕ
bit_at x bit = bit_and (x / 2 ^ bit) 1

-- The values of a loop over the pins of a port.
abbrev pub pins : List ℕ
pins = 0 ∷ 1 ∷ 2 ∷ 3 ∷ 4 ∷ 5 ∷ 6 ∷ 7 ∷ []

-- The product of two 64-bit words wraps before the shift.
unfoldable pub get_time_ns : {B : Type 0} → Stc B → ℕ
get_time_ns s = u64 (s.osc_clocks * s.ns_per_clock_x256) / 0x100

-- `PIN_HISTORY_SIZE`.
abbrev pub pin_history_size : ℕ
pin_history_size = 4096

module _ {B : Type 0} where
  -- The slot of the ring that an event takes.
  unfoldable pub record_event : Stc B → ℕ → ℕ → ℕ → Bool → Stc B
  record_event s port bit mode drive = elim s.pin_history [
    | none ↦ s
    | some events ↦ record s {
      pin_history = some (
          put events (s.pin_history_head % pin_history_size)
            (record { t_ns = get_time_ns s; port = port; bit = bit; mode = mode; drive = drive }));
      pin_history_head = u32 (s.pin_history_head + 1);
      pin_history_count = u32 (s.pin_history_count + 1);
    }
  ]

  unfoldable pub tell_board : Stc B → ℕ → ℕ → ℕ → Bool → Stc B
  tell_board s port bit mode drive = elim s.on_pin_change [
    | none ↦ s
    | some changed ↦ record s { board_user_data = changed port bit mode drive s.board_user_data }
  ]

  -- The loop over the pins: those of `any_changed` are told and recorded.
  unfoldable pub emit_pins : (port latch m1 m0 any_changed : ℕ) → List ℕ → Stc B → Stc B
  emit_pins port latch m1 m0 any_changed [] s = s
  emit_pins port latch m1 m0 any_changed (bit ∷ rest) s =
      let mode = bit_or (bit_at m1 bit * 2) (bit_at m0 bit) in
      let drive = nonzero (bit_at latch bit) in
      let told = record_event (tell_board s port bit mode drive) port bit mode drive in
      emit_pins port latch m1 m0 any_changed rest
        (if nonzero (bit_and any_changed (2 ^ bit)) then told else s)

  -- `!st->on_pin_change && !st->pin_history`.
  unfoldable pub unobserved : Stc B → Bool
  unobserved s = elim s.on_pin_change [
    | none ↦ (elim s.pin_history [ none ↦ true | some _ ↦ false ])
    | some _ ↦ false
  ]

module _ {B : Type 0} (c : Cpu (Stc B)) (port : ℕ) where
  -- The pins whose latch or mode is not what was last emitted.
  unfoldable pub changed_pins : ℕ
  changed_pins =
      bit_or
        (bit_or (bit_xor (c.sfr (port_regs port)) (c.env.pin_drive_shadow port))
          (bit_xor (c.sfr (m1_regs port)) (c.env.pin_m1_shadow port)))
        (bit_xor (c.sfr (m0_regs port)) (c.env.pin_m0_shadow port))

  unfoldable pub emit_changed : Stc B
  emit_changed =
      let latch = c.sfr (port_regs port) in
      let m1 = c.sfr (m1_regs port) in
      let m0 = c.sfr (m0_regs port) in
      let s = emit_pins port latch m1 m0 changed_pins pins c.env in
      record s {
        pin_drive_shadow = update s.pin_drive_shadow port latch;
        pin_m1_shadow = update s.pin_m1_shadow port m1;
        pin_m0_shadow = update s.pin_m0_shadow port m0;
      }

  unfoldable pub emit_pin_changes : Cpu (Stc B)
  emit_pin_changes =
      if unobserved c.env then c else if changed_pins == 0 then c else set_stc c emit_changed

-- The port of an address, -1 as `none`, and the callbacks of the writes.
unfoldable pub port_of : ℕ → Option ℕ
port_of r =
    if r == 0x80
    then some 0
    else if r == 0x90
    then some 1
    else if r == 0xa0
    then some 2
    else if r == 0xb0
    then some 3
    else if r == 0xc0
    then some 4
    else if r == 0xc8
    then some 5
    else none

unfoldable pub port_of_mode : ℕ → Option ℕ
port_of_mode r =
    if r == 0x94 || r == 0x93
    then some 0
    else if r == 0x92 || r == 0x91
    then some 1
    else if r == 0x96 || r == 0x95
    then some 2
    else if r == 0xb2 || r == 0xb1
    then some 3
    else if r == 0xb4 || r == 0xb3
    then some 4
    else if r == 0xca || r == 0xc9
    then some 5
    else none

module _ {B : Type 0} where
  unfoldable pub sfr_write_port : Cpu (Stc B) → ℕ → Cpu (Stc B)
  sfr_write_port c r = elim (port_of r) [ none ↦ c | some port ↦ emit_pin_changes c port ]

  unfoldable pub sfr_write_port_mode : Cpu (Stc B) → ℕ → Cpu (Stc B)
  sfr_write_port_mode c r = elim (port_of_mode r) [ none ↦ c | some port ↦ emit_pin_changes c port ]
