-- ===== src/Stc/Config.antt =====
-- stc12.c, the clock and input setters, the parts' registers and sizes.
use emu8051_stc.Prelude.{
  ℕ, ◌+◌, ◌*◌, ◌/◌, ◌==◌, ltb, if◌then◌else◌, Bool, true, false, not, ◌&&◌, ◌||◌, List, [], ◌∷◌,
  update, u8,
}
use emu8051_stc.Stc.{Stc, part_stc12, part_stc15, part_stc89, part_stc15w, part_stc12_16}

-- `(uint64_t)(256.0e9 / hz + 0.5)`. For `hz` below 2^32 the two roundings of the doubles are less
-- than 2^-12 / hz, and a quotient that is no integer is 1 / (2 * hz) or more away from one, so
-- the integer part is that of the exact quotient.
unfoldable pub clock_quantum : ℕ → ℕ
clock_quantum hz = if hz == 0 then 0 else (512000000000 + hz) / (2 * hz)

-- The elements of a table.
unfoldable pub listed : ℕ → List ℕ → Bool
listed addr [] = false
listed addr (x ∷ xs) = x == addr || listed addr xs

abbrev pub stc12_valid_sfr_set : List ℕ
stc12_valid_sfr_set =
    0x80 ∷ 0x81 ∷ 0x82 ∷ 0x83 ∷ 0x85 ∷ 0x86 ∷ 0x87 ∷ 0x88 ∷ 0x89 ∷ 0x8a ∷ 0x8b ∷ 0x8c ∷ 0x8d ∷ 0x8e
    ∷ 0x90 ∷ 0x91 ∷ 0x92 ∷ 0x93 ∷ 0x94 ∷ 0x95 ∷ 0x96 ∷ 0x97 ∷ 0x98 ∷ 0x99 ∷ 0x9a ∷ 0x9b ∷ 0x9c
    ∷ 0x9d ∷ 0xa0 ∷ 0xa2 ∷ 0xa8 ∷ 0xa9 ∷ 0xb0 ∷ 0xb1 ∷ 0xb2 ∷ 0xb3 ∷ 0xb4 ∷ 0xb6 ∷ 0xb7 ∷ 0xb8
    ∷ 0xb9 ∷ 0xbb ∷ 0xbc ∷ 0xbd ∷ 0xbe ∷ 0xc0 ∷ 0xc1 ∷ 0xc8 ∷ 0xc9 ∷ 0xca ∷ 0xce ∷ 0xd0 ∷ 0xd8
    ∷ 0xd9 ∷ 0xda ∷ 0xdb ∷ 0xe0 ∷ 0xe9 ∷ 0xea ∷ 0xeb ∷ 0xf0 ∷ 0xf2 ∷ 0xf3 ∷ 0xf9 ∷ 0xfa ∷ 0xfb ∷ []

abbrev pub stc89_valid_sfr_set : List ℕ
stc89_valid_sfr_set =
    0x80 ∷ 0x81 ∷ 0x82 ∷ 0x83 ∷ 0x87 ∷ 0x88 ∷ 0x89 ∷ 0x8a ∷ 0x8b ∷ 0x8c ∷ 0x8d ∷ 0x90 ∷ 0x98 ∷ 0x99
    ∷ 0xa0 ∷ 0xa8 ∷ 0xb0 ∷ 0xb8 ∷ 0xc8 ∷ 0xc9 ∷ 0xca ∷ 0xcb ∷ 0xcc ∷ 0xcd ∷ 0xd0 ∷ 0xe0 ∷ 0xf0 ∷ []

abbrev pub stc15_extra_sfr_set : List ℕ
stc15_extra_sfr_set =
    0x8f ∷ 0xa1 ∷ 0xaa ∷ 0xab ∷ 0xba ∷ 0xc2 ∷ 0xc3 ∷ 0xc4 ∷ 0xc5 ∷ 0xc6 ∷ 0xc7 ∷ 0xcd ∷ 0xcf ∷ 0xd6
    ∷ 0xd7 ∷ 0xdc ∷ 0xec ∷ 0xf4 ∷ 0xfc ∷ []

abbrev pub stc12_only_sfr_set : List ℕ
stc12_only_sfr_set = 0x85 ∷ 0x86 ∷ 0xbb ∷ []

unfoldable pub is_stc15_family : ℕ → Bool
is_stc15_family part = part == part_stc15 || part == part_stc15w

-- `stc12_is_valid_sfr`, of the part of the state.
unfoldable pub is_valid_sfr : ℕ → ℕ → Bool
is_valid_sfr part addr =
    if part == part_stc89
    then listed addr stc89_valid_sfr_set
    else if listed addr stc12_valid_sfr_set
    then not (is_stc15_family part && listed addr stc12_only_sfr_set)
    else is_stc15_family part && listed addr stc15_extra_sfr_set

unfoldable pub flash_size : ℕ → ℕ
flash_size part =
    if part == part_stc12
    then 61440
    else if part == part_stc15
    then 61440
    else if part == part_stc89
    then 8192
    else if part == part_stc15w
    then 8192
    else if part == part_stc12_16
    then 16384
    else 65535

unfoldable pub xram_size : ℕ → ℕ
xram_size part =
    if part == part_stc12
    then 1024
    else if part == part_stc15
    then 1792
    else if part == part_stc89
    then 256
    else if part == part_stc15w
    then 256
    else if part == part_stc12_16
    then 1024
    else 65535

module _ {B : Type 0} (s : Stc B) where
  -- A frequency of 0 is refused, and leaves the state.
  unfoldable pub set_fosc : ℕ → Bool × Stc B
  set_fosc hz =
      if hz == 0
      then (false, s)
      else (true, record s { fosc = hz; ns_per_clock_x256 = clock_quantum hz })

  -- The setters of inputs ignore an index that is out of range.
  unfoldable pub set_adc_input : (channel value : ℕ) → Stc B
  set_adc_input channel value =
      let limited = if ltb 1023 value then 1023 else value in
      if ltb channel 8 then record s { adc_input = update s.adc_input channel limited } else s

  unfoldable pub set_port_input : (port value : ℕ) → Stc B
  set_port_input port value =
      if ltb port 6 then record s { port_ext = update s.port_ext port (u8 value) } else s
