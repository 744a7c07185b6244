-- ===== src/Stc.antt =====
-- stc12.h: `struct stc12_state`, the parts, and the machine that carries the state.
pub mod Regs
pub mod Pins
pub mod Ports
pub mod Timers
pub mod Adc
pub mod Pca
pub mod Wdt
pub mod Serial
pub mod Tick
pub mod Config
pub mod Init
pub mod Idle
use emu8051_stc.Prelude.{ℕ, ◌+◌, ◌%◌, ◌==◌, if◌then◌else◌, Bool, Option}
use emu8051_stc.Cpu.{Cpu}

-- `struct stc12_pin_event`.
pub record PinEvent : Type 0 where
  pub t_ns : ℕ
  pub port : ℕ
  pub bit : ℕ
  pub mode : ℕ
  pub drive : Bool

-- The state of the peripherals. `B` is what lies behind `board_user_data`, which the callbacks
-- may change; a callback that is NULL is `none`. `on_read_analog` gives counts: the conversion
-- of volts to counts, in doubles, and the field `vcc` that it reads are not modelled.
pub record Stc (B : Type 0) : Type 0 where
  pub timer0_prescaler : ℕ
  pub timer1_prescaler : ℕ
  pub brt_prescaler : ℕ
  pub adc_countdown : ℕ
  pub adc_input : ℕ → ℕ
  pub dptr1_l : ℕ
  pub dptr1_h : ℕ
  pub last_dps : ℕ
  pub wdt_counter : ℕ
  pub wdt_prescaler_cnt : ℕ
  pub pca_prescaler : ℕ
  pub pca_t0_overflow_pending : Bool
  pub pca_cex_last : ℕ → ℕ
  pub last_tf1 : ℕ
  pub stc89_scaled : Bool
  pub port_ext : ℕ → ℕ
  pub stc12_mode : Bool
  pub fosc : ℕ
  pub pin_history : Option (ℕ → PinEvent)
  pub pin_history_head : ℕ
  pub pin_history_count : ℕ
  pub part_id : ℕ
  pub unmodelled_sfr_accesses : ℕ
  pub on_pin_change : Option (ℕ → ℕ → ℕ → Bool → B → B)
  pub on_read_pin : Option (ℕ → ℕ → B → ℕ × B)
  pub on_read_analog : Option (ℕ → ℕ → B → ℕ × B)
  pub on_advance : Option (ℕ → ℕ → B → B)
  pub on_serial_tx : Option (ℕ → B → B)
  pub on_serial2_tx : Option (ℕ → B → B)
  pub board_user_data : B
  pub rx_fifo : ℕ → ℕ
  pub rx_head : ℕ
  pub rx_len : ℕ
  pub rx_next_clock : ℕ
  pub osc_clocks : ℕ
  pub idle_skipped_clocks : ℕ
  pub ns_per_clock_x256 : ℕ
  pub pin_m1_shadow : ℕ → ℕ
  pub pin_m0_shadow : ℕ → ℕ
  pub pin_drive_shadow : ℕ → ℕ

unfoldable pub set_stc : {B : Type 0} → Cpu (Stc B) → Stc B → Cpu (Stc B)
set_stc c s = record c { env = s }

-- What a store into a `uint32_t` or a `uint64_t` keeps.
abbrev pub u32 : ℕ → ℕ
u32 n = n % 0x100000000

abbrev pub u64 : ℕ → ℕ
u64 n = n % 0x10000000000000000

-- `f[i] = v`, for elements of any type.
unfoldable pub put {ℓ} : {A : Type ℓ} → (ℕ → A) → ℕ → A → ℕ → A
put f i v j = if i == j then v else f j

abbrev pub part_stc12 : ℕ
part_stc12 = 0

abbrev pub part_stc15 : ℕ
part_stc15 = 1

abbrev pub part_stc89 : ℕ
part_stc89 = 2

abbrev pub part_stc15w : ℕ
part_stc15w = 3

abbrev pub part_stc12_16 : ℕ
part_stc12_16 = 4
