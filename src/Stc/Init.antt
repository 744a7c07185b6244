-- ===== src/Stc/Init.antt =====
-- stc12.c, `stc12_init`, `stc12_set_part` and their like: the state of a reset, and the callbacks
-- that each part installs.
pub mod Laws
use emu8051_stc.Prelude.{ℕ, ◌==◌, if◌then◌else◌, Bool, true, false, List, [], ◌∷◌, none, some}
use emu8051_stc.Cpu.{Cpu, Hooks, set_sfr}
use emu8051_stc.Cpu.Regs.{reg_p0, reg_p1, reg_p2, reg_p3, reg_sbuf}
use emu8051_stc.Stc.{Stc, put, set_stc, part_stc89}
use emu8051_stc.Stc.Regs.{
  reg_auxr, reg_auxr1, reg_p1m1, reg_p1m0, reg_p0m1, reg_p0m0, reg_p2m1, reg_p2m0, reg_p3m1,
  reg_p3m0, reg_p4m1, reg_p4m0, reg_p5m1, reg_p5m0, reg_p4, reg_p5, reg_adc_contr, reg_spdat,
  reg_spstat, reg15_spstat, reg15_spdat, reg_s2buf, reg_wdt_contr,
}
use emu8051_stc.Stc.Pins.{sfr_write_port, sfr_write_port_mode}
use emu8051_stc.Stc.Ports.{sfr_read_port}
use emu8051_stc.Stc.Adc.{sfr_read_adc_contr, sfr_write_adc_contr}
use emu8051_stc.Stc.Wdt.{sfr_write_wdt}
use emu8051_stc.Stc.Serial.{
  sfr_write_sbuf, sfr_write_s2buf, sfr_write_spdat, sfr_write_spstat, sfr_write_auxr1,
}
use emu8051_stc.Stc.Config.{clock_quantum, is_stc15_family}

module _ {B : Type 0} where
  -- What is kept is the part, four callbacks with their data, and the ring of events; the rest is
  -- cleared, the callbacks of the serial ports too.
  unfoldable pub init_stc : Stc B → Stc B
  init_stc s = record {
    timer0_prescaler = 0;
    timer1_prescaler = 0;
    brt_prescaler = 0;
    adc_countdown = 0;
    adc_input = λ _. 0;
    dptr1_l = 0;
    dptr1_h = 0;
    last_dps = 0;
    wdt_counter = 0;
    wdt_prescaler_cnt = 0;
    pca_prescaler = 0;
    pca_t0_overflow_pending = false;
    pca_cex_last = λ _. 0;
    last_tf1 = 0;
    stc89_scaled = false;
    port_ext = λ _. 0xff;
    stc12_mode = true;
    fosc = 11059200;
    pin_history = s.pin_history;
    pin_history_head = 0;
    pin_history_count = 0;
    part_id = s.part_id;
    unmodelled_sfr_accesses = 0;
    on_pin_change = s.on_pin_change;
    on_read_pin = s.on_read_pin;
    on_read_analog = s.on_read_analog;
    on_advance = s.on_advance;
    on_serial_tx = none;
    on_serial2_tx = none;
    board_user_data = s.board_user_data;
    rx_fifo = λ _. 0;
    rx_head = 0;
    rx_len = 0;
    rx_next_clock = 0;
    osc_clocks = 0;
    idle_skipped_clocks = 0;
    ns_per_clock_x256 = clock_quantum 11059200;
    pin_m1_shadow = λ _. 0;
    pin_m0_shadow = λ _. 0;
    pin_drive_shadow = λ _. 0xff;
  }

  -- `sfrread[r] = f` and `sfrwrite[r] = f`.
  unfoldable pub on_read : ℕ → (Cpu (Stc B) → ℕ → ℕ × Cpu (Stc B)) → Hooks (Stc B) → Hooks (Stc B)
  on_read r f h = record h { sfrread = put h.sfrread r (some f) }

  unfoldable pub on_write : (Cpu (Stc B) → ℕ → Cpu (Stc B)) → List ℕ → Hooks (Stc B) → Hooks (Stc B)
  on_write f [] h = h
  on_write f (r ∷ rest) h = on_write f rest (record h { sfrwrite = put h.sfrwrite r (some f) })

  unfoldable pub no_write : List ℕ → Hooks (Stc B) → Hooks (Stc B)
  no_write [] h = h
  no_write (r ∷ rest) h = no_write rest (record h { sfrwrite = put h.sfrwrite r none })

  -- The ports that all parts have.
  unfoldable pub install_ports : Hooks (Stc B) → Hooks (Stc B)
  install_ports h =
      let h1 = on_read reg_p1 (sfr_read_port 1) (on_read reg_p0 (sfr_read_port 0) h) in
      let h2 = on_read reg_p3 (sfr_read_port 3) (on_read reg_p2 (sfr_read_port 2) h1) in
      on_write sfr_write_port (reg_p0 ∷ reg_p1 ∷ reg_p2 ∷ reg_p3 ∷ reg_p4 ∷ [])
        (on_read reg_p4 (sfr_read_port 4) h2)

  unfoldable pub install_p5 : Hooks (Stc B) → Hooks (Stc B)
  install_p5 h = on_write sfr_write_port (reg_p5 ∷ []) (on_read reg_p5 (sfr_read_port 5) h)

  -- The peripherals that the classic 8052 lacks.
  unfoldable pub install_modes : Bool → Hooks (Stc B) → Hooks (Stc B)
  install_modes p5 h =
      let h1 =
        on_write sfr_write_port_mode
          (reg_p0m0 ∷ reg_p0m1 ∷ reg_p1m0 ∷ reg_p1m1 ∷ reg_p2m0 ∷ reg_p2m1 ∷ reg_p3m0 ∷ reg_p3m1
            ∷ reg_p4m0 ∷ reg_p4m1 ∷ [])
          h in
      if p5 then on_write sfr_write_port_mode (reg_p5m0 ∷ reg_p5m1 ∷ []) h1 else h1

  unfoldable pub install_stc : Hooks (Stc B) → Hooks (Stc B)
  install_stc h =
      let h1 = on_read reg_adc_contr sfr_read_adc_contr h in
      let h2 = on_write sfr_write_adc_contr (reg_adc_contr ∷ []) h1 in
      let h3 = on_write sfr_write_wdt (reg_wdt_contr ∷ []) h2 in
      let h4 = on_write sfr_write_spdat (reg_spdat ∷ []) h3 in
      let h5 = on_write sfr_write_spstat (reg_spstat ∷ []) h4 in
      let h6 = on_write sfr_write_spdat (reg15_spdat ∷ []) h5 in
      let h7 = on_write sfr_write_spstat (reg15_spstat ∷ []) h6 in
      on_write sfr_write_auxr1 (reg_auxr1 ∷ []) (on_write sfr_write_s2buf (reg_s2buf ∷ []) h7)

  unfoldable pub install : ℕ → Hooks (Stc B) → Hooks (Stc B)
  install part h =
      let p5 = is_stc15_family part in
      let h1 = install_ports h in
      let h2 = if p5 then install_p5 h1 else h1 in
      let h3 = if part == part_stc89 then h2 else install_stc (install_modes p5 h2) in
      on_write sfr_write_sbuf (reg_sbuf ∷ []) h3

  unfoldable pub reset_sfrs : Cpu (Stc B) → Cpu (Stc B)
  reset_sfrs c =
      set_sfr (set_sfr (set_sfr (set_sfr c reg_p4 0xff) reg_p5 0xff) reg_auxr 0x00) reg_auxr1 0x00

  unfoldable pub stc12_init : Hooks (Stc B) × Cpu (Stc B) → Hooks (Stc B) × Cpu (Stc B)
  stc12_init (h, c) =
      let part = c.env.part_id in
      let c1 = set_stc c (init_stc c.env) in
      (install part h, if part == part_stc89 then c1 else reset_sfrs c1)

  -- The tables anew for the part, with the machine as it was.
  unfoldable pub clear_hooks : Hooks (Stc B) → Hooks (Stc B)
  clear_hooks h = record h { sfrread = λ _. none; sfrwrite = λ _. none }

  unfoldable pub rebind_callbacks : Hooks (Stc B) × Cpu (Stc B) → Hooks (Stc B) × Cpu (Stc B)
  rebind_callbacks (h, c) =
      let (h1, c1) = stc12_init (clear_hooks h, c) in
      let restored = set_stc (record c1 { sfr = c.sfr }) c.env in
      if c.env.stc12_mode then (h1, restored) else (clear_hooks h, c)

  -- The part, with port 5 installed or taken away.
  unfoldable pub set_part : ℕ → Hooks (Stc B) × Cpu (Stc B) → Hooks (Stc B) × Cpu (Stc B)
  set_part part (h, c) =
      let p5 = on_write sfr_write_port_mode (reg_p5m0 ∷ reg_p5m1 ∷ []) (install_p5 h) in
      let no_p5 =
        no_write (reg_p5 ∷ reg_p5m0 ∷ reg_p5m1 ∷ [])
          (record h { sfrread = put h.sfrread reg_p5 none }) in
      (if is_stc15_family part then p5 else no_p5, set_stc c (record c.env { part_id = part }))

  -- The core's settings for a part.
  unfoldable pub clocking : ℕ → Cpu (Stc B) → Cpu (Stc B)
  clocking part c = record c {
    skip_timers = true;
    machine_cycle_scale = (if part == part_stc89 then 12 else 1);
  }

  unfoldable pub configure_part : ℕ → Hooks (Stc B) × Cpu (Stc B) → Hooks (Stc B) × Cpu (Stc B)
  configure_part part m =
      let (h, c) = set_part part m in
      let c1 = clocking part (record c { code_mem_max_idx = 65535; ext_data_max_idx = 65535 }) in
      let (h1, c2) = stc12_init (h, c1) in (h1, clocking part c2)
