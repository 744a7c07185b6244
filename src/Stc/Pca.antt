-- ===== src/Stc/Pca.antt =====
-- stc12.c, the programmable counter array: its clock, its counter and its modules.
pub mod Laws
use emu8051_stc.Prelude.{
  ℕ, ◌+◌, ◌*◌, ◌/◌, ◌^◌, bit_and, bit_or, bit_xor, ◌==◌, leb, nonzero, if◌then◌else◌, Bool, true,
  false, ◌&&◌, ◌||◌, not, and_not, u8, u16, update, List, [], ◌∷◌,
}
use emu8051_stc.Cpu.{Cpu, set_sfr}
use emu8051_stc.Core.Timer.{has, or_sfr, clear_sfr}
use emu8051_stc.Stc.{Stc, set_stc, part_stc15, part_stc15w}
use emu8051_stc.Stc.Regs.{
  reg_auxr1, reg_ccon, reg_cmod, reg_ccapm0, reg_ccapm1, reg_ccapm2, reg_cl, reg_ch, reg_ccap0l,
  reg_ccap0h, reg_ccap1l, reg_ccap1h, reg_ccap2l, reg_ccap2h, reg_pca_pwm0, reg_pca_pwm1,
  reg_pca_pwm2,
}
use emu8051_stc.Stc.Pins.{bit_at, port_regs, emit_pin_changes}

-- The tables of the modules 0 to 2.
unfoldable pub of_module : ℕ → ℕ → ℕ → ℕ → ℕ
of_module m at0 at1 at2 = if m == 0 then at0 else if m == 1 then at1 else at2

abbrev pub ccapm_regs : ℕ → ℕ
ccapm_regs m = of_module m reg_ccapm0 reg_ccapm1 reg_ccapm2

abbrev pub ccapl_regs : ℕ → ℕ
ccapl_regs m = of_module m reg_ccap0l reg_ccap1l reg_ccap2l

abbrev pub ccaph_regs : ℕ → ℕ
ccaph_regs m = of_module m reg_ccap0h reg_ccap1h reg_ccap2h

abbrev pub pwm_regs : ℕ → ℕ
pwm_regs m = of_module m reg_pca_pwm0 reg_pca_pwm1 reg_pca_pwm2

abbrev pub ccf_masks : ℕ → ℕ
ccf_masks m = of_module m 0x01 0x02 0x04

module _ {B : Type 0} where
  -- Port and bit of the pin of a module.
  unfoldable pub pca_pin : Cpu (Stc B) → ℕ → ℕ × ℕ
  pca_pin c m =
      if m == 2 && c.env.part_id == part_stc15
      then (3, 7)
      else if has c reg_auxr1 0x40
      then (4, of_module m 2 3 1)
      else (1, of_module m 3 4 7)

  -- A clock of the prescaler that divides by `n`.
  unfoldable pub prescale : ℕ → Cpu (Stc B) → Bool × Cpu (Stc B)
  prescale n c =
      let next = u8 (c.env.pca_prescaler + 1) in
      if leb n next
      then (true, set_stc c (record c.env { pca_prescaler = 0 }))
      else (false, set_stc c (record c.env { pca_prescaler = next }))

  unfoldable pub on_t0_overflow : Cpu (Stc B) → Bool × Cpu (Stc B)
  on_t0_overflow c =
      if c.env.pca_t0_overflow_pending
      then (true, set_stc c (record c.env { pca_t0_overflow_pending = false }))
      else (false, c)

  -- The switch on the clock source: whether the counter counts.
  unfoldable pub do_tick : Cpu (Stc B) → Bool × Cpu (Stc B)
  do_tick c =
      let cps = bit_and (c.sfr reg_cmod) 0x0e / 2 in
      if cps == 0
      then prescale 12 c
      else if cps == 1
      then prescale 2 c
      else if cps == 2
      then on_t0_overflow c
      else if cps == 3
      then (false, c)
      else if cps == 4
      then (true, c)
      else if cps == 5
      then prescale 4 c
      else if cps == 6
      then prescale 6 c
      else prescale 8 c

  -- The counter after a count, and the machine with it; an overflow sets CF.
  unfoldable pub next_count : Cpu (Stc B) → ℕ
  next_count c = u16 (bit_or (c.sfr reg_cl) (c.sfr reg_ch * 0x100) + 1)

  unfoldable pub pca_count : Cpu (Stc B) → Cpu (Stc B)
  pca_count c =
      let counter = next_count c in
      let c1 =
        set_sfr (set_sfr c reg_cl (bit_and counter 0xff)) reg_ch (bit_and (counter / 0x100) 0xff) in
      if counter == 0 then or_sfr c1 reg_ccon 0x80 else c1

  unfoldable pub n_modules : Stc B → List ℕ
  n_modules s =
      if s.part_id == part_stc15
      then 0 ∷ 1 ∷ 2 ∷ []
      else if s.part_id == part_stc15w
      then []
      else 0 ∷ 1 ∷ []

  -- The reload when CL overflows: the high half of the double buffer becomes the low one.
  unfoldable pub pwm_reload : ℕ → Cpu (Stc B) → Cpu (Stc B)
  pwm_reload m c =
      let c1 = set_sfr c (ccapl_regs m) (c.sfr (ccaph_regs m)) in
      let pwm = c1.sfr (pwm_regs m) in
      let reloaded = set_sfr c1 (pwm_regs m) (bit_or (and_not pwm 0x01) (bit_at pwm 1)) in
      if c.sfr reg_cl == 0 then reloaded else c

  -- The output is high from the compare value on; a change of the latch is emitted.
  unfoldable pub pwm_drive : ℕ → Cpu (Stc B) → Cpu (Stc B)
  pwm_drive m c =
      let (port, bit) = pca_pin c m in
      let mask = 2 ^ bit in
      let r = port_regs port in
      let old = c.sfr r in
      let high = leb (c.sfr (ccapl_regs m)) (c.sfr reg_cl) in
      let c1 = if high then or_sfr c r mask else clear_sfr c r mask in
      if nonzero (bit_and (bit_xor old (c1.sfr r)) mask) then emit_pin_changes c1 port else c1

  unfoldable pub pwm : ℕ → ℕ → Cpu (Stc B) → Cpu (Stc B)
  pwm ccapm m c = if nonzero (bit_and ccapm 0x02) then pwm_drive m (pwm_reload m c) else c

  unfoldable pub toggle_pin : ℕ → Cpu (Stc B) → Cpu (Stc B)
  toggle_pin m c =
      let (port, bit) = pca_pin c m in
      let r = port_regs port in emit_pin_changes (set_sfr c r (bit_xor (c.sfr r) (2 ^ bit))) port

  -- The software timer, and the high-speed output.
  unfoldable pub matched : ℕ → ℕ → Cpu (Stc B) → Cpu (Stc B)
  matched ccapm m c =
      let c1 = or_sfr c reg_ccon (ccf_masks m) in
      if nonzero (bit_and ccapm 0x04) then toggle_pin m c1 else c1

  unfoldable pub compare : ℕ → ℕ → ℕ → Cpu (Stc B) → Cpu (Stc B)
  compare ccapm m counter c =
      let value = bit_or (c.sfr (ccapl_regs m)) (c.sfr (ccaph_regs m) * 0x100) in
      if nonzero (bit_and ccapm 0x40) && nonzero (bit_and ccapm 0x08) && counter == value
      then matched ccapm m c
      else c

  -- The capture at an edge: the flag is CCF0 of module 0 and CCF1 of the others.
  unfoldable pub captured : ℕ → Cpu (Stc B) → Cpu (Stc B)
  captured m c =
      let c1 = set_sfr c (ccapl_regs m) (c.sfr reg_cl) in
      let c2 = set_sfr c1 (ccaph_regs m) (c1.sfr reg_ch) in
      or_sfr c2 reg_ccon (if m == 0 then 0x01 else 0x02)

  unfoldable pub capture : ℕ → ℕ → Cpu (Stc B) → Cpu (Stc B)
  capture ccapm m c =
      let (port, bit) = pca_pin c m in
      let cur = bit_at (c.env.port_ext port) bit in
      let prev = c.env.pca_cex_last m in
      let c1 = set_stc c (record c.env { pca_cex_last = update c.env.pca_cex_last m cur }) in
      let capp = nonzero (bit_and ccapm 0x20) in
      let capn = nonzero (bit_and ccapm 0x10) in
      let rising = capp && not (nonzero prev) && nonzero cur in
      let falling = capn && nonzero prev && not (nonzero cur) in
      if capp || capn then (if rising || falling then captured m c1 else c1) else c

  -- The loop over the modules: CCAPMn is read once, before the module does anything.
  unfoldable pub run_module : ℕ → ℕ → Cpu (Stc B) → Cpu (Stc B)
  run_module counter m c =
      let ccapm = c.sfr (ccapm_regs m) in capture ccapm m (compare ccapm m counter (pwm ccapm m c))

  unfoldable pub run_modules : ℕ → List ℕ → Cpu (Stc B) → Cpu (Stc B)
  run_modules counter [] c = c
  run_modules counter (m ∷ rest) c = run_modules counter rest (run_module counter m c)

  unfoldable pub pca_tick : Cpu (Stc B) → Cpu (Stc B)
  pca_tick c =
      let (ticks, c1) = do_tick c in
      let counted = run_modules (next_count c1) (n_modules c1.env) (pca_count c1) in
      if has c reg_ccon 0x40 then (if ticks then counted else c1) else c
