-- ===== src/Stc/Idle/Parked.antt =====
-- A processor that idles with no interrupt pending stays as it is in a tick.
use emu8051_stc.Prelude.{
  ℕ, ◌≡◌, refl, true, false, ◌==◌, ◌*◌, bit_and, bit_or, and_not, ltb, update, Bool-cases, ◌%◌, ◌-◌,
  nonzero, ==_iff, inl, inr, if_true, if_false,
}
use mathlib.Core.Path.{sym, ◌∙◌, ap, fun_ext}
use emu8051_stc.Cpu.{Cpu, Hooks, set_sfr, set_tick_delay}
use emu8051_stc.Cpu.Regs.{reg_pcon, reg_psw, reg_ie}
use emu8051_stc.Mem.{acc, psw, set_psw}
use emu8051_stc.Core.Timer.{has}
use emu8051_stc.Core.Interrupt.Priority.{pick-select}
use emu8051_stc.Core.Interrupt.{
  no_pick, handle_interrupts, pca_pending, pick, take, tf0_pending, tf1_pending, int0_pending,
  int1_pending, serial_pending,
}
use emu8051_stc.Core.Tick.{parity, update_parity, tick, tick_body, run_next, count_down, finishes}
use emu8051_stc.Ops.Table.{OpTable}

-- No interrupt asks to be taken, and none is being served.
pub record Unasked {E : Type 0} (c : Cpu E) : Type 0 where
  pub inactive : c.interrupt_active ≡ 0
  pub no_int0 : int0_pending c ≡ false
  pub no_tf0 : tf0_pending c ≡ false
  pub no_int1 : int1_pending c ≡ false
  pub no_tf1 : tf1_pending c ≡ false
  pub no_serial : serial_pending c ≡ false
  pub no_pca : pca_pending c ≡ false

-- The processor between two ticks of idleness, at one clock for each cycle.
pub record Parked {E : Type 0} (c : Cpu E) : Type 0 where
  pub delay : c.tick_delay ≡ 1
  pub scale : ltb 1 c.machine_cycle_scale ≡ false
  pub skips : c.skip_timers ≡ true
  pub idle : has c reg_pcon 0x01 ≡ true
  pub powered : has c reg_pcon 0x02 ≡ false
  pub unasked : Unasked c
  pub parity_set : bit_or (and_not (psw c) 0x01) (parity (acc c) * 0x01) % 0x100 ≡ psw c

-- With no source asking nothing is picked.
pick-Unasked : {E : Type 0} (c : Cpu E) → Unasked c → pick c ≡ no_pick
pick-Unasked c p = rw (pick-select c) (elim (Bool-cases (has c reg_ie 0x80)) [
  | inl e ↦ rw (e, p.no_int0, p.no_tf0, p.no_int1, p.no_tf1, p.no_serial, p.no_pca) refl
  | inr e ↦ rw e refl
])

update_same : (f : ℕ → ℕ) (i v : ℕ) → v ≡ f i → update f i v ≡ f
update_same f i v e = fun_ext (λ j. same j)
  where
    same : (j : ℕ) → update f i v j ≡ f j
    same j = elim (Bool-cases (i == j)) [
      | inl k ↦ let ij = (==_iff i j).0 k in rw k (e ∙ ap f ij)
      | inr k ↦ rw k refl
    ]

module _ {E : Type 0} (hooks : Hooks E) (op : OpTable) where
  handle_interrupts-Unasked : (c : Cpu E) → Unasked c → handle_interrupts hooks c ≡ c
  unfolding handle_interrupts take
  handle_interrupts-Unasked d q =
      if_false (ltb 1 d.interrupt_active) _ _ (rw q.inactive refl) ∙ rw (pick-Unasked d q) refl

  -- The tick's count-down, and the tick of idleness that follows it.
  count_down-Parked : (c : Cpu E) → Parked c → count_down c ≡ set_tick_delay c 0
  unfolding count_down
  count_down-Parked c p =
      if_true (nonzero c.tick_delay) _ _ (rw p.delay refl)
      ∙ ap (λ n. set_tick_delay c (n - 1)) p.delay

  update_parity-same :
      (c : Cpu E)
      → bit_or (and_not (psw c) 0x01) (parity (acc c) * 0x01) % 0x100 ≡ psw c
      → update_parity c ≡ c
  unfolding update_parity set_psw set_sfr psw acc
  update_parity-same c e = ap (λ f. record c { sfr = f }) (update_same c.sfr reg_psw _ e)

  rearmed : (c : Cpu E) → c.tick_delay ≡ 1 → set_tick_delay (set_tick_delay c 0) 1 ≡ c
  unfolding set_tick_delay
  rearmed c e = ap (λ n. record c { tick_delay = n }) (sym e)

  run_next-Parked : (c : Cpu E) → Parked c → run_next hooks op (set_tick_delay c 0) ≡ c
  unfolding run_next set_tick_delay has
  run_next-Parked c p =
      ap update_parity (if_true (nonzero (bit_and (c.sfr reg_pcon) 1)) _ _ p.idle)
      ∙ ap update_parity (rearmed c p.delay)
      ∙ update_parity-same c p.parity_set

  Unasked-delay : (c : Cpu E) → Unasked c → Unasked (set_tick_delay c 0)
  unfolding set_tick_delay int0_pending tf0_pending int1_pending tf1_pending serial_pending
      pca_pending has
  Unasked-delay c q = record {
    inactive = q.inactive;
    no_int0 = q.no_int0;
    no_tf0 = q.no_tf0;
    no_int1 = q.no_int1;
    no_tf1 = q.no_tf1;
    no_serial = q.no_serial;
    no_pca = q.no_pca;
  }

  zero_delay : (c : Cpu E) → ((set_tick_delay c 0).tick_delay == 0) ≡ true
  unfolding set_tick_delay
  zero_delay c = refl

  tick_body-Parked : (c : Cpu E) → Parked c → tick_body hooks op (set_tick_delay c 0) ≡ (true, c)
  unfolding tick_body
  tick_body-Parked c p =
      let d = set_tick_delay c 0 in
      let quiet = handle_interrupts-Unasked d (Unasked-delay c p.unasked) in
      let zero : (d.tick_delay == 0) ≡ true = zero_delay c in
      rw (zero, quiet, zero, run_next-Parked c p, p.skips) refl

  finishes-Parked : (c : Cpu E) → Parked c → finishes c ≡ false
  unfolding finishes set_tick_delay
  finishes-Parked c p = rw (count_down-Parked c p, p.delay, p.scale) refl

  down-Parked : (c : Cpu E) → Parked c → has (set_tick_delay c 0) reg_pcon 0x02 ≡ false
  unfolding set_tick_delay has
  down-Parked c p = p.powered

  -- Between two ticks of idleness with no interrupt asked for, a tick leaves the processor as it
  -- was.
  pub tick-Parked : (c : Cpu E) → Parked c → tick hooks op c ≡ (true, c)
  unfolding tick
  tick-Parked c p =
      rw (finishes-Parked c p, count_down-Parked c p, zero_delay c, down-Parked c p)
        (tick_body-Parked c p)
