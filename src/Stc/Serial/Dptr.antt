-- ===== src/Stc/Serial/Dptr.antt =====
-- The exchange of the data pointers at a write of AUXR1.
use emu8051_stc.Prelude.{ℕ, ◌%◌, ◌<◌, ◌≡◌, ◌≢◌, refl, arith, ◌==◌, false, bit_and, if_false, update}
use mathlib.Core.Path.{sym, ◌∙◌, ap, fun_ext}
use emu8051_stc.Cpu.{Cpu, set_sfr}
use emu8051_stc.Cpu.Regs.{reg_dpl, reg_dph}
use emu8051_stc.Stc.{Stc, set_stc}
use emu8051_stc.Stc.Regs.{reg_auxr1}
use emu8051_stc.Stc.Serial.{swap_dptr, sfr_write_auxr1}

-- The data pointer in use, and the one that is not.
abbrev pub active : {B : Type 0} → Cpu (Stc B) → ℕ × ℕ
active c = (c.sfr reg_dpl, c.sfr reg_dph)

abbrev pub parked_dptr : {B : Type 0} → Cpu (Stc B) → ℕ × ℕ
parked_dptr c = (c.env.dptr1_l, c.env.dptr1_h)

-- The four bytes.
pub record AreBytes {B : Type 0} (c : Cpu (Stc B)) : Type 0 where
  pub dpl : c.sfr reg_dpl < 256
  pub dph : c.sfr reg_dph < 256
  pub dptr1_l : c.env.dptr1_l < 256
  pub dptr1_h : c.env.dptr1_h < 256

-- The DPS bit that was written.
abbrev pub dps : {B : Type 0} → Cpu (Stc B) → ℕ
dps c = bit_and (c.sfr reg_auxr1) 0x01

module _ {B : Type 0} (c : Cpu (Stc B)) (r : ℕ) where
  changed : dps c ≢ c.env.last_dps → sfr_write_auxr1 c r ≡ swap_dptr c (dps c)
  unfolding sfr_write_auxr1
  changed differ =
      let e : (dps c == c.env.last_dps) ≡ false = ground (arith, differ) in
      if_false (dps c == c.env.last_dps) _ _ e

  -- A write of AUXR1 that changes DPS exchanges the data pointer in use with the other, and notes
  -- the choice, where the four halves are bytes.
  pub sfr_write_auxr1-exchange :
      AreBytes c
      → dps c ≢ c.env.last_dps
      → let d = sfr_write_auxr1 c r in
        (active d ≡ parked_dptr c) × (parked_dptr d ≡ active c) × (d.env.last_dps ≡ dps c)
  unfolding swap_dptr set_stc set_sfr
  sfr_write_auxr1-exchange b differ =
      let l : c.env.dptr1_l % 256 ≡ c.env.dptr1_l = let h = b.dptr1_l in omega arith in
      let h : c.env.dptr1_h % 256 ≡ c.env.dptr1_h = let h = b.dptr1_h in omega arith in
      rw (changed differ) (λ i. (l i, h i), refl, refl)

module _ {B : Type 0} (c : Cpu (Stc B)) (b : AreBytes c) where
  -- The registers after two exchanges.
  restored :
      (other own : ℕ)
      → own ≡ c.sfr reg_auxr1
      → own < 256
      → let once =
          update
            (update (update c.sfr reg_auxr1 (other % 256)) reg_dpl (c.env.dptr1_l % 256))
            reg_dph
            (c.env.dptr1_h % 256) in
        update
          (update (update once reg_auxr1 (own % 256)) reg_dpl (c.sfr reg_dpl % 256))
          reg_dph
          (c.sfr reg_dph % 256)
        ≡ c.sfr
  restored other own e lt = fun_ext (λ j. let l = b.dpl in let h = b.dph in ground (arith, e))

  swap_twice :
      (other d : ℕ)
      → c.sfr reg_auxr1 < 256
      → c.env.last_dps ≡ dps c
      → swap_dptr
          (set_sfr (swap_dptr (set_sfr c reg_auxr1 other) d) reg_auxr1 (c.sfr reg_auxr1))
          (dps c)
        ≡ c
  unfolding swap_dptr set_stc set_sfr
  swap_twice other d lt last =
      let l : c.env.dptr1_l % 256 ≡ c.env.dptr1_l = let h = b.dptr1_l in omega arith in
      let h : c.env.dptr1_h % 256 ≡ c.env.dptr1_h = let h = b.dptr1_h in omega arith in
      let f = restored other (c.sfr reg_auxr1) refl lt in
      λ i. record c {
        sfr = f i;
        env = record c.env { dptr1_l = l i; dptr1_h = h i; last_dps = sym last i };
      }

  -- The two writes exchange.
  once :
      (other r : ℕ)
      → c.env.last_dps ≡ dps c
      → bit_and (other % 256) 0x01 ≢ dps c
      → sfr_write_auxr1 (set_sfr c reg_auxr1 other) r
        ≡ swap_dptr (set_sfr c reg_auxr1 other) (bit_and (other % 256) 0x01)
  unfolding set_sfr
  once other r last differ = changed (set_sfr c reg_auxr1 other) r (λ e. differ (e ∙ last))

  back :
      (other r : ℕ)
      → c.sfr reg_auxr1 < 256
      → bit_and (other % 256) 0x01 ≢ dps c
      → let d = swap_dptr (set_sfr c reg_auxr1 other) (bit_and (other % 256) 0x01) in
        sfr_write_auxr1 (set_sfr d reg_auxr1 (c.sfr reg_auxr1)) r
        ≡ swap_dptr (set_sfr d reg_auxr1 (c.sfr reg_auxr1)) (dps c)
  unfolding set_sfr swap_dptr set_stc
  back other r lt differ =
      let d = swap_dptr (set_sfr c reg_auxr1 other) (bit_and (other % 256) 0x01) in
      let small : c.sfr reg_auxr1 % 256 ≡ c.sfr reg_auxr1 = omega arith in
      let own = ap (λ x. bit_and x 0x01) small in
      changed (set_sfr d reg_auxr1 (c.sfr reg_auxr1)) r (λ e. differ (sym (sym own ∙ e)))
      ∙ ap (swap_dptr (set_sfr d reg_auxr1 (c.sfr reg_auxr1))) own

-- The first of two writes.
first :
    {B : Type 0} (c : Cpu (Stc B)) (r other : ℕ)
    → AreBytes c
    → c.env.last_dps ≡ dps c
    → bit_and (other % 256) 0x01 ≢ dps c
    → let d = sfr_write_auxr1 (set_sfr c reg_auxr1 other) r in
      (active d ≡ parked_dptr c)
      × (parked_dptr d ≡ active c)
      × (d.env.last_dps ≡ bit_and (other % 256) 0x01)
unfolding set_sfr
first c r other b last differ =
    sfr_write_auxr1-exchange (set_sfr c reg_auxr1 other) r
      (record { dpl = b.dpl; dph = b.dph; dptr1_l = b.dptr1_l; dptr1_h = b.dptr1_h })
      (λ e. differ (e ∙ last))

-- Two writes of AUXR1, one that changes DPS and one that puts back what AUXR1 held, where DPS is
-- the choice last noted and the halves of the data pointers and AUXR1 are bytes: the first
-- exchanges both halves of the data pointer in use with those of the other one and notes the
-- choice, and the second leads to the machine before them.
pub sfr_write_auxr1-roundtrip :
    {B : Type 0} (c : Cpu (Stc B)) (r other : ℕ)
    → AreBytes c
    → c.sfr reg_auxr1 < 256
    → c.env.last_dps ≡ dps c
    → bit_and (other % 256) 0x01 ≢ dps c
    → let d = sfr_write_auxr1 (set_sfr c reg_auxr1 other) r in
      ((d.sfr reg_dpl ≡ c.env.dptr1_l) × (d.sfr reg_dph ≡ c.env.dptr1_h))
      × ((d.env.dptr1_l ≡ c.sfr reg_dpl) × (d.env.dptr1_h ≡ c.sfr reg_dph))
      × (d.env.last_dps ≡ bit_and (other % 256) 0x01)
      × (sfr_write_auxr1 (set_sfr d reg_auxr1 (c.sfr reg_auxr1)) r ≡ c)
sfr_write_auxr1-roundtrip c r other b lt last differ =
    let (used, parked, noted) = first c r other b last differ in
    (
      (ap (λ (p : ℕ × ℕ). p.0) used, ap (λ (p : ℕ × ℕ). p.1) used),
      (ap (λ (p : ℕ × ℕ). p.0) parked, ap (λ (p : ℕ × ℕ). p.1) parked),
      noted,
      ap (λ d. sfr_write_auxr1 (set_sfr d reg_auxr1 (c.sfr reg_auxr1)) r)
            (once c b other r last differ)
          ∙ back c b other r lt differ
          ∙ swap_twice c b other _ lt last,
    )
