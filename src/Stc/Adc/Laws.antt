-- ===== src/Stc/Adc/Laws.antt =====
-- The result of a conversion as the registers hold it.
use emu8051_stc.Prelude.{
  ℕ, ◌+◌, ◌*◌, ◌/◌, ◌%◌, ◌<◌, ◌≤◌, ◌≡◌, refl, arith, bit_and, bit_or, and_not, true, false, ◌==◌,
  ◌&&◌, Bool-cases, inl, inr, if◌then◌else◌, IsBytes, nonzero, if_true, if_false, if_both,
}
use emu8051_stc.Prelude.Bits.{passes_below, passes_below_lem}
use mathlib.Core.Path.{sym, ◌∙◌, ap, subst}
use emu8051_stc.Cpu.{Cpu, set_sfr}
use emu8051_stc.Core.Timer.{has, or_sfr, clear_sfr}
use emu8051_stc.Stc.{Stc, set_stc}
use emu8051_stc.Stc.Regs.{reg_adc_contr, reg_adc_res, reg_adc_resl}
use emu8051_stc.Stc.Adc.{sample, limited, adrj, put_result, adc_complete}

-- What firmware makes of the two registers, for each justification.
abbrev pub result : {B : Type 0} → Cpu (Stc B) → ℕ
result c =
    if adrj c
    then c.sfr reg_adc_res * 0x100 + c.sfr reg_adc_resl
    else c.sfr reg_adc_res * 4 + c.sfr reg_adc_resl

split_table :
    passes_below 1024 (λ n.
      (bit_and (n / 0x100) 0x03 % 0x100 * 0x100 + bit_and n 0xff % 0x100 == n)
      && (bit_and (n / 4) 0xff % 0x100 * 4 + bit_and n 0x03 % 0x100 == n))
    ≡ true
unfolding passes_below
split_table = refl

flag_table :
    passes_below 256 (λ x.
      nonzero (bit_and (and_not (bit_or x 0x10 % 0x100) 0x08 % 0x100) 0x10)
      && (bit_and (and_not (bit_or x 0x10 % 0x100) 0x08 % 0x100) 0x08 == 0)
      && (bit_and (and_not (bit_or x 0x10 % 0x100) 0x08 % 0x100) 0x07 == bit_and x 0x07))
    ≡ true
unfolding passes_below
flag_table = refl

-- The flags that follow the result.
abbrev pub flagged : {B : Type 0} → Cpu (Stc B) → Cpu (Stc B)
flagged d = clear_sfr (or_sfr d reg_adc_contr 0x10) reg_adc_contr 0x08

module _ {B : Type 0} (c : Cpu (Stc B)) where
  pub limited_le : (ch counts : ℕ) → limited c ch counts ≤ 1023
  unfolding limited
  limited_le ch counts = ground arith

  -- The choice of the justification is in other registers.
  kept_res :
      (high low : ℕ)
      → adrj (flagged (set_sfr (set_sfr c reg_adc_resl low) reg_adc_res high)) ≡ adrj c
  unfolding adrj has clear_sfr or_sfr set_sfr
  kept_res high low = refl

  kept_resl :
      (high low : ℕ)
      → adrj (flagged (set_sfr (set_sfr c reg_adc_res high) reg_adc_resl low)) ≡ adrj c
  unfolding adrj has clear_sfr or_sfr set_sfr
  kept_resl high low = refl

  result_left : (n : ℕ) → n < 1024 → adrj c ≡ true → result (flagged (put_result c n)) ≡ n
  unfolding put_result clear_sfr or_sfr set_sfr
  result_left n lt e =
      let t = passes_below_lem 1024 _ n split_table lt in
      let d =
        set_sfr (set_sfr c reg_adc_resl (bit_and n 0xff)) reg_adc_res (bit_and (n / 0x100) 0x03) in
      ap (λ x. result (flagged x)) (if_true (adrj c) d _ e)
      ∙ if_true (adrj (flagged d)) _ _ (kept_res _ _ ∙ e)
      ∙ ground (arith, t)

  result_right : (n : ℕ) → n < 1024 → adrj c ≡ false → result (flagged (put_result c n)) ≡ n
  unfolding put_result clear_sfr or_sfr set_sfr
  result_right n lt e =
      let t = passes_below_lem 1024 _ n split_table lt in
      let d =
        set_sfr (set_sfr c reg_adc_res (bit_and (n / 4) 0xff)) reg_adc_resl (bit_and n 0x03) in
      ap (λ x. result (flagged x)) (if_false (adrj c) _ d e)
      ∙ if_false (adrj (flagged d)) _ _ (kept_resl _ _ ∙ e)
      ∙ ground (arith, t)

  result_stored : (n : ℕ) → n < 1024 → result (flagged (put_result c n)) ≡ n
  result_stored n lt = elim (Bool-cases (adrj c)) [
    | inl e ↦ result_left n lt e
    | inr e ↦ result_right n lt e
  ]

-- At the end of a conversion the two registers give, in the justification that the part and its
-- ADRJ bit choose, the sample of the channel that ADC_CONTR names, cut off at 1023, and 0 where
-- P1ASF has not enabled the channel.
adc_complete-result :
    {B : Type 0} (c : Cpu (Stc B))
    → let ch = bit_and (c.sfr reg_adc_contr) 0x07 in
      result (adc_complete c) ≡ limited c ch (sample c.env ch).0
unfolding adc_complete
adc_complete-result c =
    let ch = bit_and (c.sfr reg_adc_contr) 0x07 in
    let n = limited c ch (sample c.env ch).0 in
    let le = limited_le c ch (sample c.env ch).0 in
    result_stored (set_stc c (sample c.env ch).1) n (omega (arith, le))

-- The control register is not one of the result.
put_result-contr :
    {B : Type 0} (c : Cpu (Stc B)) (n : ℕ)
    → (put_result c n).sfr reg_adc_contr ≡ c.sfr reg_adc_contr
unfolding put_result set_sfr
put_result-contr {B = B} c n =
    let contr : Cpu (Stc B) → ℕ = λ d. d.sfr reg_adc_contr in
    if_both contr (contr c) (adrj c) _ _ refl refl

flagged-flags :
    {B : Type 0} (d : Cpu (Stc B))
    → d.sfr reg_adc_contr < 256
    → (has (flagged d) reg_adc_contr 0x10 ≡ true)
      × (has (flagged d) reg_adc_contr 0x08 ≡ false)
      × (bit_and ((flagged d).sfr reg_adc_contr) 0x07 ≡ bit_and (d.sfr reg_adc_contr) 0x07)
unfolding clear_sfr or_sfr set_sfr has
flagged-flags d lt =
    let t = passes_below_lem 256 _ (d.sfr reg_adc_contr) flag_table lt in
    (ground (arith, t), ground (arith, t), ground (arith, t))

-- ADC_FLAG is set, ADC_START is clear and the channel stays, where ADC_CONTR holds a byte.
pub adc_complete-flags :
    {B : Type 0} (c : Cpu (Stc B))
    → IsBytes c.sfr
    → let d = adc_complete c in
      (has d reg_adc_contr 0x10 ≡ true)
      × (has d reg_adc_contr 0x08 ≡ false)
      × (bit_and (d.sfr reg_adc_contr) 0x07 ≡ bit_and (c.sfr reg_adc_contr) 0x07)
unfolding adc_complete set_stc
adc_complete-flags c bytes =
    let ch = bit_and (c.sfr reg_adc_contr) 0x07 in
    let n = limited c ch (sample c.env ch).0 in
    let c1 = set_stc c (sample c.env ch).1 in
    let e = put_result-contr c1 n in
    let lt = subst (λ x. x < 256) (sym e) (bytes reg_adc_contr) in
    let (flag, start, channel) = flagged-flags (put_result c1 n) lt in
    (flag, start, channel ∙ ap (λ x. bit_and x 0x07) e)
