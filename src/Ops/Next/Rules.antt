-- ===== src/Ops/Next/Rules.antt =====
-- The helpers of the handlers and the counter.
use emu8051_stc.Prelude.{ℕ, ltb, Bool-cases, inl, inr, ◌≡◌, ◌∙◌, refl, Option, none, some, bit_and}
use emu8051_stc.Cpu.{Cpu, Hooks, set_ext}
use emu8051_stc.Mem.{acc, set_acc}
use emu8051_stc.Ops.Logic.{latch_op}
use emu8051_stc.Ops.Bit.{put_carry, read_bit, change_byte}
use emu8051_stc.Ops.Move.{movx_load, movx_store, load_ext, store_ext}
use emu8051_stc.Ops.Next.{
  KeepCounter, At, counter_rules, read_sfr-At, set_acc-At, set_ext-At, set_psw-At,
}

pub put_carry-At : {E : Type 0} {p : ℕ} {c : Cpu E} → At p c → (v : ℕ) → At p (put_carry c v)
unfolding put_carry
put_carry-At h v = set_psw-At h _

module _ {E : Type 0} {p : ℕ} {c : Cpu E} (h : At p c) (address : ℕ) where
  load_ext-At : At p (load_ext c address)
  unfolding load_ext
  load_ext-At = go c.ext_data
    where
      go :
          (o : Option (ℕ → ℕ))
          → At p (
              let r : Cpu E = elim o [
                | none ↦ c
                | some m ↦ set_acc c (m (bit_and address c.ext_data_max_idx))
              ] in
              r)
      go none = h
      go (some m) = set_acc-At h _

  store_ext-At : At p (store_ext c address)
  unfolding store_ext
  store_ext-At = go c.ext_data
    where
      go :
          (o : Option (ℕ → ℕ))
          → At p (
              let r : Cpu E = elim o [
                | none ↦ c
                | some _ ↦ set_ext c (bit_and address c.ext_data_max_idx) (acc c)
              ] in
              r)
      go none = h
      go (some m) = set_ext-At h _ _

module _ {E : Type 0} {hooks : Hooks E} (ok : KeepCounter hooks) {p : ℕ} {c : Cpu E} (h : At p c)
    (address : ℕ) where
  pub movx_load-At : At p (movx_load hooks c address)
  unfolding movx_load
  movx_load-At = go hooks.xread refl
    where
      go :
          (o : Option (Cpu E → ℕ → ℕ × Cpu E))
          → hooks.xread ≡ o
          → At p (elim o [
            | none ↦ load_ext c address
            | some f ↦ set_acc (f c address).1 (f c address).0
          ])
      go none e = load_ext-At h address
      go (some f) e = set_acc-At (record { at = ok.xread_ok f c address e ∙ h.at }) _

  pub movx_store-At : At p (movx_store hooks c address)
  unfolding movx_store
  movx_store-At = go hooks.xwrite refl
    where
      go :
          (o : Option (Cpu E → ℕ → ℕ → Cpu E))
          → hooks.xwrite ≡ o
          → At p (elim o [ none ↦ store_ext c address | some f ↦ f c address (acc c) ])
      go none e = store_ext-At h address
      go (some f) e = record { at = ok.xwrite_ok f c address (acc c) e ∙ h.at }

pub latch_op-At :
    {E : Type 0} {hooks : Hooks E} (ok : KeepCounter hooks) (op : ℕ → ℕ → ℕ) {p : ℕ} {c : Cpu E}
    → At p c
    → (address : ℕ) → At p (latch_op hooks op c address)
unfolding latch_op
latch_op-At ok op h address = search counter_rules

module _ {E : Type 0} {hooks : Hooks E} (ok : KeepCounter hooks) {p : ℕ} {c : Cpu E}
    (h : At p c) where
  pub read_bit-At : (address : ℕ) → At p (read_bit hooks c address).1
  unfolding read_bit
  read_bit-At address = elim (Bool-cases (ltb 0x7f address)) [
    | inl e ↦ rw e (read_sfr-At ok h _)
    | inr e ↦ rw e h
  ]

  pub change_byte-At : (address : ℕ) (f : ℕ → ℕ) → At p (change_byte hooks c address f)
  unfolding change_byte
  change_byte-At address f = search counter_rules

pub ruleset handler_rules = (
  counter_rules, put_carry-At, read_bit-At, change_byte-At, latch_op-At, movx_load-At,
  movx_store-At,
)
