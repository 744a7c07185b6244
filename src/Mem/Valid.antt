-- ===== src/Mem/Valid.antt =====
-- Reading and writing memory keeps every field in its width, if the callbacks do.
use emu8051_stc.Prelude.{
  ℕ, ◌+◌, ◌-◌, ◌<◌, ◌≡◌, refl, arith, ltb, if◌then◌else◌, Bool, true, false, Option, none, some,
  Bool-cases, inl, inr,
}
use emu8051_stc.Cpu.{Cpu, Hooks, set_upper}
use emu8051_stc.Cpu.Valid.{
  IsValid, IsBytes?, set_sfr-IsValid, set_lower-IsValid, set_upper-IsValid, set_pc-IsValid,
  set_ext-IsValid,
}
use emu8051_stc.Cpu.Regs.{reg_sp}
use emu8051_stc.Mem.{
  set_acc, set_psw, add_pc, branch, read_mem_indir, write_mem_indir, raise, read_sfr, sfr_written,
  read_mem, write_mem, push_to_stack, pop_from_stack,
}

-- What is asked of the callbacks: they keep the machine valid, and a value read is a byte.
pub record AreValid {E : Type 0} (hooks : Hooks E) : Type 0 where
  pub except_ok :
      (f : Cpu E → ℕ → Cpu E) (c : Cpu E) (code : ℕ)
      → hooks.except ≡ some f
      → IsValid c
      → IsValid (f c code)
  pub sfrread_ok :
      (f : Cpu E → ℕ → ℕ × Cpu E) (c : Cpu E) (i a : ℕ)
      → hooks.sfrread i ≡ some f
      → IsValid c
      → ((f c a).0 < 0x100) × IsValid (f c a).1
  pub sfrwrite_ok :
      (f : Cpu E → ℕ → Cpu E) (c : Cpu E) (i a : ℕ)
      → hooks.sfrwrite i ≡ some f
      → IsValid c
      → IsValid (f c a)
  pub xread_ok :
      (f : Cpu E → ℕ → ℕ × Cpu E) (c : Cpu E) (a : ℕ)
      → hooks.xread ≡ some f
      → IsValid c
      → ((f c a).0 < 0x100) × IsValid (f c a).1
  pub xwrite_ok :
      (f : Cpu E → ℕ → ℕ → Cpu E) (c : Cpu E) (a v : ℕ)
      → hooks.xwrite ≡ some f
      → IsValid c
      → IsValid (f c a v)

-- Both branches valid, the result is.
pub if-IsValid :
    {E : Type 0} (b : Bool) (c d : Cpu E) → IsValid c → IsValid d → IsValid (if b then c else d)
if-IsValid true c d h k = h
if-IsValid false c d h k = k

module _ {E : Type 0} {c : Cpu E} (h : IsValid c) where
  pub set_acc-IsValid : (v : ℕ) → IsValid (set_acc c v)
  unfolding set_acc
  set_acc-IsValid v = set_sfr-IsValid h _ v

  pub set_psw-IsValid : (v : ℕ) → IsValid (set_psw c v)
  unfolding set_psw
  set_psw-IsValid v = set_sfr-IsValid h _ v

  pub add_pc-IsValid : (n : ℕ) → IsValid (add_pc c n)
  unfolding add_pc
  add_pc-IsValid n = set_pc-IsValid h _

  pub branch-IsValid : (t : Bool) (o n : ℕ) → IsValid (branch c t o n)
  unfolding branch
  branch-IsValid t o n = add_pc-IsValid _

  pub write_mem_indir-IsValid : (a v : ℕ) → IsValid (write_mem_indir c a v)
  unfolding write_mem_indir
  write_mem_indir-IsValid a v =
      if-IsValid (ltb 0x7f a) _ _ (upper c.upper_data) (set_lower-IsValid h a v)
    where
      upper :
          (m : Option (ℕ → ℕ)) → IsValid (elim m [ none ↦ c | some _ ↦ set_upper c (a - 0x80) v ])
      upper none = h
      upper (some m) = set_upper-IsValid h (a - 0x80) v

  pub read_mem_indir-lt : (a : ℕ) → read_mem_indir c a < 0x100
  unfolding read_mem_indir
  read_mem_indir-lt a = elim (Bool-cases (ltb 0x7f a)) [
    | inl e ↦ rw e (upper c.upper_data h.upper)
    | inr e ↦ rw e (h.lower a)
  ]
    where
      upper :
          (m : Option (ℕ → ℕ)) → IsBytes? m → elim m [ none ↦ 0x77 | some f ↦ f (a - 0x80) ] < 0x100
      upper none k = omega arith
      upper (some f) k = k (a - 0x80)

module _ {E : Type 0} {hooks : Hooks E} (ok : AreValid hooks) {c : Cpu E} (h : IsValid c) where
  pub raise-IsValid : (code : ℕ) → IsValid (raise hooks c code)
  unfolding raise
  raise-IsValid code = go hooks.except refl
    where
      go :
          (o : Option (Cpu E → ℕ → Cpu E))
          → hooks.except ≡ o
          → IsValid (elim o [ none ↦ c | some f ↦ f c code ])
      go none e = h
      go (some f) e = ok.except_ok f c code e h

  pub read_sfr-IsValid : (a : ℕ) → ((read_sfr hooks c a).0 < 0x100) × IsValid (read_sfr hooks c a).1
  unfolding read_sfr
  read_sfr-IsValid a = go (hooks.sfrread (a - 0x80)) refl
    where
      result : Option (Cpu E → ℕ → ℕ × Cpu E) → ℕ × Cpu E
      result o = elim o [ none ↦ (c.sfr (a - 0x80), c) | some f ↦ f c a ]

      go :
          (o : Option (Cpu E → ℕ → ℕ × Cpu E))
          → hooks.sfrread (a - 0x80) ≡ o
          → ((result o).0 < 0x100) × IsValid (result o).1
      go none e = (h.sfrs (a - 0x80), h)
      go (some f) e = ok.sfrread_ok f c (a - 0x80) a e h

  pub sfr_written-IsValid : (a : ℕ) → IsValid (sfr_written hooks c a)
  unfolding sfr_written
  sfr_written-IsValid a = go (hooks.sfrwrite (a - 0x80)) refl
    where
      go :
          (o : Option (Cpu E → ℕ → Cpu E))
          → hooks.sfrwrite (a - 0x80) ≡ o
          → IsValid (elim o [ none ↦ c | some f ↦ f c a ])
      go none e = h
      go (some f) e = ok.sfrwrite_ok f c (a - 0x80) a e h

module _ {E : Type 0} {hooks : Hooks E} (ok : AreValid hooks) {c : Cpu E} (h : IsValid c) where
  pub read_mem-lt : (a : ℕ) → (read_mem hooks c a).0 < 0x100
  unfolding read_mem
  read_mem-lt a = elim (Bool-cases (ltb 0x7f a)) [
    | inl e ↦ rw e ((read_sfr-IsValid ok h a).0)
    | inr e ↦ rw e (h.lower a)
  ]

  pub read_mem-IsValid : (a : ℕ) → IsValid (read_mem hooks c a).1
  unfolding read_mem
  read_mem-IsValid a = elim (Bool-cases (ltb 0x7f a)) [
    | inl e ↦ rw e ((read_sfr-IsValid ok h a).1)
    | inr e ↦ rw e h
  ]

  pub write_mem-IsValid : (a v : ℕ) → IsValid (write_mem hooks c a v)
  unfolding write_mem
  write_mem-IsValid a v =
      if-IsValid (ltb 0x7f a) _ _ (sfr_written-IsValid ok (set_sfr-IsValid h (a - 0x80) v) a)
        (set_lower-IsValid h a v)

  pub push_to_stack-IsValid : (v : ℕ) → IsValid (push_to_stack hooks c v)
  unfolding push_to_stack
  push_to_stack-IsValid v =
      let pushed = write_mem_indir-IsValid (set_sfr-IsValid h reg_sp (c.sfr reg_sp + 1)) _ v in
      if-IsValid _ _ _ (raise-IsValid ok pushed _) pushed

  pub pop_from_stack-lt : (pop_from_stack hooks c).0 < 0x100
  unfolding pop_from_stack
  pop_from_stack-lt = read_mem_indir-lt h _

  pub pop_from_stack-IsValid : IsValid (pop_from_stack hooks c).1
  unfolding pop_from_stack
  pop_from_stack-IsValid =
      let popped = set_sfr-IsValid h reg_sp (c.sfr reg_sp + 0x100 - 1) in
      if-IsValid _ _ _ (raise-IsValid ok popped _) popped

-- The rules by which a chain of stores is valid.
pub ruleset valid_rules = (
  if-IsValid, set_sfr-IsValid, set_lower-IsValid, set_upper-IsValid, set_ext-IsValid,
  set_pc-IsValid, set_acc-IsValid, set_psw-IsValid, add_pc-IsValid, branch-IsValid,
  write_mem_indir-IsValid, raise-IsValid, sfr_written-IsValid, read_mem-IsValid, write_mem-IsValid,
  push_to_stack-IsValid, pop_from_stack-IsValid,
)
