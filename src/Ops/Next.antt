-- ===== src/Ops/Next.antt =====
-- Memory, the stack and the program counter.
pub mod Rules
pub mod Falls
use emu8051_stc.Prelude.{
  ℕ, ◌+◌, ◌-◌, ◌%◌, ◌≡◌, ◌∙◌, refl, ap, ltb, if◌then◌else◌, Bool, true, false, Option, none, some,
  Bool-cases, inl, inr, bit_and, u16,
}
use emu8051_stc.Cpu.{Cpu, Hooks, set_sfr, set_lower, set_upper, set_ext, set_pc}
use emu8051_stc.Cpu.Regs.{reg_sp}
use emu8051_stc.Mem.{
  set_acc, set_psw, add_pc, write_mem_indir, raise, read_sfr, sfr_written, read_mem, write_mem,
  push_to_stack, pop_from_stack,
}
use emu8051_stc.Flags.{add_solve_flags, sub_solve_flags}

-- What is asked of the callbacks: they leave the counter alone.
pub record KeepCounter {E : Type 0} (hooks : Hooks E) : Type 0 where
  pub except_ok :
      (f : Cpu E → ℕ → Cpu E) (c : Cpu E) (code : ℕ) → hooks.except ≡ some f → (f c code).pc ≡ c.pc
  pub sfrread_ok :
      (f : Cpu E → ℕ → ℕ × Cpu E) (c : Cpu E) (i a : ℕ)
      → hooks.sfrread i ≡ some f
      → ((f c a).1).pc ≡ c.pc
  pub sfrwrite_ok :
      (f : Cpu E → ℕ → Cpu E) (c : Cpu E) (i a : ℕ) → hooks.sfrwrite i ≡ some f → (f c a).pc ≡ c.pc
  pub xread_ok :
      (f : Cpu E → ℕ → ℕ × Cpu E) (c : Cpu E) (a : ℕ) → hooks.xread ≡ some f → ((f c a).1).pc ≡ c.pc
  pub xwrite_ok :
      (f : Cpu E → ℕ → ℕ → Cpu E) (c : Cpu E) (a v : ℕ)
      → hooks.xwrite ≡ some f
      → (f c a v).pc ≡ c.pc

-- The counter of the machine is `p`.
pub record At {E : Type 0} (p : ℕ) (c : Cpu E) : Type 0 where
  pub at : c.pc ≡ p

pub if-At :
    {E : Type 0} {p : ℕ} (b : Bool) (c d : Cpu E) → At p c → At p d → At p (if b then c else d)
if-At true c d h k = h
if-At false c d h k = k

module _ {E : Type 0} {p : ℕ} {c : Cpu E} (h : At p c) where
  pub set_sfr-At : (i v : ℕ) → At p (set_sfr c i v)
  unfolding set_sfr
  set_sfr-At i v = record { at = h.at }

  pub set_lower-At : (i v : ℕ) → At p (set_lower c i v)
  unfolding set_lower
  set_lower-At i v = record { at = h.at }

  pub set_upper-At : (i v : ℕ) → At p (set_upper c i v)
  unfolding set_upper
  set_upper-At i v = record { at = h.at }

  pub set_ext-At : (i v : ℕ) → At p (set_ext c i v)
  unfolding set_ext
  set_ext-At i v = record { at = h.at }

  pub set_acc-At : (v : ℕ) → At p (set_acc c v)
  unfolding set_acc set_sfr
  set_acc-At v = record { at = h.at }

  pub set_psw-At : (v : ℕ) → At p (set_psw c v)
  unfolding set_psw set_sfr
  set_psw-At v = record { at = h.at }

  pub add_solve_flags-At : (v w carry : ℕ) → At p (add_solve_flags c v w carry)
  unfolding add_solve_flags set_psw set_sfr
  add_solve_flags-At v w carry = record { at = h.at }

  pub sub_solve_flags-At : (v w carry : ℕ) → At p (sub_solve_flags c v w carry)
  unfolding sub_solve_flags set_psw set_sfr
  sub_solve_flags-At v w carry = record { at = h.at }

  pub add_pc-At : (n : ℕ) → At (u16 (p + n)) (add_pc c n)
  unfolding add_pc set_pc
  add_pc-At n = record { at = ap (λ q. u16 (q + n)) h.at }

module _ {E : Type 0} {p : ℕ} {c : Cpu E} (h : At p c) where
  pub write_mem_indir-At : (a v : ℕ) → At p (write_mem_indir c a v)
  unfolding write_mem_indir
  write_mem_indir-At a v = if-At (ltb 0x7f a) _ _ (upper c.upper_data) (set_lower-At h a v)
    where
      upper : (m : Option (ℕ → ℕ)) → At p (elim m [ none ↦ c | some _ ↦ set_upper c (a - 0x80) v ])
      upper none = h
      upper (some m) = set_upper-At h (a - 0x80) v

module _ {E : Type 0} {hooks : Hooks E} (ok : KeepCounter hooks) {p : ℕ} {c : Cpu E}
    (h : At p c) where
  pub raise-At : (code : ℕ) → At p (raise hooks c code)
  unfolding raise
  raise-At code = go hooks.except refl
    where
      go :
          (o : Option (Cpu E → ℕ → Cpu E))
          → hooks.except ≡ o
          → At p (elim o [ none ↦ c | some f ↦ f c code ])
      go none e = h
      go (some f) e = record { at = ok.except_ok f c code e ∙ h.at }

  pub read_sfr-At : (a : ℕ) → At p (read_sfr hooks c a).1
  unfolding read_sfr
  read_sfr-At a = go (hooks.sfrread (a - 0x80)) refl
    where
      result : Option (Cpu E → ℕ → ℕ × Cpu E) → ℕ × Cpu E
      result o = elim o [ none ↦ (c.sfr (a - 0x80), c) | some f ↦ f c a ]

      go : (o : Option (Cpu E → ℕ → ℕ × Cpu E)) → hooks.sfrread (a - 0x80) ≡ o → At p (result o).1
      go none e = h
      go (some f) e = record { at = ok.sfrread_ok f c (a - 0x80) a e ∙ h.at }

  pub sfr_written-At : (a : ℕ) → At p (sfr_written hooks c a)
  unfolding sfr_written
  sfr_written-At a = go (hooks.sfrwrite (a - 0x80)) refl
    where
      go :
          (o : Option (Cpu E → ℕ → Cpu E))
          → hooks.sfrwrite (a - 0x80) ≡ o
          → At p (elim o [ none ↦ c | some f ↦ f c a ])
      go none e = h
      go (some f) e = record { at = ok.sfrwrite_ok f c (a - 0x80) a e ∙ h.at }

module _ {E : Type 0} {hooks : Hooks E} (ok : KeepCounter hooks) {p : ℕ} {c : Cpu E}
    (h : At p c) where
  pub read_mem-At : (a : ℕ) → At p (read_mem hooks c a).1
  unfolding read_mem
  read_mem-At a = elim (Bool-cases (ltb 0x7f a)) [
    | inl e ↦ rw e (read_sfr-At ok h a)
    | inr e ↦ rw e h
  ]

  pub write_mem-At : (a v : ℕ) → At p (write_mem hooks c a v)
  unfolding write_mem
  write_mem-At a v =
      if-At (ltb 0x7f a) _ _ (sfr_written-At ok (set_sfr-At h (a - 0x80) v) a) (set_lower-At h a v)

  pub push_to_stack-At : (v : ℕ) → At p (push_to_stack hooks c v)
  unfolding push_to_stack
  push_to_stack-At v =
      let pushed = write_mem_indir-At (set_sfr-At h reg_sp (c.sfr reg_sp + 1)) _ v in
      if-At _ _ _ (raise-At ok pushed _) pushed

  pub pop_from_stack-At : At p (pop_from_stack hooks c).1
  unfolding pop_from_stack
  pop_from_stack-At =
      let popped = set_sfr-At h reg_sp (c.sfr reg_sp + 0x100 - 1) in
      if-At _ _ _ (raise-At ok popped _) popped

-- The rules by which a chain of stores keeps the counter.
pub ruleset counter_rules = (
  if-At, set_sfr-At, set_lower-At, set_upper-At, set_ext-At, set_acc-At, set_psw-At, add_pc-At,
  add_solve_flags-At, sub_solve_flags-At, write_mem_indir-At, raise-At, sfr_written-At, read_mem-At,
  write_mem-At, push_to_stack-At, pop_from_stack-At,
)
