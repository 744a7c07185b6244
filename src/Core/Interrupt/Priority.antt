-- ===== src/Core/Interrupt/Priority.antt =====
-- Which interrupt `handle_interrupts` takes, against the rule of the two priorities.
use emu8051_stc.Prelude.{
  ℕ, ◌≡◌, ◌<◌, refl, arith, ltb, ◌==◌, ◌&&◌, not, Bool, true, false, Option, none, some,
  if◌then◌else◌, List, [], ◌∷◌, ◌⊎◌, inl, inr, Bool-cases,
}
use emu8051_stc.Cpu.{Cpu, Hooks}
use emu8051_stc.Cpu.Regs.{reg_ie, reg_ip}
use emu8051_stc.Core.Timer.{has}
use emu8051_stc.Core.Interrupt.{
  Pick, no_pick, poll, poll_int0, poll_all, pick, enter, take, handle_interrupts, int0_pending,
  tf0_pending, int1_pending, tf1_pending, serial_pending, pca_pending, isr_int0, isr_tf0, isr_int1,
  isr_tf1, isr_sr, isr_pca,
}

-- A source of interrupts: whether it asks, its vector and its priority bit.
pub record Source : Type 0 where
  pub pending : Bool
  pub vector : ℕ
  pub high : Bool

-- The sources in the order in which they are polled.
abbrev pub sources : {E : Type 0} → Cpu E → List Source
sources c =
    record { pending = int0_pending c; vector = isr_int0; high = has c reg_ip 0x01 }
    ∷ record { pending = tf0_pending c; vector = isr_tf0; high = has c reg_ip 0x02 }
    ∷ record { pending = int1_pending c; vector = isr_int1; high = has c reg_ip 0x04 }
    ∷ record { pending = tf1_pending c; vector = isr_tf1; high = has c reg_ip 0x08 }
    ∷ record { pending = serial_pending c; vector = isr_sr; high = has c reg_ip 0x10 }
    ∷ record { pending = pca_pending c; vector = isr_pca; high = has c reg_ip 0x80 }
    ∷ []

-- The vector of the first source that passes a test.
abbrev pub first_vector : (Source → Bool) → List Source → Option ℕ
first_vector test [] = none
first_vector test (s ∷ rest) = if test s then some s.vector else first_vector test rest

abbrev pub asks_high : Source → Bool
asks_high s = s.pending && s.high

abbrev pub asks : Source → Bool
asks s = s.pending

-- The rule: the first source that asks with high priority, and if there is none the first source
-- that asks.
abbrev pub or_low : Option ℕ → Pick
or_low none = no_pick
or_low (some v) = record { dest_ip = some v; hi = false; lo = true }

abbrev pub or_high : Option ℕ → Pick → Pick
or_high none p = p
or_high (some v) p = record { dest_ip = some v; hi = true; lo = true }

abbrev pub select : List Source → Pick
select l = or_high (first_vector asks_high l) (or_low (first_vector asks l))

poll_list : List Source → Pick → Pick
poll_list [] p = p
poll_list (s ∷ rest) p = poll_list rest (poll s.pending s.vector s.high p)

-- Once a source of high priority is found, polling changes nothing.
poll_list_high :
    (l : List Source) (v : ℕ)
    → poll_list l (record { dest_ip = some v; hi = true; lo = true })
      ≡ record { dest_ip = some v; hi = true; lo = true }
unfolding poll_list poll
poll_list_high [] v = refl
poll_list_high (s ∷ rest) v = ground (arith, poll_list_high rest v)

poll_list_low :
    (l : List Source) (v : ℕ)
    → poll_list l (record { dest_ip = some v; hi = false; lo = true })
      ≡ or_high (first_vector asks_high l) (record { dest_ip = some v; hi = false; lo = true })
unfolding poll_list poll
poll_list_low [] v = refl
poll_list_low (s ∷ rest) v = ground (arith, poll_list_low rest v, poll_list_high rest s.vector)

poll_list-select : (l : List Source) → poll_list l no_pick ≡ select l
unfolding poll_list poll
poll_list-select [] = refl
poll_list-select (s ∷ rest) =
    ground (arith, poll_list-select rest, poll_list_low rest s.vector, poll_list_high rest s.vector)

-- The first test of the code is a poll of nothing picked.
poll_first :
    (b h : Bool) (v : ℕ)
    → poll b v h no_pick ≡ (if b then record { dest_ip = some v; hi = h; lo = true } else no_pick)
unfolding poll
poll_first b h v = ground arith

poll_all-eq : {E : Type 0} (c : Cpu E) → poll_all c ≡ poll_list (sources c) no_pick
unfolding poll_all poll_list poll_int0
poll_all-eq c = rw (poll_first (int0_pending c) (has c reg_ip 0x01) isr_int0)

-- What `handle_interrupts` polls: where interrupts are enabled, the first source in polling order
-- that asks with high priority, and if there is none the first that asks; else nothing.
pub pick-select :
    {E : Type 0} (c : Cpu E) → pick c ≡ (if has c reg_ie 0x80 then select (sources c) else no_pick)
unfolding pick
pick-select c = rw (poll_all-eq c, poll_list-select (sources c))

-- No source of a list asks with high priority.
abbrev pub NoneHigh : List Source → Type 0
NoneHigh l = first_vector asks_high l ≡ none

hi-select : (l : List Source) → NoneHigh l → (select l).hi ≡ false
hi-select l h = rw h (low (first_vector asks l))
  where
    low : (o : Option ℕ) → (or_low o).hi ≡ false
    low none = refl
    low (some v) = refl

hi-pick : {E : Type 0} (c : Cpu E) → NoneHigh (sources c) → (pick c).hi ≡ false
hi-pick c h = elim (Bool-cases (has c reg_ie 0x80)) [
  | inl e ↦ rw (pick-select c, e) (hi-select (sources c) h)
  | inr e ↦ rw (pick-select c, e)
]

module _ {E : Type 0} (hooks : Hooks E) (c : Cpu E) where
  take_same_level : (p : Pick) → c.interrupt_active ≡ 1 → p.hi ≡ false → take hooks c p ≡ c
  unfolding take
  take_same_level p one low = go p.dest_ip
    where
      go :
          (o : Option ℕ)
          → ◌≡◌ {A = Cpu E}
              (elim o [
                | none ↦ c
                | some d ↦ if c.interrupt_active == 1 && not p.hi then c else enter hooks c d p.hi
              ])
              c
      go none = refl
      go (some d) = rw (one, low)

  -- An interrupt routine is not interrupted by its own level or a lower one: nothing happens while
  -- one of high priority is in service, and while one of low priority is, unless some source asks
  -- with high priority.
  pub handle_interrupts_masked :
      ((1 < c.interrupt_active) ⊎ ((c.interrupt_active ≡ 1) × NoneHigh (sources c)))
      → handle_interrupts hooks c ≡ c
  unfolding handle_interrupts
  handle_interrupts_masked (inl high) = ground arith
  handle_interrupts_masked (inr (one, none_high)) =
      let low : ltb 1 c.interrupt_active ≡ false = ground arith in
      rw (low, take_same_level (pick c) one (hi-pick c none_high))
