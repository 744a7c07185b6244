-- ===== src/Flags/Laws.antt =====
-- The flags against the sums that they describe.
use emu8051_stc.Prelude.{
  ℕ, bit_or, and_not, u8, Bool, true, ◌+◌, ◌-◌, ◌/◌, ◌%◌, ◌<◌, ◌≡◌, refl, arith, ltb, leb, ◌==◌,
  ◌&&◌, if◌then◌else◌, bit_and,
}
use emu8051_stc.Prelude.Bits.{
  passes_below, passes_below_lem, bit_and_255, bit_and_127, bit_and_7, bit_and_1, bit_xor_bit,
}
use emu8051_stc.Cpu.{Cpu}
use emu8051_stc.Cpu.Valid.{IsValid}
use emu8051_stc.Mem.Valid.{set_psw-IsValid}
use emu8051_stc.Flags.{
  add_solve_flags, sub_solve_flags, add_carry, add_auxcarry, add_overflow, sub_carry, sub_auxcarry,
  sub_overflow, with_flags,
}

-- A byte as a signed number, shifted up by 128 to be a natural number.
abbrev pub signed : ℕ → ℕ
signed a = (a + 0x80) % 0x100

module _ {E : Type 0} {c : Cpu E} (h : IsValid c) (a b cin : ℕ) where
  pub add_solve_flags-IsValid : IsValid (add_solve_flags c a b cin)
  unfolding add_solve_flags
  add_solve_flags-IsValid = set_psw-IsValid h _

  pub sub_solve_flags-IsValid : IsValid (sub_solve_flags c a b cin)
  unfolding sub_solve_flags
  sub_solve_flags-IsValid = set_psw-IsValid h _

module _ (a b cin : ℕ) (ha : a < 0x100) (hb : b < 0x100) (hc : cin < 2) where
  -- The carry is the ninth bit of the sum, and the borrow that of the difference.
  pub add_carry-eq : add_carry a b cin ≡ (a + b + cin) / 0x100
  unfolding add_carry
  add_carry-eq = rw (bit_and_255 a ha, bit_and_255 b hb) (ground arith)

  pub sub_carry-eq : sub_carry a b cin ≡ (if ltb a (b + cin) then 1 else 0)
  unfolding sub_carry
  sub_carry-eq =
      rw
        (
          bit_and_255 a ha,
          bit_and_255 b hb,
          bit_and_1 ((a + 0x10000 - b - cin) / 0x100) (omega arith),
        )
        (ground arith)

  pub add_auxcarry-eq : add_auxcarry a b cin ≡ (a % 8 + b % 8 + cin) / 8
  unfolding add_auxcarry
  add_auxcarry-eq = rw (bit_and_7 a ha, bit_and_7 b hb) (ground arith)

  pub add_overflow-eq : add_overflow a b cin ≡ (
      if leb 0x80 (signed a + signed b + cin) && ltb (signed a + signed b + cin) 0x180
      then 0
      else 1)
  unfolding add_overflow
  add_overflow-eq =
      rw
        (
          bit_and_127 a ha,
          bit_and_127 b hb,
          add_carry-eq,
          bit_xor_bit ((a % 128 + b % 128 + cin) / 0x80) ((a + b + cin) / 0x100) (omega arith)
              (omega arith),
        )
        (ground arith)

  -- The difference, shifted up by 256 to be a natural number, leaves the range of a signed byte.
  pub sub_overflow-eq : sub_overflow a b cin ≡ (
      if leb 0x80 (signed a + 0x100 - signed b - cin)
        && ltb (signed a + 0x100 - signed b - cin) 0x180
      then 0
      else 1)
  unfolding sub_overflow
  sub_overflow-eq =
      rw
        (
          bit_and_127 a ha,
          bit_and_127 b hb,
          sub_carry-eq,
          bit_and_1 ((a % 128 + 0x10000 - b % 128 - cin) / 0x80) (omega arith),
          bit_xor_bit ((a % 128 + 0x10000 - b % 128 - cin) / 0x80 % 2)
              (if ltb a (b + cin) then 1 else 0) (omega arith) (ground arith),
        )
        (ground arith)

  pub flags-lt : (add_carry a b cin < 2) × (add_auxcarry a b cin < 2) × (add_overflow a b cin < 2)
  unfolding add_carry add_auxcarry add_overflow
  flags-lt = (ground arith, ground arith, ground arith)

  pub sub_flags-lt :
      (sub_carry a b cin < 2) × (sub_auxcarry a b cin < 2) × (sub_overflow a b cin < 2)
  unfolding sub_carry sub_auxcarry sub_overflow
  sub_flags-lt = (ground arith, ground arith, ground arith)

-- The flags in their places, and the other bits of the PSW as they were.
pub record HasFlags (p q carry auxcarry overflow : ℕ) : Type 0 where
  pub at_c : q / 0x80 ≡ carry
  pub at_ac : q / 0x40 % 2 ≡ auxcarry
  pub at_ov : q / 4 % 2 ≡ overflow
  pub others : bit_and q 0x3b ≡ bit_and p 0x3b
  pub byte : q < 0x100

pub has_flags : ℕ → ℕ → ℕ → ℕ → ℕ → Bool
has_flags p q c ac ov =
    q / 0x80 == c
    && q / 0x40 % 2 == ac
    && q / 4 % 2 == ov
    && bit_and q 0x3b == bit_and p 0x3b
    && ltb q 0x100

pub has_flags_sound : (p q c ac ov : ℕ) → has_flags p q c ac ov ≡ true → HasFlags p q c ac ov
unfolding has_flags
has_flags_sound p q c ac ov h = ground arith

flags_table :
    passes_below 2 (λ c. passes_below 2 (λ ac.
      passes_below 2 (λ ov. passes_below 256 (λ p. has_flags p (with_flags p c ac ov) c ac ov))))
    ≡ true
unfolding passes_below has_flags with_flags
flags_table = refl

pub with_flags_lem :
    (p c ac ov : ℕ) → p < 256 → c < 2 → ac < 2 → ov < 2 → HasFlags p (with_flags p c ac ov) c ac ov
with_flags_lem p c ac ov hp hc hac hov =
    let t1 = passes_below_lem 2 _ c flags_table hc in
    let t2 = passes_below_lem 2 _ ac t1 hac in
    let t3 = passes_below_lem 2 _ ov t2 hov in
    has_flags_sound _ _ _ _ _ (passes_below_lem 256 _ p t3 hp)

-- 0 where the sum of two signed bytes and a carry is a signed byte, else 1.
abbrev pub overflows : ℕ → ℕ → ℕ → ℕ
overflows a b cin =
    if leb 0x80 (signed a + signed b + cin) && ltb (signed a + signed b + cin) 0x180 then 0 else 1

-- The same of the difference.
abbrev pub sub_overflows : ℕ → ℕ → ℕ → ℕ
sub_overflows a b cin =
    if leb 0x80 (signed a + 0x100 - signed b - cin) && ltb (signed a + 0x100 - signed b - cin) 0x180
    then 0
    else 1

-- The PSW after `add_solve_flags` and `sub_solve_flags`.
module _ (p a b cin : ℕ) (hp : p < 0x100) (ha : a < 0x100) (hb : b < 0x100) (hc : cin < 2) where
  pub add_flags_lem :
      HasFlags p
        (u8 (with_flags p (add_carry a b cin) (add_auxcarry a b cin) (add_overflow a b cin)))
        ((a + b + cin) / 0x100)
        ((a % 8 + b % 8 + cin) / 8)
        (overflows a b cin)
  add_flags_lem =
      let lt = flags-lt a b cin ha hb hc in
      let f = with_flags_lem p _ _ _ hp lt.0 lt.1 lt.2 in
      let fits : u8 (with_flags p (add_carry a b cin) (add_auxcarry a b cin) (add_overflow a b cin))
          ≡ with_flags p (add_carry a b cin) (add_auxcarry a b cin) (add_overflow a b cin) =
        omega (arith, f.byte) in
      rw
        (
          fits,
          ← add_carry-eq a b cin ha hb hc,
          ← add_auxcarry-eq a b cin ha hb hc,
          ← add_overflow-eq a b cin ha hb hc,
        )
        f

  pub sub_flags_lem :
      (ac : ℕ) × HasFlags p
        (u8 (with_flags p (sub_carry a b cin) (sub_auxcarry a b cin) (sub_overflow a b cin)))
        (if ltb a (b + cin) then 1 else 0)
        ac
        (sub_overflows a b cin)
  sub_flags_lem =
      let lt = sub_flags-lt a b cin ha hb hc in
      let f = with_flags_lem p _ _ _ hp lt.0 lt.1 lt.2 in
      let fits : u8 (with_flags p (sub_carry a b cin) (sub_auxcarry a b cin) (sub_overflow a b cin))
          ≡ with_flags p (sub_carry a b cin) (sub_auxcarry a b cin) (sub_overflow a b cin) =
        omega (arith, f.byte) in
      (
        sub_auxcarry a b cin,
        rw (fits, ← sub_carry-eq a b cin ha hb hc, ← sub_overflow-eq a b cin ha hb hc) f,
      )

-- The carry cleared, and the overflow cleared or set.
cleared_table :
    passes_below 256 (λ p.
      has_flags p (and_not p 0x84) 0 (p / 0x40 % 2) 0
      && has_flags p (bit_or (and_not p 0x84) 4) 0 (p / 0x40 % 2) 1)
    ≡ true
unfolding passes_below has_flags
cleared_table = refl

pub cleared_flags :
    (p : ℕ)
    → p < 256
    → HasFlags p (and_not p 0x84) 0 (p / 0x40 % 2) 0
      × HasFlags p (bit_or (and_not p 0x84) 4) 0 (p / 0x40 % 2) 1
cleared_flags p lt =
    let t =
      passes_below_lem 256
        (λ p.
          has_flags p (and_not p 0x84) 0 (p / 0x40 % 2) 0
          && has_flags p (bit_or (and_not p 0x84) 4) 0 (p / 0x40 % 2) 1)
        p cleared_table lt in
    (has_flags_sound _ _ _ _ _ (ground arith), has_flags_sound _ _ _ _ _ (ground arith))
