-- ===== src/Debug/Memory/Laws.antt =====
-- debug.c, `dbg_read_mem` and `dbg_write_mem` on a byte.
use emu8051_stc.Prelude.{
  ℕ, zero, suc, ◌<◌, ◌≡◌, ◌≢◌, inl, inr, arith, ltb, leb, ◌==◌, ◌&&◌, ◌||◌, if◌then◌else◌, Bool,
  true, false, Option, none, some, Option-cases,
}
use emu8051_stc.Cpu.{Cpu, set_sfr, set_lower, set_upper, set_ext, update?}
use emu8051_stc.Debug.{space_code, space_iram, space_sfr, space_xram}
use emu8051_stc.Debug.Memory.{iram_byte, read_byte, write_byte}

unfoldable pub is_there : {A : Type 0} → Option A → Bool
is_there none = false
is_there (some x) = true

-- Whether there is a byte at the address, in a space of bytes.
unfoldable pub has_byte : {E : Type 0} → Cpu E → ℕ → ℕ → Bool
has_byte c space a =
    if space == space_code
    then leb a c.code_mem_max_idx
    else if space == space_iram
    then ltb a 128 || is_there c.upper_data
    else if space == space_sfr
    then leb 0x80 a && leb a 0xff
    else if space == space_xram
    then leb a c.ext_data_max_idx && is_there c.ext_data
    else false

module _ {E : Type 0} (c : Cpu E) (a v : ℕ) (byte : v < 0x100) where
  code_back : has_byte c 0 a ≡ true → read_byte (write_byte c 0 a v) 0 a ≡ some v
  unfolding has_byte read_byte write_byte
  code_back there = ground arith

  iram_back : has_byte c 1 a ≡ true → read_byte (write_byte c 1 a v) 1 a ≡ some v
  unfolding has_byte read_byte write_byte iram_byte set_lower set_upper is_there update?
  iram_back there = elim (Option-cases c.upper_data) [
    | inl e ↦ rw e (ground arith)
    | inr (m, e) ↦ rw e (ground arith)
  ]

  sfr_back : has_byte c 2 a ≡ true → read_byte (write_byte c 2 a v) 2 a ≡ some v
  unfolding has_byte read_byte write_byte set_sfr
  sfr_back there = ground arith

  xram_back : has_byte c 3 a ≡ true → read_byte (write_byte c 3 a v) 3 a ≡ some v
  unfolding has_byte read_byte write_byte set_ext is_there update?
  xram_back there = elim (Option-cases c.ext_data) [
    | inl e ↦ rw e (ground arith)
    | inr (m, e) ↦ rw e (ground arith)
  ]

module _ {E : Type 0} (c : Cpu E) (a b v : ℕ) where
  code_there : has_byte (write_byte c 0 a v) 0 b ≡ has_byte c 0 b
  unfolding has_byte write_byte
  code_there = ground arith

  iram_there : has_byte (write_byte c 1 a v) 1 b ≡ has_byte c 1 b
  unfolding has_byte write_byte iram_byte set_lower set_upper is_there update?
  iram_there = elim (Option-cases c.upper_data) [
    | inl e ↦ rw e (ground arith)
    | inr (m, e) ↦ rw e (ground arith)
  ]

  sfr_there : has_byte (write_byte c 2 a v) 2 b ≡ has_byte c 2 b
  unfolding has_byte write_byte set_sfr
  sfr_there = ground arith

  xram_there : has_byte (write_byte c 3 a v) 3 b ≡ has_byte c 3 b
  unfolding has_byte write_byte set_ext is_there update?
  xram_there = elim (Option-cases c.ext_data) [
    | inl e ↦ rw e (ground arith)
    | inr (m, e) ↦ rw e (ground arith)
  ]

module _ {E : Type 0} (c : Cpu E) (a b v : ℕ) (other : a ≢ b) where
  code_beside : read_byte (write_byte c 0 a v) 0 b ≡ read_byte c 0 b
  unfolding read_byte write_byte
  code_beside = ground arith

  iram_beside : read_byte (write_byte c 1 a v) 1 b ≡ read_byte c 1 b
  unfolding read_byte write_byte iram_byte set_lower set_upper is_there update?
  iram_beside = elim (Option-cases c.upper_data) [
    | inl e ↦ rw e (ground arith)
    | inr (m, e) ↦ rw e (ground arith)
  ]

  sfr_beside : read_byte (write_byte c 2 a v) 2 b ≡ read_byte c 2 b
  unfolding read_byte write_byte set_sfr
  sfr_beside = ground arith

  xram_beside : read_byte (write_byte c 3 a v) 3 b ≡ read_byte c 3 b
  unfolding read_byte write_byte set_ext is_there update?
  xram_beside = elim (Option-cases c.ext_data) [
    | inl e ↦ rw e (ground arith)
    | inr (m, e) ↦ rw e (ground arith)
  ]

module _ {E : Type 0} (c : Cpu E) (a b v : ℕ) where
  pub byte_there :
      (space : ℕ) → space < 4 → has_byte (write_byte c space a v) space b ≡ has_byte c space b
  byte_there zero lt = code_there c a b v
  byte_there (suc zero) lt = iram_there c a b v
  byte_there (suc (suc zero)) lt = sfr_there c a b v
  byte_there (suc (suc (suc zero))) lt = xram_there c a b v
  byte_there (suc (suc (suc (suc n)))) lt = absurd (omega arith)

  pub byte_beside :
      (space : ℕ)
      → space < 4
      → a ≢ b
      → read_byte (write_byte c space a v) space b ≡ read_byte c space b
  byte_beside zero lt = code_beside c a b v
  byte_beside (suc zero) lt = iram_beside c a b v
  byte_beside (suc (suc zero)) lt = sfr_beside c a b v
  byte_beside (suc (suc (suc zero))) lt = xram_beside c a b v
  byte_beside (suc (suc (suc (suc n)))) lt = absurd (omega arith)

module _ {E : Type 0} (c : Cpu E) (a v : ℕ) (byte : v < 0x100) where
  pub byte_back :
      (space : ℕ)
      → space < 4
      → has_byte c space a ≡ true
      → read_byte (write_byte c space a v) space a ≡ some v
  byte_back zero lt = code_back c a v byte
  byte_back (suc zero) lt = iram_back c a v byte
  byte_back (suc (suc zero)) lt = sfr_back c a v byte
  byte_back (suc (suc (suc zero))) lt = xram_back c a v byte
  byte_back (suc (suc (suc (suc n)))) lt = absurd (omega arith)
