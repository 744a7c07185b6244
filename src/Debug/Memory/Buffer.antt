-- ===== src/Debug/Memory/Buffer.antt =====
-- debug.c, `dbg_read_mem` and `dbg_write_mem` on a buffer.
use emu8051_stc.Prelude.{
  length, ℕ, suc, ◌+◌, ◌<◌, ◌≤◌, ◌≡◌, ◌≢◌, ◌∙◌, refl, sym, ap, arith, true, List, [], ◌∷◌, u16,
}
use emu8051_stc.Cpu.{Cpu}
use emu8051_stc.Core.Load.Image.{AllBytes}
use emu8051_stc.Debug.Memory.{taken, read_byte, write_byte, dbg_read_mem, dbg_write_mem}
use emu8051_stc.Debug.Memory.Laws.{has_byte, byte_there, byte_beside, byte_back}

-- There is a byte at each of `n` addresses from `addr` on, of 16 bits.
unfoldable pub Covers : {E : Type 0} → Cpu E → ℕ → ℕ → ℕ → Type 0
Covers c space addr n = (i : ℕ) → i < n → has_byte c space (u16 (addr + i)) ≡ true

shift : (addr i : ℕ) → u16 (addr + 1 + i) ≡ u16 (addr + suc i)
shift addr i = omega arith

start : (addr : ℕ) → u16 (addr + 0) ≡ u16 addr
start addr = omega arith

apart : (addr i : ℕ) → i < 0xffff → u16 (addr + 1 + i) ≢ u16 addr
apart addr i lt = omega arith

module _ {E : Type 0} (space : ℕ) (bytes : space < 4) where
  write_beside :
      (values : List ℕ) (addr b : ℕ) (c : Cpu E)
      → ((i : ℕ) → i < length values → u16 (addr + i) ≢ b)
      → read_byte (dbg_write_mem c space addr values) space b ≡ read_byte c space b
  unfolding dbg_write_mem
  write_beside [] addr b c other = refl
  write_beside (v ∷ values) addr b c other =
      write_beside values (addr + 1) b (write_byte c space (u16 addr) v)
        (λ i lt e. other (suc i) (omega arith) (sym (shift addr i) ∙ e))
      ∙ byte_beside c (u16 addr) b v space bytes (λ e. other 0 (omega arith) (start addr ∙ e))

  next-Covers :
      (c : Cpu E) (addr v n : ℕ)
      → Covers c space addr (suc n)
      → Covers (write_byte c space (u16 addr) v) space (addr + 1) n
  unfolding Covers
  next-Covers c addr v n covers i lt =
      byte_there c (u16 addr) (u16 (addr + 1 + i)) v space bytes
      ∙ ap (has_byte c space) (shift addr i)
      ∙ covers (suc i) (omega arith)

  first_there :
      (c : Cpu E) (addr n : ℕ) → Covers c space addr (suc n) → has_byte c space (u16 addr) ≡ true
  unfolding Covers
  first_there c addr n covers = ap (has_byte c space) (sym (start addr)) ∙ covers 0 (omega arith)

  -- A buffer of bytes, at most 64K, that is written to the code, the internal memory, the registers
  -- or the external memory, where there is a byte at every address, is read back by a read of as
  -- many bytes, whatever the buffer of the read held.
  pub dbg_read_mem-dbg_write_mem :
      (values old : List ℕ) (addr : ℕ) (c : Cpu E)
      → length old ≡ length values
      → length values ≤ 0x10000
      → AllBytes values
      → Covers c space addr (length values)
      → dbg_read_mem (dbg_write_mem c space addr values) space addr old ≡ values
  unfolding dbg_read_mem dbg_write_mem AllBytes taken
  dbg_read_mem-dbg_write_mem [] [] addr c same short all covers = refl
  dbg_read_mem-dbg_write_mem [] (o ∷ old) addr c same short all covers = absurd (omega arith)
  dbg_read_mem-dbg_write_mem (v ∷ values) [] addr c same short all covers = absurd (omega arith)
  dbg_read_mem-dbg_write_mem (v ∷ values) (o ∷ old) addr c same short all covers =
      let c1 = write_byte c space (u16 addr) v in
      let first =
        write_beside values (addr + 1) (u16 addr) c1 (λ i lt. apart addr i (omega arith))
        ∙ byte_back c (u16 addr) v (all.0) space bytes
            (first_there c addr (length values) covers) in
      let rest =
        dbg_read_mem-dbg_write_mem values old (addr + 1) c1 (omega arith) (omega arith) (all.1)
          (next-Covers c addr v (length values) covers) in
      cc (ap (λ r. taken r o) first, rest)
