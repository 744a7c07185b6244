-- ===== src/Core/Load/File.antt =====
-- core.c, `load_obj`: a whole file.
use emu8051_stc.Prelude.{
  length, ℕ, zero, suc, ◌+◌, ◌<◌, ◌≤◌, ◌≡◌, ◌∙◌, ◌≢◌, refl, ap, arith, some, List, [], ◌∷◌,
}
use emu8051_stc.Cpu.{Cpu}
use emu8051_stc.Core.Load.{
  reading, loaded, checksum_failure, load_record, load_records, load_obj, go_on, again, stop,
  LoadResult,
}
use emu8051_stc.Core.Load.Halts.{remaining, IsNext, load_record-IsNext}
use emu8051_stc.Core.Load.Image.{AllBytes, written, hex_bytes, ReadsHex, readbyte-hex_bytes}
use emu8051_stc.Core.Load.Records.{
  check_byte, record_sum, record_bytes, record_text, load_record_lem, load_record_last,
  load_record_refused,
}

-- A record is an address and the bytes from there on: at most 255, inside of the code memory.
unfoldable pub Fit : ℕ → List (ℕ × List ℕ) → Type 0
Fit max_idx [] = Unit {0}
Fit max_idx (r ∷ rs) =
    AllBytes (r.1)
    × (length (r.1) < 0x100)
    × (r.0 < 0x10000)
    × (r.0 + length (r.1) ≤ suc max_idx)
    × Fit max_idx rs

-- The memory after the records in their order.
unfoldable pub image : (ℕ → ℕ) → List (ℕ × List ℕ) → ℕ → ℕ
image m [] = m
image m (r ∷ rs) = image (written m (r.0) (r.1)) rs

-- The records, each behind its colon, and what follows.
unfoldable pub records_text : (ℕ → ℕ × ℕ) → List (ℕ × List ℕ) → List ℕ → List ℕ
records_text digits [] rest = rest
records_text digits (r ∷ rs) rest = record_text digits (r.0) (r.1) (records_text digits rs rest)

-- The record of the end of a file.
unfoldable pub end_text : (ℕ → ℕ × ℕ) → List ℕ
end_text digits = hex_bytes digits (0 ∷ 0 ∷ 0 ∷ 1 ∷ 0xff ∷ []) (0x0a ∷ [])

records_end : (digits : ℕ → ℕ × ℕ) (rest : List ℕ) → records_text digits [] rest ≡ rest
unfolding records_text
records_end digits rest = refl

less_trans : {k m n : ℕ} → k < m → m < suc n → k < n
less_trans lt le = omega arith

module _ {E : Type 0} (strtol : ℕ → ℕ → ℕ) (digits : ℕ → ℕ × ℕ)
    (reads : ReadsHex strtol digits) where
  last_record : (c : Cpu E) → load_record strtol (reading (end_text digits)) c ≡ stop loaded c
  unfolding end_text
  last_record c =
      load_record_last strtol _ _ _ _ _ 0 0 0 0 c
        (readbyte-hex_bytes strtol digits reads _ _ _ (omega arith))
        (readbyte-hex_bytes strtol digits reads _ _ _ (omega arith))
        (readbyte-hex_bytes strtol digits reads _ _ _ (omega arith))
        (readbyte-hex_bytes strtol digits reads _ _ _ (omega arith))

  module _ (r : ℕ × List ℕ) (rs : List (ℕ × List ℕ)) (rest : List ℕ) (c : Cpu E)
      (max : c.code_mem_max_idx < 0x10000) (fit : Fit c.code_mem_max_idx (r ∷ rs)) where
    first_record :
        load_record strtol (reading (records_text digits (r ∷ rs) rest)) c
        ≡ again
            (reading (records_text digits rs rest))
            (record c { code_mem = written c.code_mem (r.0) (r.1) })
    unfolding records_text Fit
    first_record =
        load_record_lem strtol digits reads c max (r.0) (r.1) (records_text digits rs rest) (fit.0)
          (fit.1) (fit.2) (fit.3)

    first_shorter :
        remaining (reading (records_text digits rs rest))
        < remaining (reading (records_text digits (r ∷ rs) rest))
    unfolding IsNext
    first_shorter =
        let next = load_record-IsNext strtol (records_text digits (r ∷ rs) rest) c in
        rw first_record at next

  -- What a load of the rest with enough fuel gives, a load of the records before it gives too.
  load_records-records_text :
      (n : ℕ) (rs : List (ℕ × List ℕ)) (rest : List ℕ) (c : Cpu E) (v : LoadResult × Cpu E)
      → c.code_mem_max_idx < 0x10000
      → Fit c.code_mem_max_idx rs
      → ((m : ℕ)
          → load_records strtol (suc m) (reading rest) (record c { code_mem = image c.code_mem rs })
            ≡ v)
      → remaining (reading (records_text digits rs rest)) < n
      → load_records strtol n (reading (records_text digits rs rest)) c ≡ v
  unfolding load_records go_on image Fit
  load_records-records_text zero rs rest c v max fit after lt = absurd (omega arith)
  load_records-records_text (suc n) [] rest c v max fit after lt =
      rw (records_end digits rest) (after n)
  load_records-records_text (suc n) (r ∷ rs) rest c v max fit after lt =
      ap (go_on (load_records strtol n)) (first_record r rs rest c max fit)
      ∙ load_records-records_text n rs rest (record c { code_mem = written c.code_mem (r.0) (r.1) })
          v max (fit.4) after (less_trans (first_shorter r rs rest c max fit) lt)

  module _ (rs : List (ℕ × List ℕ)) (c : Cpu E) (max : c.code_mem_max_idx < 0x10000)
      (fit : Fit c.code_mem_max_idx rs) where
    -- The digits of a byte are read back by `strtol`. A file of records of at most 255 bytes,
    -- inside of a code memory of at most 64K, and of the record of the end is loaded: the code
    -- memory holds the bytes of the records, written in their order, and nothing else changes.
    pub load_obj-records_text :
        load_obj strtol (some (0x3a ∷ records_text digits rs (end_text digits))) c
        ≡ (loaded, record c { code_mem = image c.code_mem rs })
    unfolding load_obj remaining load_records go_on
    load_obj-records_text =
        load_records-records_text (length (records_text digits rs (end_text digits)) + 2) rs
          (end_text digits) c _ max fit
          (λ m.
            ap (go_on (load_records strtol m))
              (last_record (record c { code_mem = image c.code_mem rs })))
          (omega arith)

    -- Behind such records, a record of which the last byte is not the check byte of its other
    -- bytes ends the load with the failure of the checksum, whatever follows. The code memory then
    -- holds the records before it and the bytes of the refused one too.
    pub load_obj-refused :
        (address : ℕ) (bs rest : List ℕ) (last : ℕ)
        → Fit c.code_mem_max_idx ((address, bs) ∷ [])
        → last < 0x100
        → last ≢ check_byte (record_sum digits address bs)
        → load_obj strtol
            (some (0x3a ∷ records_text digits rs (record_bytes digits address bs last rest)))
            c
          ≡ (checksum_failure, record c { code_mem = written (image c.code_mem rs) address bs })
    unfolding load_obj remaining load_records go_on Fit
    load_obj-refused address bs rest last one byte wrong =
        load_records-records_text
          (length (records_text digits rs (record_bytes digits address bs last rest)) + 2) rs
          (record_bytes digits address bs last rest) c _ max fit
          (λ m. ap (go_on (load_records strtol m)) (
            load_record_refused strtol digits reads (record c { code_mem = image c.code_mem rs })
              max address bs rest (one.0) (one.1) (one.2) (one.3) last byte wrong))
          (omega arith)
