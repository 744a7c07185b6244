-- ===== src/Core/Load/Extended.antt =====
-- core.c, `load_obj`: the records of extended addresses.
use emu8051_stc.Prelude.{
  length, ℕ, ◌/◌, ◌%◌, ◌<◌, ◌≡◌, ◌∙◌, refl, ap, arith, ◌⊎◌, inl, inr, List, [], ◌∷◌,
}
use emu8051_stc.Cpu.{Cpu}
use emu8051_stc.Core.Load.{Stream, reading, again, times, readbyte, skip_bytes, load_record}
use emu8051_stc.Core.Load.Image.{AllBytes, hex_bytes, ReadsHex, readbyte-hex_bytes, hex_bytes_end}
use emu8051_stc.Core.Load.Records.{times_small}

load_record_skips :
    {E : Type 0} (strtol : ℕ → ℕ → ℕ) (s s1 s2 s3 s4 s5 : Stream) (l h w t v : ℕ) (c : Cpu E)
    → readbyte strtol s ≡ (l, s1)
    → readbyte strtol s1 ≡ (h, s2)
    → readbyte strtol s2 ≡ (w, s3)
    → readbyte strtol s3 ≡ (t, s4)
    → readbyte strtol (skip_bytes strtol (times l) s4) ≡ (v, s5)
    → (t ≡ 2) ⊎ (t ≡ 4)
    → load_record strtol s c ≡ again s5 c
unfolding load_record
load_record_skips strtol s s1 s2 s3 s4 s5 l h w t v c e1 e2 e3 e4 e5 (inl e) =
    rw e1 (rw e2 (rw e3 (rw e4 (rw e5 (rw e refl)))))
load_record_skips strtol s s1 s2 s3 s4 s5 l h w t v c e1 e2 e3 e4 e5 (inr e) =
    rw e1 (rw e2 (rw e3 (rw e4 (rw e5 (rw e refl)))))

kind_byte : (t : ℕ) → (t ≡ 2) ⊎ (t ≡ 4) → t < 0x100
kind_byte t (inl e) = omega arith
kind_byte t (inr e) = omega arith

-- A record of an extended address, of type 2 or 4.
unfoldable pub extended_text : (ℕ → ℕ × ℕ) → ℕ → ℕ → List ℕ → ℕ → List ℕ → List ℕ
extended_text digits address kind bs last rest =
    hex_bytes digits (length bs ∷ address / 0x100 ∷ address % 0x100 ∷ kind ∷ [])
      (hex_bytes digits bs (hex_bytes digits (last ∷ []) rest))

module _ (strtol : ℕ → ℕ → ℕ) (digits : ℕ → ℕ × ℕ) (reads : ReadsHex strtol digits) where
  skip_bytes-hex_bytes :
      (bs rest : List ℕ)
      → AllBytes bs
      → skip_bytes strtol (length bs) (reading (hex_bytes digits bs rest)) ≡ reading rest
  unfolding skip_bytes AllBytes
  skip_bytes-hex_bytes [] rest all = ap reading (hex_bytes_end strtol digits reads rest)
  skip_bytes-hex_bytes (b ∷ bs) rest all =
      ap (λ (r : ℕ × Stream). skip_bytes strtol (length bs) (r.1))
        (readbyte-hex_bytes strtol digits reads b bs rest (all.0))
      ∙ skip_bytes-hex_bytes bs rest (all.1)

  -- The digits of a byte are read back by `strtol`. After a record of type 2 or 4 of at most 255
  -- bytes the loop goes on directly behind the check byte, not behind the colon of the next line,
  -- and the machine is as before.
  pub load_record-extended_text :
      {E : Type 0} (address kind : ℕ) (bs : List ℕ) (last : ℕ) (rest : List ℕ) (c : Cpu E)
      → address < 0x10000
      → (kind ≡ 2) ⊎ (kind ≡ 4)
      → AllBytes bs
      → length bs < 0x100
      → last < 0x100
      → load_record strtol (reading (extended_text digits address kind bs last rest)) c
        ≡ again (reading rest) c
  unfolding extended_text
  load_record-extended_text address kind bs last rest c below two all short byte =
      load_record_skips strtol _ _ _ _ _ _ (length bs) (address / 0x100) (address % 0x100) kind last
        c (readbyte-hex_bytes strtol digits reads _ _ _ short)
        (readbyte-hex_bytes strtol digits reads _ _ _ (omega arith))
        (readbyte-hex_bytes strtol digits reads _ _ _ (omega arith))
        (readbyte-hex_bytes strtol digits reads _ _ _ (kind_byte kind two)
          ∙ ap (λ xs. (kind, reading xs)) (hex_bytes_end strtol digits reads _))
        (rw (times_small (length bs) short) (
          rw (skip_bytes-hex_bytes bs (hex_bytes digits (last ∷ []) rest) all) (
            readbyte-hex_bytes strtol digits reads last [] rest byte
            ∙ ap (λ xs. (last, reading xs)) (hex_bytes_end strtol digits reads rest))))
        two
