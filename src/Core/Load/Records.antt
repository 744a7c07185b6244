-- ===== src/Core/Load/Records.antt =====
-- core.c, `load_obj`: the records of a file.
use emu8051_stc.Prelude.{
  length, ℕ, suc, ◌+◌, ◌-◌, ◌*◌, ◌/◌, ◌%◌, ◌<◌, ◌≤◌, ◌≡◌, ◌∙◌, refl, ap, arith, bit_and, bit_or,
  ◌==◌, ltb, Option, some, List, [], ◌∷◌, if_true, if_false, ==_iff, ◌≢◌,
}
use emu8051_stc.Prelude.Bits.{bit_or_word, bit_and_low}
use emu8051_stc.Cpu.{Cpu}
use emu8051_stc.Core.Load.{
  Stream, reading, loaded, checksum_failure, stop, again, int, times, end_record, skip_line,
  skip_chars, readbyte, store_data, data_record, load_record,
}
use emu8051_stc.Core.Load.Image.{
  AllBytes, total, written, hex_bytes, ReadsHex, readbyte-hex_bytes, hex_bytes_end,
  store_data-hex_bytes, int_small,
}

module _ {E : Type 0} (strtol : ℕ → ℕ → ℕ) (s s1 s2 s3 s4 : Stream) (l h w t : ℕ) (c : Cpu E)
    (e1 : readbyte strtol s ≡ (l, s1)) (e2 : readbyte strtol s1 ≡ (h, s2))
    (e3 : readbyte strtol s2 ≡ (w, s3)) where
  load_record_data :
      readbyte strtol s3 ≡ (0, s4)
      → load_record strtol s c ≡ data_record strtol l (bit_or (int (h * 0x100)) w) s4 c
  unfolding load_record
  load_record_data e4 = rw e1 (rw e2 (rw e3 (rw e4 refl)))

  pub load_record_last : readbyte strtol s3 ≡ (1, s4) → load_record strtol s c ≡ stop loaded c
  unfolding load_record
  load_record_last e4 = rw e1 (rw e2 (rw e3 (rw e4 refl)))

data_record_parts :
    {E : Type 0} (strtol : ℕ → ℕ → ℕ) (l a k v : ℕ) (s s1 s2 : Stream) (c : Cpu E)
    (stored : Option (Cpu E))
    → store_data strtol (times l) a (int (l + bit_and a 0xff + a / 0x100)) s (some c)
      ≡ (k, (s1, stored))
    → readbyte strtol s1 ≡ (v, s2)
    → data_record strtol l a s c ≡ end_record (v == bit_and (256 - bit_and k 0xff) 0xff) s2 c stored
unfolding data_record
data_record_parts strtol l a k v s s1 s2 c stored e1 e2 = rw e1 (rw e2 refl)

pub times_small : (n : ℕ) → n < 0x100 → times n ≡ n
unfolding times
times_small n lt = if_true (ltb n 0x80000000) n 0 (ground arith)

joined : (a : ℕ) → a < 0x10000 → bit_or (int (a / 0x100 * 0x100)) (a % 0x100) ≡ a
joined a lt =
    rw (int_small (a / 0x100 * 0x100) (omega arith))
      (bit_or_word (a / 0x100) (a % 0x100) (omega arith) (omega arith) ∙ omega arith)

-- The byte that makes the sum of a record's bytes a multiple of 256.
unfoldable pub check_byte : ℕ → ℕ
check_byte sum = (0x100 - sum % 0x100) % 0x100

check_low : (sum : ℕ) → sum < 0x10200 → bit_and (256 - bit_and (int sum) 0xff) 0xff ≡ check_byte sum
unfolding check_byte
check_low sum lt =
    rw (int_small sum (omega arith))
      (rw (bit_and_low sum lt) (bit_and_low (256 - sum % 256) (omega arith)))

total_bound : (bs : List ℕ) → AllBytes bs → total bs ≤ 255 * length bs
unfolding AllBytes total
total_bound [] all = omega arith
total_bound (b ∷ bs) all = let rest = total_bound bs (all.1) in let first = all.0 in omega arith

end_record_good :
    {E : Type 0} (x y : ℕ) (rest : List ℕ) (c c1 : Cpu E)
    → x ≡ y
    → end_record (x == y) (reading (0x0a ∷ 0x3a ∷ rest)) c (some c1) ≡ again (reading rest) c1
unfolding end_record skip_line skip_chars
end_record_good x y rest c c1 e = if_true (x == y) _ _ ((==_iff x y).1 e)

module _ (digits : ℕ → ℕ × ℕ) where
  -- The sum of the bytes of a record before the last.
  unfoldable pub record_sum : ℕ → List ℕ → ℕ
  record_sum address bs = length bs + address % 0x100 + address / 0x100 + total bs

  -- A record behind its colon, with the line's end and the colon of the next.
  unfoldable pub record_bytes : ℕ → List ℕ → ℕ → List ℕ → List ℕ
  record_bytes address bs last rest =
      hex_bytes digits (length bs ∷ address / 0x100 ∷ address % 0x100 ∷ 0 ∷ [])
        (hex_bytes digits bs (hex_bytes digits (last ∷ []) (0x0a ∷ 0x3a ∷ rest)))

  unfoldable pub record_text : ℕ → List ℕ → List ℕ → List ℕ
  record_text address bs rest = record_bytes address bs (check_byte (record_sum address bs)) rest

module _ {E : Type 0} (strtol : ℕ → ℕ → ℕ) (digits : ℕ → ℕ × ℕ) (reads : ReadsHex strtol digits)
    (c : Cpu E) (max : c.code_mem_max_idx < 0x10000) (address : ℕ) (bs rest : List ℕ)
    (all : AllBytes bs) (short : length bs < 0x100) (below : address < 0x10000)
    (fits : address + length bs ≤ suc c.code_mem_max_idx) where
  -- A record of which the last byte is `last`.
  record_end :
      (last : ℕ)
      → last < 0x100
      → data_record strtol
          (length bs)
          address
          (reading (hex_bytes digits bs (hex_bytes digits (last ∷ []) (0x0a ∷ 0x3a ∷ rest))))
          c
        ≡ end_record
            (last == check_byte (record_sum digits address bs))
            (reading (0x0a ∷ 0x3a ∷ rest))
            c
            (some (record c { code_mem = written c.code_mem address bs }))
  unfolding check_byte record_sum
  record_end last byte =
      let bounded = total_bound bs all in
      data_record_parts strtol (length bs) address
        (int (length bs + bit_and address 0xff + address / 0x100 + total bs)) _ _ _ _ c
        (some (record c { code_mem = written c.code_mem address bs }))
        (rw (times_small (length bs) short) (
          store_data-hex_bytes strtol digits reads c bs _ address
            (length bs + bit_and address 0xff + address / 0x100) all max fits))
        (readbyte-hex_bytes strtol digits reads last [] _ byte
          ∙ ap (λ xs. (last, reading xs)) (hex_bytes_end strtol digits reads _))
      ∙ ap
          (λ n.
            end_record (last == n) (reading (0x0a ∷ 0x3a ∷ rest)) c
              (some (record c { code_mem = written c.code_mem address bs })))
          (rw (bit_and_low address (omega arith))
            (check_low (length bs + address % 0x100 + address / 0x100 + total bs) (omega arith)))

  data_text : ℕ → List ℕ
  data_text last = hex_bytes digits bs (hex_bytes digits (last ∷ []) (0x0a ∷ 0x3a ∷ rest))

  load_record_end :
      (last : ℕ)
      → last < 0x100
      → load_record strtol (reading (record_bytes digits address bs last rest)) c
        ≡ end_record
            (last == check_byte (record_sum digits address bs))
            (reading (0x0a ∷ 0x3a ∷ rest))
            c
            (some (record c { code_mem = written c.code_mem address bs }))
  unfolding record_bytes data_text
  load_record_end last byte =
      load_record_data strtol _ _ _ _ _ (length bs) (address / 0x100) (address % 0x100) 0 c
        (readbyte-hex_bytes strtol digits reads _ _ _ short)
        (readbyte-hex_bytes strtol digits reads _ _ _ (omega arith))
        (readbyte-hex_bytes strtol digits reads _ _ _ (omega arith))
        (readbyte-hex_bytes strtol digits reads _ _ _ (omega arith)
          ∙ ap (λ xs. (0, reading xs)) (hex_bytes_end strtol digits reads _))
      ∙ ap (λ a. data_record strtol (length bs) a (reading (data_text last)) c)
          (joined address below)
      ∙ record_end last byte

  pub load_record_lem :
      load_record strtol (reading (record_text digits address bs rest)) c
      ≡ again (reading rest) (record c { code_mem = written c.code_mem address bs })
  unfolding record_text check_byte
  load_record_lem =
      load_record_end (check_byte (record_sum digits address bs)) (omega arith)
      ∙ end_record_good _ _ rest c _ refl

  pub load_record_refused :
      (last : ℕ)
      → last < 0x100
      → last ≢ check_byte (record_sum digits address bs)
      → load_record strtol (reading (record_bytes digits address bs last rest)) c
        ≡ stop checksum_failure (record c { code_mem = written c.code_mem address bs })
  unfolding end_record
  load_record_refused last byte wrong =
      load_record_end last byte
      ∙ if_false (last == check_byte (record_sum digits address bs)) _ _ (ground arith)
