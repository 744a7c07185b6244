-- ===== src/Core/Load.antt =====
-- core.c, `readbyte` and `load_obj`: the loader of Intel HEX files.
pub mod Halts
pub mod Extended
pub mod File
pub mod Image
pub mod Records
use emu8051_stc.Prelude.{
  length, ℕ, zero, suc, ◌+◌, ◌-◌, ◌*◌, ◌/◌, ◌%◌, bit_and, bit_or, ◌==◌, ltb, leb, if◌then◌else◌,
  ◌||◌, Bool, Option, none, some, List, [], ◌∷◌, u8, update,
}
use emu8051_stc.Cpu.{Cpu}

-- A `FILE *`: what is left to read, or that a read has met the end, which is what `feof` tells.
pub data Stream : Type 0 where
  reading : List ℕ → Stream
  ended : Stream

-- What `load_obj` returns, 0 and -1 to -5 in their order. `outside` stands for a store outside of
-- the code memory, which C leaves undefined, and `running` for a loop that is out of fuel.
pub data LoadResult : Type 0 where
  loaded not_opened unsupported_format unsupported_type checksum_failure no_end_record : LoadResult
  outside running : LoadResult

-- How an iteration of the loop over the records ends: with a return or with the next iteration.
pub data Outcome (E : Type 0) : Type 0 where
  stop : LoadResult → Cpu E → Outcome E
  again : Stream → Cpu E → Outcome E

-- An `int` as a word of 32 bits, in two's complement.
abbrev pub int : ℕ → ℕ
int n = n % 0x100000000

-- The number of iterations of `for (i = 0; i < n; i++)`, none for a negative `n`.
unfoldable pub times : ℕ → ℕ
times n = if ltb n 0x80000000 then n else 0

unfoldable pub fgetc : Stream → Option ℕ × Stream
fgetc ended = (none, ended)
fgetc (reading []) = (none, ended)
fgetc (reading (x ∷ xs)) = (some x, reading xs)

-- A character in the buffer; EOF is -1.
as_char : Option ℕ → ℕ
as_char none = 0xff
as_char (some x) = x

-- `while (fgetc(f) != ':' && !feof(f)) {}`.
unfoldable pub skip_chars : List ℕ → Stream
skip_chars [] = ended
skip_chars (x ∷ xs) = let rest = skip_chars xs in if x == 0x3a then reading xs else rest

unfoldable pub skip_line : Stream → Stream
skip_line ended = ended
skip_line (reading xs) = skip_chars xs

-- `mCodeMem[i] = data`, `none` where the element is not there.
unfoldable pub put_code : {E : Type 0} → Option (Cpu E) → ℕ → ℕ → Option (Cpu E)
put_code none i data_byte = none
put_code (some c) i data_byte =
    if leb i c.code_mem_max_idx
    then some (record c { code_mem = update c.code_mem i (u8 data_byte) })
    else none

-- The end of a record of type 0 with its checksum compared: the stores that were made in `c`.
unfoldable pub end_record : {E : Type 0} → Bool → Stream → Cpu E → Option (Cpu E) → Outcome E
end_record valid s c none = stop outside c
end_record valid s c (some c1) = if valid then again (skip_line s) c1 else stop checksum_failure c1

-- The loop after an iteration.
unfoldable pub go_on :
    {E : Type 0} → (Stream → Cpu E → LoadResult × Cpu E) → Outcome E → LoadResult × Cpu E
go_on loop (stop r c) = (r, c)
go_on loop (again s c) = loop s c

-- `strtol` of two characters, in base 16, is the C library's.
module _ (strtol : ℕ → ℕ → ℕ) where
  unfoldable pub readbyte : Stream → ℕ × Stream
  unfolding as_char
  readbyte s =
      let (first, s1) = fgetc s in
      let (second, s2) = fgetc s1 in (int (strtol (as_char first) (as_char second)), s2)

  unfoldable pub skip_bytes : ℕ → Stream → Stream
  skip_bytes zero s = s
  skip_bytes (suc n) s = let (value, s1) = readbyte s in skip_bytes n s1

module _ {E : Type 0} (strtol : ℕ → ℕ → ℕ) where
  -- The loop over the data of a record, from the element `i` on, with the checksum so far.
  unfoldable pub store_data : ℕ → ℕ → ℕ → Stream → Option (Cpu E) → ℕ × (Stream × Option (Cpu E))
  store_data zero i checksum s stored = (checksum, (s, stored))
  store_data (suc n) i checksum s stored =
      let (value, s1) = readbyte strtol s in
      store_data n (int (i + 1)) (int (checksum + value)) s1 (put_code stored i value)

  -- A record of type 0.
  unfoldable pub data_record : ℕ → ℕ → Stream → Cpu E → Outcome E
  data_record record_length address s c =
      let sum = int (record_length + bit_and address 0xff + address / 0x100) in
      let (checksum, rest) = store_data (times record_length) address sum s (some c) in
      let (s1, stored) = rest in
      let (last, s2) = readbyte strtol s1 in
      end_record (last == bit_and (256 - bit_and checksum 0xff) 0xff) s2 c stored

  unfoldable pub load_record : Stream → Cpu E → Outcome E
  load_record s c =
      let (record_length, s1) = readbyte strtol s in
      let (high, s2) = readbyte strtol s1 in
      let (low, s3) = readbyte strtol s2 in
      let (record_type, s4) = readbyte strtol s3 in
      let (skipped, s5) = readbyte strtol (skip_bytes strtol (times record_length) s4) in
      if record_type == 1
      then stop loaded c
      else if record_type == 2 || record_type == 4
      then again s5 c
      else if record_type == 0
      then data_record record_length (bit_or (int (high * 0x100)) low) s4 c
      else stop unsupported_type c

  -- `while (!feof(f))`.
  unfoldable pub load_records : ℕ → Stream → Cpu E → LoadResult × Cpu E
  load_records zero s c = (running, c)
  load_records (suc n) ended c = (no_end_record, c)
  load_records (suc n) (reading xs) c = go_on (load_records n) (load_record (reading xs) c)

  -- The file is `none` for an empty name or where `fopen` fails.
  unfoldable pub load_obj : Option (List ℕ) → Cpu E → LoadResult × Cpu E
  load_obj none c = (not_opened, c)
  load_obj (some []) c = (unsupported_format, c)
  load_obj (some (x ∷ xs)) c =
      if x == 0x3a then load_records (length xs + 2) (reading xs) c else (unsupported_format, c)
