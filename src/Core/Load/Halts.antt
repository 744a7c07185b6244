-- ===== src/Core/Load/Halts.antt =====
-- core.c, `load_obj`: its loop ends.
use emu8051_stc.Prelude.{
  length, ℕ, zero, suc, ◌+◌, ◌/◌, ◌<◌, ◌≤◌, ◌≡◌, ◌≢◌, refl, sym, ap, ◌∙◌, arith, bit_and, ◌-◌, ◌==◌,
  ◌||◌, Bool, true, false, Option, none, some, List, [], ◌∷◌, if_keeps,
}
use mathlib.Core.Bool.{false≢true}
use emu8051_stc.Cpu.{Cpu}
use emu8051_stc.Core.Load.{
  Stream, reading, ended, LoadResult, running, loaded, outside, checksum_failure, unsupported_type,
  Outcome, stop, end_record, go_on, again, int, times, fgetc, skip_chars, skip_line, put_code,
  readbyte, skip_bytes, store_data, data_record, load_record, load_records, load_obj, not_opened,
  unsupported_format, no_end_record,
}

-- How often a character can be read or the end be met.
unfoldable pub remaining : Stream → ℕ
remaining ended = 0
remaining (reading xs) = suc (length xs)

fgetc-remaining : (s : Stream) → remaining ((fgetc s).1) ≤ remaining s
unfolding fgetc remaining
fgetc-remaining ended = omega arith
fgetc-remaining (reading []) = omega arith
fgetc-remaining (reading (x ∷ xs)) = omega arith

fgetc_reads : (xs : List ℕ) → remaining ((fgetc (reading xs)).1) < remaining (reading xs)
unfolding fgetc remaining
fgetc_reads [] = omega arith
fgetc_reads (x ∷ xs) = omega arith

skip_chars-remaining : (xs : List ℕ) → remaining (skip_chars xs) < remaining (reading xs)
unfolding skip_chars remaining
skip_chars-remaining [] = omega arith
skip_chars-remaining (x ∷ xs) =
    let rest = skip_chars-remaining xs in
    if_keeps (λ s. remaining s < suc (suc (length xs))) (x == 0x3a) (reading xs) (skip_chars xs)
      (λ e. omega arith) (λ e. omega arith)

skip_line-remaining : (s : Stream) → remaining (skip_line s) ≤ remaining s
unfolding skip_line
skip_line-remaining ended = omega arith
skip_line-remaining (reading xs) = let shorter = skip_chars-remaining xs in omega arith

-- An outcome that returns, or goes on with less than `m` to read.
unfoldable pub IsNext : {E : Type 0} → ℕ → Outcome E → Type 0
IsNext m (stop r c) = r ≢ running
IsNext m (again s c) = remaining s < m

is_running : LoadResult → Bool
is_running running = true
is_running r = false

differ : (r : LoadResult) → is_running r ≡ false → r ≢ running
unfolding is_running
differ r e same = false≢true (sym e ∙ ap is_running same)

end_record-IsNext :
    {E : Type 0} (valid : Bool) (s : Stream) (c : Cpu E) (m : ℕ) (stored : Option (Cpu E))
    → remaining s < m
    → IsNext m (end_record valid s c stored)
unfolding end_record IsNext is_running
end_record-IsNext valid s c m none lt = differ outside refl
end_record-IsNext valid s c m (some c1) lt =
    let line = skip_line-remaining s in
    if_keeps (IsNext m) valid (again (skip_line s) c1) (stop checksum_failure c1) (λ e. omega arith)
      (λ e. differ checksum_failure refl)

go_on_halts :
    {E : Type 0} (loop : Stream → Cpu E → LoadResult × Cpu E) (m : ℕ) (o : Outcome E)
    → IsNext m o
    → ((s : Stream) (c : Cpu E) → remaining s < m → (loop s c).0 ≢ running)
    → (go_on loop o).0 ≢ running
unfolding go_on IsNext
go_on_halts loop m (stop r c) next halts = next
go_on_halts loop m (again s c) next halts = halts s c next

module _ (strtol : ℕ → ℕ → ℕ) where
  readbyte-remaining : (s : Stream) → remaining ((readbyte strtol s).1) ≤ remaining s
  unfolding readbyte
  readbyte-remaining s =
      let first = fgetc-remaining s in let second = fgetc-remaining ((fgetc s).1) in omega arith

  readbyte_reads :
      (xs : List ℕ) → remaining ((readbyte strtol (reading xs)).1) < remaining (reading xs)
  unfolding readbyte
  readbyte_reads xs =
      let first = fgetc_reads xs in
      let second = fgetc-remaining ((fgetc (reading xs)).1) in omega arith

  skip_bytes-remaining : (n : ℕ) (s : Stream) → remaining (skip_bytes strtol n s) ≤ remaining s
  unfolding skip_bytes
  skip_bytes-remaining zero s = omega arith
  skip_bytes-remaining (suc n) s =
      let first = readbyte-remaining s in
      let rest = skip_bytes-remaining n ((readbyte strtol s).1) in omega arith

module _ {E : Type 0} (strtol : ℕ → ℕ → ℕ) where
  store_data-remaining :
      (n i checksum : ℕ) (s : Stream) (stored : Option (Cpu E))
      → remaining ((store_data strtol n i checksum s stored).1.0) ≤ remaining s
  unfolding store_data
  store_data-remaining zero i checksum s stored = omega arith
  store_data-remaining (suc n) i checksum s stored =
      let first = readbyte-remaining strtol s in
      let read = readbyte strtol s in
      let rest =
        store_data-remaining n (int (i + 1)) (int (checksum + read.0)) (read.1)
          (put_code stored i (read.0)) in
      omega arith

  data_record-IsNext :
      (record_length address : ℕ) (s : Stream) (c : Cpu E) (m : ℕ)
      → remaining s < m
      → IsNext m (data_record strtol record_length address s c)
  unfolding data_record
  data_record-IsNext record_length address s c m lt =
      let sum = int (record_length + bit_and address 0xff + address / 0x100) in
      let data_read = store_data strtol (times record_length) address sum s (some c) in
      let stored = store_data-remaining (times record_length) address sum s (some c) in
      let last = readbyte strtol (data_read.1.0) in
      let read = readbyte-remaining strtol (data_read.1.0) in
      end_record-IsNext (last.0 == bit_and (256 - bit_and (data_read.0) 0xff) 0xff) (last.1) c m
        (data_read.1.1) (omega arith)

  pub load_record-IsNext :
      (xs : List ℕ) (c : Cpu E)
      → IsNext (remaining (reading xs)) (load_record strtol (reading xs) c)
  unfolding load_record IsNext is_running
  load_record-IsNext xs c =
      let lt1 = readbyte_reads strtol xs in
      let r1 = readbyte strtol (reading xs) in
      let le2 = readbyte-remaining strtol (r1.1) in
      let r2 = readbyte strtol (r1.1) in
      let le3 = readbyte-remaining strtol (r2.1) in
      let r3 = readbyte strtol (r2.1) in
      let le4 = readbyte-remaining strtol (r3.1) in
      let r4 = readbyte strtol (r3.1) in
      let skip = skip_bytes-remaining strtol (times (r1.0)) (r4.1) in
      let skipped = skip_bytes strtol (times (r1.0)) (r4.1) in
      let le5 = readbyte-remaining strtol skipped in
      let m = remaining (reading xs) in
      if_keeps (IsNext m) (r4.0 == 1) _ _ (λ e. differ loaded refl)
        (λ e.
          if_keeps (IsNext m) (r4.0 == 2 || r4.0 == 4) _ _ (λ e. omega arith)
            (λ e.
              if_keeps (IsNext m) (r4.0 == 0) _ _
                (λ e. data_record-IsNext (r1.0) _ (r4.1) c m (omega arith))
                (λ e. differ unsupported_type refl)))

  load_records_halt :
      (n : ℕ) (s : Stream) (c : Cpu E) → remaining s < n → (load_records strtol n s c).0 ≢ running
  unfolding load_records remaining is_running
  load_records_halt zero s c lt = omega arith
  load_records_halt (suc n) ended c lt = differ no_end_record refl
  load_records_halt (suc n) (reading xs) c lt =
      go_on_halts (load_records strtol n) (remaining (reading xs))
        (load_record strtol (reading xs) c) (load_record-IsNext xs c)
        (λ s1 c1 less. load_records_halt n s1 c1 (omega arith))

  -- The loop ends: `load_obj` returns on every file, whatever `strtol` gives.
  pub load_obj-returns : (file : Option (List ℕ)) (c : Cpu E) → (load_obj strtol file c).0 ≢ running
  unfolding load_obj is_running remaining
  load_obj-returns none c = differ not_opened refl
  load_obj-returns (some []) c = differ unsupported_format refl
  load_obj-returns (some (x ∷ xs)) c =
      if_keeps (λ (r : LoadResult × Cpu E). r.0 ≢ running) (x == 0x3a)
        (load_records strtol (length xs + 2) (reading xs) c) (unsupported_format, c)
        (λ e. load_records_halt (length xs + 2) (reading xs) c (omega arith))
        (λ e. differ unsupported_format refl)
