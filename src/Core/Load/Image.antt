-- ===== src/Core/Load/Image.antt =====
-- core.c, `load_obj`: what a file that an assembler writes puts into the code memory.
use emu8051_stc.Prelude.{
  length, ℕ, suc, ◌+◌, ◌<◌, ◌≤◌, ◌≡◌, ◌∙◌, refl, ap, arith, leb, Option, some, List, [], ◌∷◌,
  if_true, u8, update,
}
use emu8051_stc.Cpu.{Cpu}
use emu8051_stc.Core.Load.{Stream, reading, int, put_code, readbyte, store_data, fgetc, as_char}

-- Every element is a byte.
unfoldable pub AllBytes : List ℕ → Type 0
AllBytes [] = Unit {0}
AllBytes (b ∷ bs) = (b < 0x100) × AllBytes bs

-- The sum of the elements.
unfoldable pub total : List ℕ → ℕ
total [] = 0
total (b ∷ bs) = b + total bs

-- The memory with the bytes from the index `i` on.
unfoldable pub written : (ℕ → ℕ) → ℕ → List ℕ → ℕ → ℕ
written m i [] = m
written m i (b ∷ bs) = written (update m i b) (i + 1) bs

-- A byte as its two characters: `digits` gives them.
unfoldable pub hex_bytes : (ℕ → ℕ × ℕ) → List ℕ → List ℕ → List ℕ
hex_bytes digits [] rest = rest
hex_bytes digits (b ∷ bs) rest = (digits b).0 ∷ (digits b).1 ∷ hex_bytes digits bs rest

-- What `strtol` is relied on for: it reads the two digits of a byte.
unfoldable pub ReadsHex : (ℕ → ℕ → ℕ) → (ℕ → ℕ × ℕ) → Type 0
ReadsHex strtol digits = (b : ℕ) → b < 0x100 → strtol ((digits b).0) ((digits b).1) ≡ b

u8_small : (b : ℕ) → b < 0x100 → u8 b ≡ b
u8_small b lt = omega arith

put_code_byte :
    {E : Type 0} (c : Cpu E) (i b : ℕ)
    → b < 0x100
    → i ≤ c.code_mem_max_idx
    → put_code (some c) i b ≡ some (record c { code_mem = update c.code_mem i b })
unfolding put_code
put_code_byte c i b lt le =
    rw (u8_small b lt) (if_true (leb i c.code_mem_max_idx) _ _ (ground arith))

pub int_small : (n : ℕ) → n < 0x100000000 → int n ≡ n
int_small n lt = omega arith

int_sum : (m n : ℕ) → int (int m + n) ≡ int (m + n)
int_sum m n = omega arith

sum_assoc : (k m n : ℕ) → k + m + n ≡ k + (m + n)
sum_assoc k m n = omega arith

store_data_next :
    {E : Type 0} (strtol : ℕ → ℕ → ℕ) (n i checksum : ℕ) (stored : Option (Cpu E)) (s s1 : Stream)
    (value : ℕ)
    → readbyte strtol s ≡ (value, s1)
    → store_data strtol (suc n) i checksum s stored
      ≡ store_data strtol n (int (i + 1)) (int (checksum + value)) s1 (put_code stored i value)
unfolding store_data
store_data_next strtol n i checksum stored s s1 value e =
    ap
      (λ (r : ℕ × Stream).
        store_data strtol n (int (i + 1)) (int (checksum + r.0)) (r.1) (put_code stored i (r.0)))
      e

module _ (strtol : ℕ → ℕ → ℕ) (digits : ℕ → ℕ × ℕ) (reads : ReadsHex strtol digits) where
  pub readbyte-hex_bytes :
      (b : ℕ) (bs rest : List ℕ)
      → b < 0x100
      → readbyte strtol (reading (hex_bytes digits (b ∷ bs) rest))
        ≡ (b, reading (hex_bytes digits bs rest))
  unfolding readbyte hex_bytes fgetc as_char ReadsHex
  readbyte-hex_bytes b bs rest lt =
      rw (reads b lt)
        (ap (λ n. (n, reading (hex_bytes digits bs rest))) (int_small b (omega arith)))

  pub hex_bytes_end : (rest : List ℕ) → hex_bytes digits [] rest ≡ rest
  unfolding hex_bytes
  hex_bytes_end rest = refl

  pub store_data-hex_bytes :
      {E : Type 0} (c : Cpu E) (bs rest : List ℕ) (i sum : ℕ)
      → AllBytes bs
      → c.code_mem_max_idx < 0x10000
      → i + length bs ≤ suc c.code_mem_max_idx
      → store_data strtol (length bs) i (int sum) (reading (hex_bytes digits bs rest)) (some c) ≡ (
        int (sum + total bs),
        (reading rest, some (record c { code_mem = written c.code_mem i bs })),
      )
  unfolding store_data total written AllBytes
  store_data-hex_bytes c [] rest i sum all max fits =
      rw (hex_bytes_end rest) (ap (λ n. (int n, (reading rest, some c))) (omega arith))
  store_data-hex_bytes c (b ∷ bs) rest i sum all max fits =
      store_data_next strtol (length bs) i (int sum) (some c) _ _ b
        (readbyte-hex_bytes b bs rest (all.0))
      ∙ rw (put_code_byte c i b (all.0) (omega arith)) (
          rw (int_small (i + 1) (omega arith)) (
            rw (int_sum sum b) (
              store_data-hex_bytes (record c { code_mem = update c.code_mem i b }) bs rest (i + 1)
                (sum + b) (all.1) max (omega arith)
              ∙ ap
                  (λ n. (
                    int n,
                    (reading rest, some (record c { code_mem = written c.code_mem i (b ∷ bs) })),
                  ))
                  (sum_assoc sum b (total bs)))))
