-- ===== src/Tests/Load.antt =====
-- Loads of Intel HEX files.
use emu8051_stc.Prelude.{
  length, ℕ, ◌+◌, ◌*◌, ◌/◌, ◌%◌, ◌<◌, ◌≡◌, ◌≢◌, refl, inr, arith, leb, ◌&&◌, if◌then◌else◌, some,
  List, [], ◌∷◌,
}
use emu8051_stc.Prelude.Bits.{byte_eq, passes_below}
use emu8051_stc.Cpu.{Cpu}
use emu8051_stc.Core.Load.{reading, loaded, checksum_failure, running, again, load_record, load_obj}
use emu8051_stc.Core.Load.Halts.{load_obj-returns}
use emu8051_stc.Core.Load.Image.{AllBytes, ReadsHex, written, total}
use emu8051_stc.Core.Load.Records.{check_byte, record_sum, record_bytes}
use emu8051_stc.Core.Load.File.{
  Fit, image, records_text, end_text, load_obj-records_text, load_obj-refused,
}
use emu8051_stc.Core.Load.Extended.{extended_text, load_record-extended_text}
use emu8051_stc.Tests.{machine}

-- The value of a digit, 16 for another character.
abbrev digit_value : ℕ → ℕ
digit_value x =
    if leb 0x30 x && leb x 0x39
    then x % 0x30
    else if leb 0x41 x && leb x 0x46
    then x % 0x41 + 10
    else if leb 0x61 x && leb x 0x66
    then x % 0x61 + 10
    else 16

-- `strtol` of two characters of which none is a blank, a sign or an `x`.
abbrev hex_value : ℕ → ℕ → ℕ
hex_value x y =
    if leb 16 (digit_value x)
    then 0
    else if leb 16 (digit_value y)
    then digit_value x
    else digit_value x * 16 + digit_value y

abbrev hex_digit : ℕ → ℕ
hex_digit n = if leb n 9 then 0x30 + n else 0x37 + n

abbrev two_digits : ℕ → ℕ × ℕ
two_digits b = (hex_digit (b / 16), hex_digit (b % 16))

hex_value-ReadsHex : ReadsHex hex_value two_digits
unfolding ReadsHex passes_below
hex_value-ReadsHex = byte_eq (λ b. hex_value ((two_digits b).0) ((two_digits b).1)) (λ b. b) refl

abbrev empty : Cpu ℕ
empty = machine (λ i. 0xff) (λ i. 0) 1

-- A jump at the reset and two bytes behind it.
abbrev program : List (ℕ × List ℕ)
program = (0, 0x02 ∷ 0x10 ∷ 0x00 ∷ []) ∷ (0x1000, 0x74 ∷ 0xab ∷ []) ∷ []

program-Fit : Fit 0xffff program
unfolding Fit AllBytes
program-Fit = (
  (omega arith, (omega arith, (omega arith, tt))),
  omega arith,
  omega arith,
  omega arith,
  ((omega arith, (omega arith, tt)), omega arith, omega arith, omega arith, tt),
)

one-Fit : Fit 0xffff ((0x20, 0x12 ∷ []) ∷ [])
unfolding Fit AllBytes
one-Fit = ((omega arith, tt), omega arith, omega arith, omega arith, tt)

load_obj-records_text_example :
    load_obj hex_value (some (0x3a ∷ records_text two_digits program (end_text two_digits))) empty
    ≡ (loaded, record empty { code_mem = image empty.code_mem program })
load_obj-records_text_example =
    load_obj-records_text hex_value two_digits hex_value-ReadsHex program empty (omega arith)
      program-Fit

wrong : 0x11 ≢ check_byte (record_sum two_digits 0x20 (0x12 ∷ []))
unfolding check_byte record_sum total
wrong = omega arith

load_obj-refused_example :
    load_obj hex_value
      (some
        (0x3a ∷ records_text two_digits program (record_bytes two_digits 0x20 (0x12 ∷ []) 0x11 [])))
      empty
    ≡ (
      checksum_failure,
      record empty { code_mem = written (image empty.code_mem program) 0x20 (0x12 ∷ []) },
    )
load_obj-refused_example =
    load_obj-refused hex_value two_digits hex_value-ReadsHex program empty (omega arith) program-Fit
      0x20 (0x12 ∷ []) [] 0x11 one-Fit (omega arith) wrong

load_obj-returns_example : (load_obj hex_value (some (0x3a ∷ 0x30 ∷ 0x0a ∷ [])) empty).0 ≢ running
load_obj-returns_example = load_obj-returns hex_value (some (0x3a ∷ 0x30 ∷ 0x0a ∷ [])) empty

zeros : AllBytes (0 ∷ 0 ∷ [])
unfolding AllBytes
zeros = (omega arith, (omega arith, tt))

short : length (0 ∷ 0 ∷ []) < 0x100
short = omega arith

-- `:020000040000FA`, as the linkers write it.
load_record-extended_text_example :
    load_record hex_value
      (reading (extended_text two_digits 0 4 (0 ∷ 0 ∷ []) 0xfa (0x0a ∷ 0x3a ∷ [])))
      empty
    ≡ again (reading (0x0a ∷ 0x3a ∷ [])) empty
load_record-extended_text_example =
    load_record-extended_text hex_value two_digits hex_value-ReadsHex 0 4 (0 ∷ 0 ∷ []) 0xfa
      (0x0a ∷ 0x3a ∷ []) empty (omega arith) (inr refl) zeros short (omega arith)
