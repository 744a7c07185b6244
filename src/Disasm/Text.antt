-- ===== src/Disasm/Text.antt =====
-- What disasm.c uses of `sprintf`: a call is the list of the pieces of its format string, with the
-- arguments in their places. A text is the list of its characters.
use Prim.Native.Char.{code}
use Prim.Native.String.{String}
use emu8051_stc.Prelude.{
  ℕ, zero, suc, ◌+◌, ◌-◌, ◌/◌, ◌%◌, ltb, ◌==◌, ◌&&◌, if◌then◌else◌, List, [], ◌∷◌, ◌++◌,
}

abbrev pub codes : String → List ℕ
codes String.[] = []
codes (String.◌∷◌ x s) = code x ∷ codes s

-- Characters that are copied, `%s`, `%0kX`, `%d` of a number that is not negative, and `%+d`.
pub data Piece : Type 0 where
  lit : String → Piece
  str : List ℕ → Piece
  hex : ℕ → ℕ → Piece
  num : ℕ → Piece
  plus_num : ℕ → Piece

-- `(signed char)x` as an `int`, in the two's complement of 32 bits.
unfoldable pub signed_int : ℕ → ℕ
signed_int x = if ltb x 0x80 then x else x + 0xffffff00

unfoldable pub digit : ℕ → ℕ
digit n = if ltb n 10 then b'0' + n else b'A' + n - 10

-- The digits of `n` in front of `text`, at least `least` of them; `places` is the most there are.
unfoldable pub digits : ℕ → ℕ → ℕ → ℕ → List ℕ → List ℕ
digits base zero least n text = text
digits base (suc places) least n text =
    let more = digits base places (least - 1) (n / base) (digit (n % base) ∷ text) in
    if n == 0 && least == 0 then text else more

abbrev hex_digits : ℕ → ℕ → List ℕ
hex_digits least n = digits 16 8 least n []

abbrev decimal : ℕ → List ℕ
decimal n = digits 10 10 1 n []

abbrev plus_decimal : ℕ → List ℕ
plus_decimal n = if ltb n 0x80000000 then b'+' ∷ decimal n else b'-' ∷ decimal (0x100000000 - n)

unfoldable pub piece_text : Piece → List ℕ
unfolding digit digits
piece_text (lit s) = codes s
piece_text (str s) = s
piece_text (hex least n) = hex_digits least n
piece_text (num n) = decimal n
piece_text (plus_num n) = plus_decimal n

unfoldable pub sprintf : List Piece → List ℕ
sprintf [] = []
sprintf (p ∷ ps) = piece_text p ++ sprintf ps
