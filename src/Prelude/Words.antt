-- ===== src/Prelude/Words.antt =====
-- Machine words as native numbers, and arrays as functions of the index.
use mathlib.Core.List.{List, [], ◌∷◌}
use Prim.Native.Nat.{ℕ, suc, ◌+◌, ◌-◌, ◌%◌, ◌<◌, bit_and}
use native.Mathlib.Omega.{arith}
use emu8051_stc.Prelude.Tests.{◌==◌, ltb, if◌then◌else◌}

-- What a store into a `uint8_t` or a `uint16_t` keeps.
abbrev pub u8 : ℕ → ℕ
u8 n = n % 0x100

abbrev pub u16 : ℕ → ℕ
u16 n = n % 0x10000

-- `x & ~m`, for a byte `x` and an 8-bit mask `m`.
abbrev pub and_not : ℕ → ℕ → ℕ
and_not x m = bit_and x (0xff - m)

-- `(signed char)x`, as what it adds modulo 2^16.
abbrev pub signed_char : ℕ → ℕ
signed_char x = if ltb x 0x80 then x else x + 0xff00

-- `f[i] = v`.
abbrev pub update : (ℕ → ℕ) → ℕ → ℕ → ℕ → ℕ
update f i v j = if i == j then v else f j

-- Every element of the array is a byte.
abbrev pub IsBytes : (ℕ → ℕ) → Type 0
IsBytes f = (i : ℕ) → f i < 0x100

pub update-IsBytes : (f : ℕ → ℕ) (i v : ℕ) → IsBytes f → v < 0x100 → IsBytes (update f i v)
update-IsBytes f i v h lt j = ground (arith, h j)

abbrev pub length : List ℕ → ℕ
length [] = 0
length (x ∷ xs) = suc (length xs)
