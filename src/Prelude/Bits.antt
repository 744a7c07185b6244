-- ===== src/Prelude/Bits.antt =====
-- Facts about `&`, `|` and `^` on bytes, by checking every byte.
use Prim.Native.Nat.{ℕ, zero, suc, ◌+◌, ◌*◌, ◌%◌, ◌<◌, bit_and, bit_or, bit_xor}
use mathlib.Core.Path.{◌≡◌, refl}
use mathlib.Core.Bool.{Bool, true, ◌&&◌}
use native.Mathlib.Omega.{arith}
use emu8051_stc.Prelude.Tests.{◌==◌, ==_iff}

-- Whether a test passes on every number below a bound, by running it.
unfoldable pub passes_below : ℕ → (ℕ → Bool) → Bool
passes_below zero test = true
passes_below (suc top) test = passes_below top test && test top

pub passes_below_lem :
    (bound : ℕ) (test : ℕ → Bool) (i : ℕ)
    → passes_below bound test ≡ true
    → i < bound
    → test i ≡ true
unfolding passes_below
passes_below_lem zero test i all lt = absurd (omega arith)
passes_below_lem (suc top) test i all lt = ground (arith, passes_below_lem top test i)

-- Two functions that agree on every byte by evaluation.
pub byte_eq :
    (f g : ℕ → ℕ) → passes_below 256 (λ x. f x == g x) ≡ true → (x : ℕ) → x < 256 → f x ≡ g x
byte_eq f g h x lt = (==_iff _ _).0 (passes_below_lem 256 (λ y. f y == g y) x h lt)

module _ (x : ℕ) (lt : x < 256) where
  pub bit_and_255 : bit_and x 255 ≡ x
  unfolding passes_below
  bit_and_255 = byte_eq (λ y. bit_and y 255) (λ y. y) refl x lt

  pub bit_and_127 : bit_and x 127 ≡ x % 128
  unfolding passes_below
  bit_and_127 = byte_eq (λ y. bit_and y 127) (λ y. y % 128) refl x lt

  pub bit_and_31 : bit_and x 31 ≡ x % 32
  unfolding passes_below
  bit_and_31 = byte_eq (λ y. bit_and y 31) (λ y. y % 32) refl x lt

  pub bit_and_15 : bit_and x 15 ≡ x % 16
  unfolding passes_below
  bit_and_15 = byte_eq (λ y. bit_and y 15) (λ y. y % 16) refl x lt

  pub bit_and_7 : bit_and x 7 ≡ x % 8
  unfolding passes_below
  bit_and_7 = byte_eq (λ y. bit_and y 7) (λ y. y % 8) refl x lt

-- Two bytes joined by `|` make a word.
word_table :
    passes_below 256 (λ h. passes_below 256 (λ l. bit_or (h * 256) l == h * 256 + l)) ≡ true
unfolding passes_below
word_table = refl

pub bit_or_word : (h l : ℕ) → h < 256 → l < 256 → bit_or (h * 256) l ≡ h * 256 + l
bit_or_word h l hh hl = (==_iff _ _).0 (
    passes_below_lem 256 (λ y. bit_or (h * 256) y == h * 256 + y) l
      (passes_below_lem 256 (λ z. passes_below 256 (λ y. bit_or (z * 256) y == z * 256 + y)) h
        word_table hh)
      hl)

-- The low byte of a word, and of the sums of a word and a little more.
low_table : passes_below 0x10200 (λ n. bit_and n 255 == n % 256) ≡ true
unfolding passes_below
low_table = refl

pub bit_and_low : (n : ℕ) → n < 0x10200 → bit_and n 255 ≡ n % 256
bit_and_low n lt =
    (==_iff _ _).0 (passes_below_lem 0x10200 (λ y. bit_and y 255 == y % 256) n low_table lt)

-- The lowest bit, and the difference of two bits.
bit_table : passes_below 0x400 (λ n. bit_and n 1 == n % 2) ≡ true
unfolding passes_below
bit_table = refl

pub bit_and_1 : (n : ℕ) → n < 0x400 → bit_and n 1 ≡ n % 2
bit_and_1 n lt = (==_iff _ _).0 (passes_below_lem 0x400 (λ y. bit_and y 1 == y % 2) n bit_table lt)

pub bit_xor_bit : (x y : ℕ) → x < 2 → y < 2 → bit_xor x y ≡ (x + y) % 2
bit_xor_bit zero zero h k = refl
bit_xor_bit zero (suc zero) h k = refl
bit_xor_bit (suc zero) zero h k = refl
bit_xor_bit (suc zero) (suc zero) h k = refl
bit_xor_bit zero (suc (suc y)) h k = absurd (omega arith)
bit_xor_bit (suc zero) (suc (suc y)) h k = absurd (omega arith)
bit_xor_bit (suc (suc x)) y h k = absurd (omega arith)

-- The halves the other way round.
swapped_table :
    passes_below 256 (λ h. passes_below 256 (λ l. bit_or l (h * 256) == h * 256 + l)) ≡ true
unfolding passes_below
swapped_table = refl

pub bit_or_halves : (l h : ℕ) → l < 256 → h < 256 → bit_or l (h * 256) ≡ h * 256 + l
bit_or_halves l h hl hh = (==_iff _ _).0 (
    passes_below_lem 256 (λ y. bit_or y (h * 256) == h * 256 + y) l
      (passes_below_lem 256 (λ z. passes_below 256 (λ y. bit_or y (z * 256) == z * 256 + y)) h
        swapped_table hh)
      hl)
