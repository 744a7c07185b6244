-- ===== src/Disasm/Bits.antt =====
-- disasm.c, `bitaddr_memonic`: how a bit is shown.
use emu8051_stc.Prelude.{
  ℕ, ◌+◌, ◌-◌, ◌<◌, ◌≡◌, refl, true, false, Bool, ◌&&◌, ◌==◌, ==_iff, ltb, if◌then◌else◌, List, [],
  ◌∷◌, ◌++◌, bit_and,
}
use mathlib.Core.Bool.{false≢true}
use emu8051_stc.Prelude.Bits.{passes_below, passes_below_lem}
use emu8051_stc.Ops.Bit.{byte_of_bit, sfr_of_bit}
use emu8051_stc.Disasm.Text.{sprintf, piece_text}
use emu8051_stc.Disasm.Names.{mem_memonic, bitaddr_memonic}

and_both : (a b : Bool) → (a && b) ≡ true → (a ≡ true) × (b ≡ true)
and_both true b h = (refl, h)
and_both false b h = absurd (false≢true h)

same_text : List ℕ → List ℕ → Bool
same_text [] [] = true
same_text (x ∷ s) (y ∷ t) = x == y && same_text s t
same_text _ _ = false

same_text_sound : (s t : List ℕ) → same_text s t ≡ true → s ≡ t
unfolding same_text
same_text_sound [] [] h = refl
same_text_sound [] (y ∷ t) h = absurd (false≢true h)
same_text_sound (x ∷ s) [] h = absurd (false≢true h)
same_text_sound (x ∷ s) (y ∷ t) h =
    let (head, tail) = and_both (x == y) (same_text s t) h in
    cc ((==_iff x y).0 head, same_text_sound s t tail)

-- The bit as the byte that is shown, a point and the number of the bit.
unfoldable pub bit_text : ℕ → ℕ → List ℕ
bit_text byte x = mem_memonic byte ++ (b'.' ∷ (b'0' + bit_and x 7) ∷ [])

bit_table :
    passes_below 256 (λ x.
      same_text
        (bitaddr_memonic x)
        (bit_text (if ltb 0x7f x then sfr_of_bit x else byte_of_bit x - 0x20) x))
    ≡ true
unfolding passes_below same_text bit_text bitaddr_memonic mem_memonic sprintf piece_text sfr_of_bit
    byte_of_bit
bit_table = refl

-- A bit of a register is shown in the register that the bit instructions access, by its name. A bit
-- of the internal memory is shown in the byte 0x20 below the one that they access.
pub bitaddr_memonic_lem :
    (x : ℕ)
    → x < 0x100
    → bitaddr_memonic x ≡ bit_text (if ltb 0x7f x then sfr_of_bit x else byte_of_bit x - 0x20) x
bitaddr_memonic_lem x lt = same_text_sound _ _ (
    passes_below_lem 256
      (λ y.
        same_text (bitaddr_memonic y)
          (bit_text (if ltb 0x7f y then sfr_of_bit y else byte_of_bit y - 0x20) y))
      x bit_table lt)
