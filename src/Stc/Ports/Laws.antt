-- ===== src/Stc/Ports/Laws.antt =====
-- What a read of a port gives, pin by pin.
use emu8051_stc.Prelude.{
  ℕ, ◌+◌, ◌^◌, ◌<◌, ◌≤◌, ◌≡◌, refl, arith, Bool, true, false, not, ◌&&◌, ◌||◌, ltb, ◌==◌, ==_iff,
  bit_and, bit_or, nonzero, if◌then◌else◌, List, [], ◌∷◌, Bool-cases, inl, inr,
}
use emu8051_stc.Prelude.Bits.{passes_below, passes_below_lem, byte_eq}
use emu8051_stc.Stc.Pins.{pins}
use emu8051_stc.Stc.Ports.{pin_read, mode_pins, apply_port_mode}

-- The level of a pin that is read: of the latch in push-pull, of the outside as an input, and
-- high where both are in the other modes.
abbrev pub pin_level : (latch ext m1 m0 : Bool) → Bool
pin_level latch ext false true = latch
pin_level latch ext true false = ext
pin_level latch ext false false = latch && ext
pin_level latch ext true true = latch && ext

abbrev pub pin_of : ℕ → ℕ → Bool
pin_of x bit = nonzero (bit_and x (2 ^ bit))

-- A port of eight levels as a number.
unfoldable pub weight : Bool → ℕ → ℕ
weight b w = if b then w else 0

abbrev pub value : List ℕ → (ℕ → Bool) → ℕ
value [] level = 0
value (bit ∷ rest) level = weight (level bit) (2 ^ bit) + value rest level

one_bit : (mask : ℕ) → ℕ → Bool
one_bit mask x = bit_and x mask == (if nonzero (bit_and x mask) then mask else 0)

both_bits : (mask : ℕ) → ℕ → ℕ → Bool
both_bits mask x y =
    bit_and (bit_and x y) mask
    == (if nonzero (bit_and x mask) && nonzero (bit_and y mask) then mask else 0)

both_table :
    passes_below 8 (λ bit. passes_below 256 (λ x. passes_below 256 (both_bits (2 ^ bit) x))) ≡ true
unfolding passes_below both_bits
both_table = refl

one_table : passes_below 8 (λ bit. passes_below 256 (one_bit (2 ^ bit))) ≡ true
unfolding passes_below one_bit
one_table = refl

-- A pin above those that are in a number.
add_pin : (bit x : ℕ) → Bool
add_pin bit x = not (ltb x (2 ^ bit)) || (bit_or x (2 ^ bit) == x + 2 ^ bit)

add_table : passes_below 8 (λ bit. passes_below 256 (add_pin bit)) ≡ true
unfolding passes_below add_pin
add_table = refl

or_zero : (x : ℕ) → x < 256 → bit_or x 0 ≡ x
unfolding passes_below
or_zero = byte_eq (λ x. bit_or x 0) (λ x. x) refl

or_pin :
    (bit r : ℕ) (b : Bool)
    → bit < 8
    → r < 2 ^ bit
    → r < 256
    → bit_or r (weight b (2 ^ bit)) ≡ r + weight b (2 ^ bit)
unfolding weight add_pin
or_pin bit r true lt below small =
    let t =
      passes_below_lem 256 (add_pin bit) r
        (passes_below_lem 8 (λ k. passes_below 256 (add_pin k)) bit add_table lt) small in
    ground (arith, t)
or_pin bit r false lt below small = let e = or_zero r small in omega (arith, e)

weight_le : (b : Bool) (w : ℕ) → weight b w ≤ w
unfolding weight
weight_le true w = omega arith
weight_le false w = omega arith

or_all :
    (b : ℕ → Bool)
    → bit_or
        (bit_or
          (bit_or
            (bit_or
              (bit_or
                (bit_or (bit_or (bit_or 0 (weight (b 0) 1)) (weight (b 1) 2)) (weight (b 2) 4))
                (weight (b 3) 8))
              (weight (b 4) 16))
            (weight (b 5) 32))
          (weight (b 6) 64))
        (weight (b 7) 128)
      ≡ value pins b
or_all b =
    let le = weight_le in
    let w0 = le (b 0) 1 in
    let w1 = le (b 1) 2 in
    let w2 = le (b 2) 4 in
    let w3 = le (b 3) 8 in
    let w4 = le (b 4) 16 in
    let w5 = le (b 5) 32 in
    let w6 = le (b 6) 64 in
    let s0 = or_pin 0 0 (b 0) (omega arith) (omega arith) (omega arith) in
    let r1 = 0 + weight (b 0) 1 in
    let s1 = or_pin 1 r1 (b 1) (omega arith) (omega (arith, w0)) (omega (arith, w0)) in
    let r2 = r1 + weight (b 1) 2 in
    let s2 = or_pin 2 r2 (b 2) (omega arith) (omega (arith, w0, w1)) (omega (arith, w0, w1)) in
    let r3 = r2 + weight (b 2) 4 in
    let s3 =
      or_pin 3 r3 (b 3) (omega arith) (omega (arith, w0, w1, w2)) (omega (arith, w0, w1, w2)) in
    let r4 = r3 + weight (b 3) 8 in
    let s4 =
      or_pin 4 r4 (b 4) (omega arith) (omega (arith, w0, w1, w2, w3))
        (omega (arith, w0, w1, w2, w3)) in
    let r5 = r4 + weight (b 4) 16 in
    let s5 =
      or_pin 5 r5 (b 5) (omega arith) (omega (arith, w0, w1, w2, w3, w4))
        (omega (arith, w0, w1, w2, w3, w4)) in
    let r6 = r5 + weight (b 5) 32 in
    let s6 =
      or_pin 6 r6 (b 6) (omega arith) (omega (arith, w0, w1, w2, w3, w4, w5))
        (omega (arith, w0, w1, w2, w3, w4, w5)) in
    let r7 = r6 + weight (b 6) 64 in
    let s7 =
      or_pin 7 r7 (b 7) (omega arith) (omega (arith, w0, w1, w2, w3, w4, w5, w6))
        (omega (arith, w0, w1, w2, w3, w4, w5, w6)) in
    rw (s0, s1, s2, s3, s4, s5, s6, s7) (omega arith)

pin_read-level :
    (latch ext m1 m0 bit : ℕ)
    → bit < 8
    → latch < 256
    → ext < 256
    → pin_read latch ext m1 m0 (2 ^ bit)
      ≡ weight
          (pin_level (pin_of latch bit) (pin_of ext bit) (pin_of m1 bit) (pin_of m0 bit))
          (2 ^ bit)
unfolding pin_read weight one_bit both_bits
pin_read-level latch ext m1 m0 bit lt hl he =
    let both =
      passes_below_lem 256 (both_bits (2 ^ bit) latch) ext
        (passes_below_lem 256 (λ x. passes_below 256 (both_bits (2 ^ bit) x)) latch
          (passes_below_lem 8 _ bit both_table lt) hl)
        he in
    let one =
      passes_below_lem 256 (one_bit (2 ^ bit)) latch (passes_below_lem 8 _ bit one_table lt) hl in
    let two =
      passes_below_lem 256 (one_bit (2 ^ bit)) ext (passes_below_lem 8 _ bit one_table lt) he in
    elim (Bool-cases (pin_of m1 bit)) [
      | inl e1 ↦ elim (Bool-cases (pin_of m0 bit)) [
        | inl e0 ↦ rw (e1, e0) ((==_iff _ _).0 both)
        | inr e0 ↦ rw (e1, e0) ((==_iff _ _).0 two)
      ]
      | inr e1 ↦ elim (Bool-cases (pin_of m0 bit)) [
        | inl e0 ↦ rw (e1, e0) ((==_iff _ _).0 one)
        | inr e0 ↦ rw (e1, e0) ((==_iff _ _).0 both)
      ]
    ]

-- What a port reads is, pin by pin, the level that the mode of the pin gives to the latch and the
-- outside, where both are bytes.
pub apply_port_mode-levels :
    (latch ext m1 m0 : ℕ)
    → latch < 256
    → ext < 256
    → apply_port_mode latch ext m1 m0
      ≡ value pins
          (λ bit. pin_level (pin_of latch bit) (pin_of ext bit) (pin_of m1 bit) (pin_of m0 bit))
unfolding apply_port_mode mode_pins
apply_port_mode-levels latch ext m1 m0 hl he =
    let at = pin_read-level latch ext m1 m0 in
    rw
      (
        at 0 (omega arith) hl he,
        at 1 (omega arith) hl he,
        at 2 (omega arith) hl he,
        at 3 (omega arith) hl he,
        at 4 (omega arith) hl he,
        at 5 (omega arith) hl he,
        at 6 (omega arith) hl he,
        at 7 (omega arith) hl he,
      )
      (or_all
        (λ bit. pin_level (pin_of latch bit) (pin_of ext bit) (pin_of m1 bit) (pin_of m0 bit)))
