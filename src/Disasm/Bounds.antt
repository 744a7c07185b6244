-- ===== src/Disasm/Bounds.antt =====
-- disasm.c: how long the pieces of a text are at most.
use emu8051_stc.Prelude.{
  length, ℕ, zero, suc, ◌+◌, ◌-◌, ◌/◌, ◌%◌, ◌<◌, ◌≤◌, ◌≡◌, refl, arith, leb, ltb, true, ◌==◌, ◌&&◌,
  List, [], ◌∷◌, ◌++◌, if_keeps,
}
use emu8051_stc.Prelude.Bits.{passes_below, passes_below_lem}
use emu8051_stc.Disasm.Text.{
  Piece, lit, str, hex, num, plus_num, piece_text, sprintf, digit, digits, codes,
}
use emu8051_stc.Disasm.Names.{mem_memonic, bitaddr_memonic}

length-++ : (s t : List ℕ) → length (s ++ t) ≡ length s + length t
length-++ [] t = omega arith
length-++ (x ∷ s) t = let rest = length-++ s t in omega arith

digits-length :
    (base places least n : ℕ) (text : List ℕ)
    → length (digits base places least n text) ≤ places + length text
unfolding digits
digits-length base zero least n text = omega arith
digits-length base (suc places) least n text =
    let rest = digits-length base places (least - 1) (n / base) (digit (n % base) ∷ text) in
    if_keeps (λ (s : List ℕ). length s ≤ suc places + length text) (n == 0 && least == 0) text
      (digits base places (least - 1) (n / base) (digit (n % base) ∷ text)) (λ e. omega arith)
      (λ e. omega arith)

-- The most characters that a piece prints, where a name has at most six.
unfoldable pub bound : Piece → ℕ
bound (lit s) = length (codes s)
bound (str s) = 6
bound (hex least n) = 8
bound (num n) = 10
bound (plus_num n) = 11

unfoldable pub bounds : List Piece → ℕ
bounds [] = 0
bounds (p ∷ ps) = bound p + bounds ps

unfoldable pub IsShort : List Piece → Type 0
IsShort [] = Unit {0}
IsShort (str s ∷ ps) = (length s ≤ 6) × IsShort ps
IsShort (lit s ∷ ps) = IsShort ps
IsShort (hex least n ∷ ps) = IsShort ps
IsShort (num n ∷ ps) = IsShort ps
IsShort (plus_num n ∷ ps) = IsShort ps

plus-length : (n : ℕ) → length (piece_text (plus_num n)) ≤ 11
unfolding piece_text
plus-length n =
    let small = digits-length 10 10 1 n [] in
    let large = digits-length 10 10 1 (0x100000000 - n) [] in
    if_keeps (λ (s : List ℕ). length s ≤ 11) (ltb n 0x80000000) (b'+' ∷ digits 10 10 1 n [])
      (b'-' ∷ digits 10 10 1 (0x100000000 - n) []) (λ e. omega arith) (λ e. omega arith)

sprintf-length : (ps : List Piece) → IsShort ps → length (sprintf ps) ≤ bounds ps
unfolding sprintf bounds bound IsShort piece_text
sprintf-length [] short = omega arith
sprintf-length (lit s ∷ ps) short =
    let rest = sprintf-length ps short in omega (arith, length-++ (codes s) (sprintf ps))
sprintf-length (str s ∷ ps) short =
    let rest = sprintf-length ps (short.1) in
    let first = short.0 in omega (arith, length-++ s (sprintf ps))
sprintf-length (hex least n ∷ ps) short =
    let rest = sprintf-length ps short in
    let first = digits-length 16 8 least n [] in
    omega (arith, length-++ (digits 16 8 least n []) (sprintf ps))
sprintf-length (num n ∷ ps) short =
    let rest = sprintf-length ps short in
    let first = digits-length 10 10 1 n [] in
    omega (arith, length-++ (digits 10 10 1 n []) (sprintf ps))
sprintf-length (plus_num n ∷ ps) short =
    let rest = sprintf-length ps short in
    let first = plus-length n in omega (arith, length-++ (piece_text (plus_num n)) (sprintf ps))

leb_le : (m n : ℕ) → leb m n ≡ true → m ≤ n
leb_le m n h = ground arith

mem_table : passes_below 256 (λ x. leb (length (mem_memonic x)) 6) ≡ true
unfolding passes_below mem_memonic sprintf piece_text
mem_table = refl

bit_table : passes_below 256 (λ x. leb (length (bitaddr_memonic x)) 6) ≡ true
unfolding passes_below bitaddr_memonic sprintf piece_text
bit_table = refl

pub mem_memonic-length : (x : ℕ) → x < 256 → length (mem_memonic x) ≤ 6
mem_memonic-length x lt =
    leb_le _ _ (passes_below_lem 256 (λ x. leb (length (mem_memonic x)) 6) x mem_table lt)

pub bitaddr_memonic-length : (x : ℕ) → x < 256 → length (bitaddr_memonic x) ≤ 6
bitaddr_memonic-length x lt =
    leb_le _ _ (passes_below_lem 256 (λ x. leb (length (bitaddr_memonic x)) 6) x bit_table lt)

pub narrow : (ps : List Piece) → IsShort ps → leb (bounds ps) 63 ≡ true → length (sprintf ps) < 64
narrow ps short h =
    let total = leb_le (bounds ps) 63 h in let le = sprintf-length ps short in omega arith
