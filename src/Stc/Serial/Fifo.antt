-- ===== src/Stc/Serial/Fifo.antt =====
-- The receive queue of the serial port as a list.
use emu8051_stc.Prelude.{
  ℕ, zero, suc, ◌+◌, ◌-◌, ◌%◌, ◌<◌, ◌≤◌, ◌≡◌, refl, arith, true, false, ◌==◌, nonzero, u8, update,
  List, [], ◌∷◌, ◌++◌, if_true,
}
use mathlib.Core.Path.{◌∙◌, ap}
use emu8051_stc.Stc.{Stc}
use emu8051_stc.Stc.Serial.{rx_enqueue, rx_dequeue}

-- The bytes from an index of the ring on.
abbrev pub elements : (ℕ → ℕ) → (head len : ℕ) → List ℕ
elements f head zero = []
elements f head (suc len) = f (head % 64) ∷ elements f (suc head) len

-- The queue, oldest byte first.
abbrev pub queue : {B : Type 0} → Stc B → List ℕ
queue s = elements s.rx_fifo s.rx_head s.rx_len

-- What the fields of the queue are limited to.
abbrev pub IsQueue : {B : Type 0} → Stc B → Type 0
IsQueue s = (s.rx_head < 64) × (s.rx_len ≤ 64)

elements-snoc :
    (f : ℕ → ℕ) (head len : ℕ)
    → elements f head (suc len) ≡ elements f head len ++ (f ((head + len) % 64) ∷ [])
elements-snoc f head zero = let e : head ≡ head + 0 = omega arith in ap (λ n. f (n % 64) ∷ []) e
elements-snoc f head (suc len) =
    let e : suc head + len ≡ head + suc len = omega arith in
    ap (λ l. f (head % 64) ∷ l)
      (elements-snoc f (suc head) len ∙ ap (λ n. elements f (suc head) len ++ (f (n % 64) ∷ [])) e)

-- A store into a slot that none of the elements has.
elements-update :
    (f : ℕ → ℕ) (v base size head len : ℕ)
    → head + len ≤ base + size
    → base ≤ head
    → size < 64
    → elements (update f ((base + size) % 64) v) head len ≡ elements f head len
elements-update f v base size head zero le ge lt = refl
elements-update f v base size head (suc len) le ge lt =
    let other : ((base + size) % 64 == head % 64) ≡ false = ground arith in
    let rest = elements-update f v base size (suc head) len (omega arith) (omega arith) lt in
    rw (other, rest) refl

elements-mod : (f : ℕ → ℕ) (a b len : ℕ) → a % 64 ≡ b % 64 → elements f a len ≡ elements f b len
elements-mod f a b zero e = refl
elements-mod f a b (suc len) e = rw (e, elements-mod f (suc a) (suc b) len (omega (arith, e))) refl

module _ {B : Type 0} (s : Stc B) where
  pub enqueue-queue :
      (byte : ℕ) → s.rx_len < 64 → queue (rx_enqueue s byte) ≡ queue s ++ (u8 byte ∷ [])
  unfolding rx_enqueue
  enqueue-queue byte lt =
      let slot = (s.rx_head + s.rx_len) % 64 in
      let f = update s.rx_fifo slot (u8 byte) in
      let next : u8 (s.rx_len + 1) ≡ suc s.rx_len = omega arith in
      let last : (slot == slot) ≡ true = ground arith in
      ap (λ n. elements f s.rx_head n) next
      ∙ elements-snoc f s.rx_head s.rx_len
      ∙ ap (λ l. l ++ (f slot ∷ []))
          (elements-update s.rx_fifo (u8 byte) s.rx_head s.rx_len s.rx_head s.rx_len (omega arith)
            (omega arith) lt)
      ∙ ap (λ b. queue s ++ (b ∷ [])) (if_true (slot == slot) _ _ last)

  pub dequeue-queue :
      IsQueue s → nonzero s.rx_len ≡ true → queue s ≡ s.rx_fifo s.rx_head ∷ queue (rx_dequeue s)
  unfolding rx_dequeue
  dequeue-queue q more =
      let left : s.rx_len ≡ suc (s.rx_len - 1) = ground arith in
      let here : s.rx_head % 64 ≡ s.rx_head = omega (arith, q.0) in
      let next : suc s.rx_head % 64 ≡ (s.rx_head + 1) % 64 % 64 = omega arith in
      ap (λ n. elements s.rx_fifo s.rx_head n) left
      ∙ ap (λ h. s.rx_fifo h ∷ elements s.rx_fifo (suc s.rx_head) (s.rx_len - 1)) here
      ∙ ap (λ l. s.rx_fifo s.rx_head ∷ l)
          (elements-mod s.rx_fifo (suc s.rx_head) ((s.rx_head + 1) % 64) (s.rx_len - 1) next)
