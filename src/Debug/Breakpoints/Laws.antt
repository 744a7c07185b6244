-- ===== src/Debug/Breakpoints/Laws.antt =====
-- debug.c: the slots of the breakpoints and their handles.
use emu8051_stc.Prelude.{
  ℕ, zero, suc, ◌+◌, ◌<◌, ◌≤◌, ◌≡◌, ◌∙◌, ◌⊎◌, inl, inr, sym, ap, arith, ◌==◌, ==_iff, Bool, true,
  false, Option, none, some, if_true, if_false, if_keeps, Bool-cases,
}
use emu8051_stc.Stc.{u32}
use emu8051_stc.Debug.{Target, Breakpoint, dbg_max_bp}
use emu8051_stc.Debug.Breakpoints.{update_bp, first_slot, fill_slot}

-- What a search of `left` slots from `i` on finds.
unfoldable pub Finds : (ℕ → Bool) → ℕ → ℕ → Option ℕ → Type 0
Finds test left i none = (k : ℕ) → i ≤ k → k < i + left → test k ≡ false
Finds test left i (some k) = (test k ≡ true) × (i ≤ k) × (k < i + left)

not_same : (i k : ℕ) → (i == k) ≡ false → i ≤ k → i + 1 ≤ k
not_same i k other le = ground arith

Finds-later :
    (test : ℕ → Bool) (left i : ℕ) (o : Option ℕ)
    → test i ≡ false
    → Finds test left (i + 1) o
    → Finds test (suc left) i o
unfolding Finds
Finds-later test left i (some k) e h = (h.0, omega (arith, h.1), omega (arith, h.2))
Finds-later test left i none e h = λ k le lt. elim (Bool-cases (i == k)) [
  | inl same ↦ ap test (sym ((==_iff i k).0 same)) ∙ e
  | inr other ↦ h k (not_same i k other le) (omega arith)
]

pub first_slot-Finds : (test : ℕ → Bool) (left i : ℕ) → Finds test left i (first_slot test left i)
unfolding first_slot Finds
first_slot-Finds test zero i = λ k le lt. absurd (omega arith)
first_slot-Finds test (suc left) i =
    if_keeps (Finds test (suc left) i) (test i) (some i) (first_slot test left (i + 1))
      (λ e. (e, omega arith, omega arith))
      (λ e.
        Finds-later test left i (first_slot test left (i + 1)) e
          (first_slot-Finds test left (i + 1)))

-- Active slots have handles that were given, each its own.
pub record AreDistinct {B D : Type 0} (t : Target B D) : Type 0 where
  pub given : (i : ℕ) → i < dbg_max_bp → (t.bps i).active ≡ true → (t.bps i).id < t.next_bp_id
  pub own :
      (i j : ℕ)
      → i < dbg_max_bp
      → j < dbg_max_bp
      → (t.bps i).active ≡ true
      → (t.bps j).active ≡ true
      → (t.bps i).id ≡ (t.bps j).id
      → i ≡ j

module _ {B D : Type 0} (t : Target B D) (k : ℕ) (bp : Breakpoint) where
  -- A slot is the one that is filled, or as before.
  pub fill_cases :
      (i : ℕ)
      → ((i ≡ k) × ((fill_slot t k bp).bps i ≡ record bp { id = t.next_bp_id; active = true }))
        ⊎ (((k == i) ≡ false) × ((fill_slot t k bp).bps i ≡ t.bps i))
  unfolding fill_slot update_bp
  fill_cases i = elim (Bool-cases (k == i)) [
    | inl same ↦ inl (sym ((==_iff k i).0 same), if_true (k == i) _ (t.bps i) same)
    | inr other ↦ inr (other, if_false (k == i) _ (t.bps i) other)
  ]

  module _ (h : AreDistinct t) (room : t.next_bp_id < 0x7fffffff) where
    fill_given :
        (i : ℕ)
        → i < dbg_max_bp
        → ((fill_slot t k bp).bps i).active ≡ true
        → ((fill_slot t k bp).bps i).id < u32 (t.next_bp_id + 1)
    fill_given i lt on = elim (fill_cases i) [
      | inl (here, e) ↦ (let id_is = ap (λ (b : Breakpoint). b.id) e in omega arith)
      | inr (other, e) ↦
          (let id_is = ap (λ (b : Breakpoint). b.id) e in
            let before = h.given i lt (sym (ap (λ (b : Breakpoint). b.active) e) ∙ on) in
            omega arith)
    ]

    fill_own :
        (i j : ℕ)
        → i < dbg_max_bp
        → j < dbg_max_bp
        → ((fill_slot t k bp).bps i).active ≡ true
        → ((fill_slot t k bp).bps j).active ≡ true
        → ((fill_slot t k bp).bps i).id ≡ ((fill_slot t k bp).bps j).id
        → i ≡ j
    fill_own i j li lj oni onj same = elim (fill_cases i) [
      | inl (here, e) ↦
          (let id_i = ap (λ (b : Breakpoint). b.id) e in
            elim (fill_cases j) [
              | inl (there, f) ↦ here ∙ sym there
              | inr (other, f) ↦
                  (let id_j = ap (λ (b : Breakpoint). b.id) f in
                    let before = h.given j lj (sym (ap (λ (b : Breakpoint). b.active) f) ∙ onj) in
                    absurd (omega arith))
            ])
      | inr (other, e) ↦
          (let id_i = ap (λ (b : Breakpoint). b.id) e in
            elim (fill_cases j) [
              | inl (there, f) ↦
                  (let id_j = ap (λ (b : Breakpoint). b.id) f in
                    let before = h.given i li (sym (ap (λ (b : Breakpoint). b.active) e) ∙ oni) in
                    absurd (omega arith))
              | inr (another, f) ↦
                  h.own i j li lj (sym (ap (λ (b : Breakpoint). b.active) e) ∙ oni)
                    (sym (ap (λ (b : Breakpoint). b.active) f) ∙ onj)
                    (sym id_i ∙ same ∙ ap (λ (b : Breakpoint). b.id) f)
            ])
    ]

    pub fill_slot-AreDistinct : AreDistinct (fill_slot t k bp)
    unfolding fill_slot
    fill_slot-AreDistinct = record { given = fill_given; own = fill_own }
