-- ===== src/Debug/Breakpoints/Cleared.antt =====
-- debug.c, `dbg_clear_breakpoint` after `dbg_set_breakpoint`.
use emu8051_stc.Prelude.{
  ℕ, ◌<◌, ◌≡◌, ◌∙◌, ◌⊎◌, inl, inr, refl, sym, ap, arith, ltb, ◌==◌, ==_iff, ◌&&◌, not, Bool, true,
  false, Option, none, some, if_keeps,
}
use mathlib.Core.Bool.{false≢true}
use emu8051_stc.Debug.{Target, Breakpoint, dbg_max_bp, space_bit}
use emu8051_stc.Debug.Breakpoints.{
  is_watching, first_slot, fill_slot, is_free, set_slot, dbg_set_breakpoint, has_handle, clear_slot,
  dbg_clear_breakpoint,
}
use emu8051_stc.Debug.Breakpoints.Handles.{emptied_cases}
use emu8051_stc.Debug.Breakpoints.Laws.{Finds, first_slot-Finds, AreDistinct, fill_cases}

value_or : ℕ → Option ℕ → ℕ
value_or n none = n
value_or n (some m) = m

is_some : Option ℕ → Bool
is_some none = false
is_some (some m) = true

some_eq : {m n : ℕ} → ◌≡◌ {A = Option ℕ} (some m) (some n) → m ≡ n
unfolding value_or
some_eq e = ap (value_or 0) e

some_is : {n : ℕ} → ◌≡◌ {A = Option ℕ} (some n) none → ⊥
unfolding is_some
some_is e = false≢true (sym (ap is_some e))

-- The slot that was filled, if a handle was given.
record IsFilled {B D : Type 0} (t : Target B D) (bp : Breakpoint) (k : ℕ) (t1 : Target B D)
    : Type 0 where
  in_range : k < dbg_max_bp
  free : (t.bps k).active ≡ false
  is_filled : t1 ≡ fill_slot t k bp

both : (a b : Bool) → (a && b) ≡ true → (a ≡ true) × (b ≡ true)
both true b h = (refl, h)
both false b h = absurd (false≢true h)

module _ {B D : Type 0} (t : Target B D) (bp : Breakpoint) (handle : ℕ) where
  free_off : (b : Bool) → not b ≡ true → b ≡ false
  free_off false e = refl
  free_off true e = absurd (false≢true e)

  set_slot-IsFilled :
      (o : Option ℕ)
      → Finds (is_free t) dbg_max_bp 0 o
      → (set_slot t bp o).0 ≡ some handle
      → (handle ≡ t.next_bp_id) × ((k : ℕ) × IsFilled t bp k (set_slot t bp o).1)
  unfolding set_slot Finds is_free
  set_slot-IsFilled none found e = absurd (some_is (sym e))
  set_slot-IsFilled (some k) found e = (
    sym (some_eq e),
    (
      k,
      record {
        in_range = omega (arith, found.2);
        free = free_off (t.bps k).active found.0;
        is_filled = refl;
      },
    ),
  )

  dbg_set_breakpoint-IsFilled :
      (dbg_set_breakpoint t bp).0 ≡ some handle
      → (handle ≡ t.next_bp_id) × ((k : ℕ) × IsFilled t bp k (dbg_set_breakpoint t bp).1)
  unfolding dbg_set_breakpoint
  dbg_set_breakpoint-IsFilled =
      if_keeps
        (λ (r : Option ℕ × Target B D).
          r.0 ≡ some handle → (handle ≡ t.next_bp_id) × ((k : ℕ) × IsFilled t bp k r.1))
        (is_watching bp.kind && ltb space_bit bp.watch_space) (none, t)
        (set_slot t bp (first_slot (is_free t) dbg_max_bp 0)) (λ bad e. absurd (some_is (sym e)))
        (λ good.
          set_slot-IsFilled (first_slot (is_free t) dbg_max_bp 0)
            (first_slot-Finds (is_free t) dbg_max_bp 0))

  filled_has : (k : ℕ) → has_handle (fill_slot t k bp) t.next_bp_id k ≡ true
  unfolding has_handle
  filled_has k = elim (fill_cases t k bp k) [
    | inl (here, e) ↦
        ap (λ (b : Breakpoint). b.active && b.id == t.next_bp_id) e
        ∙ (==_iff t.next_bp_id t.next_bp_id).1 refl
    | inr (other, e) ↦ absurd (false≢true (sym other ∙ (==_iff k k).1 refl))
  ]

  -- The search for the handle finds the slot that was filled, and no other has it.
  handle_found :
      (k : ℕ)
      → k < dbg_max_bp
      → AreDistinct t
      → (o : Option ℕ) → Finds (has_handle (fill_slot t k bp) t.next_bp_id) dbg_max_bp 0 o
      → o ≡ some k
  unfolding Finds has_handle
  handle_found k lt h none found =
      absurd (false≢true (sym (found k (omega arith) (omega arith)) ∙ filled_has k))
  handle_found k lt h (some j) found = elim (fill_cases t k bp j) [
    | inl (here, e) ↦ ap some here
    | inr (other, e) ↦ absurd (
        let (on, same) = both _ _ (found.0) in
        let before =
          h.given j (omega (arith, found.2)) (sym (ap (λ (b : Breakpoint). b.active) e) ∙ on) in
        let id_is = ap (λ (b : Breakpoint). b.id) e in
        let is = (==_iff _ t.next_bp_id).0 same in omega arith)
  ]

module _ {B D : Type 0} (t : Target B D) (bp : Breakpoint) (handle : ℕ) (h : AreDistinct t)
    (given : (dbg_set_breakpoint t bp).0 ≡ some handle) where
  back : Target B D
  back = dbg_clear_breakpoint (dbg_set_breakpoint t bp).1 handle

  back_is : (k : ℕ) × ((t.bps k).active ≡ false) × (back ≡ clear_slot (fill_slot t k bp) (some k))
  unfolding dbg_clear_breakpoint back
  back_is =
      let (is_next, slot) = dbg_set_breakpoint-IsFilled t bp handle given in
      let (k, set) = slot in
      (
        k,
        set.free,
        rw (set.is_filled, is_next)
            (ap (clear_slot (fill_slot t k bp)) (
              handle_found t bp handle k set.in_range h
                (first_slot (has_handle (fill_slot t k bp) t.next_bp_id) dbg_max_bp 0)
                (first_slot-Finds (has_handle (fill_slot t k bp) t.next_bp_id) dbg_max_bp 0))),
      )

  -- Where active slots have handles that were given and no two have the same: if a breakpoint is
  -- set, with a handle, and then cleared by this handle, every slot is active if and only if it
  -- was, and a slot that was active holds the breakpoint that it held.
  pub dbg_clear_breakpoint-dbg_set_breakpoint :
      (i : ℕ)
      → let t2 = dbg_clear_breakpoint (dbg_set_breakpoint t bp).1 handle in
        ((t2.bps i).active ≡ (t.bps i).active) × (((t.bps i).active ≡ false) ⊎ (t2.bps i ≡ t.bps i))
  unfolding back
  dbg_clear_breakpoint-dbg_set_breakpoint i =
      let (k, free, is) = back_is in
      let f = fill_slot t k bp in
      rw is (elim (emptied_cases f k i) [
        | inl (here, off) ↦ (off ∙ sym (rw here free), inl (rw here free))
        | inr (other, same) ↦ (elim (fill_cases t k bp i) [
          | inl (here, e) ↦ absurd (false≢true (sym other ∙ (==_iff k i).1 (sym here)))
          | inr (o, e) ↦ (ap (λ (b : Breakpoint). b.active) (same ∙ e), inr (same ∙ e))
        ])
      ])
