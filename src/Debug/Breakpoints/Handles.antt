-- ===== src/Debug/Breakpoints/Handles.antt =====
-- debug.c, `dbg_set_breakpoint` and `dbg_clear_breakpoint`: the handles.
use emu8051_stc.Prelude.{
  ℕ, ◌<◌, ◌≡◌, ◌∙◌, ◌⊎◌, inl, inr, sym, ap, arith, ltb, ◌==◌, ==_iff, ◌&&◌, true, false, Option,
  none, some, if_true, if_false, if_keeps, Bool-cases,
}
use mathlib.Core.Bool.{false≢true}
use emu8051_stc.Debug.{Target, Breakpoint, dbg_max_bp, space_bit}
use emu8051_stc.Debug.Breakpoints.{
  is_watching, update_bp, first_slot, is_free, set_slot, dbg_set_breakpoint, has_handle, clear_slot,
  dbg_clear_breakpoint,
}
use emu8051_stc.Debug.Breakpoints.Laws.{AreDistinct, fill_slot-AreDistinct}

-- Whether a slot and its breakpoint are as before, or the slot was emptied.
module _ {B D : Type 0} (t : Target B D) where
  pub emptied_cases :
      (k i : ℕ)
      → ((i ≡ k) × (((clear_slot t (some k)).bps i).active ≡ false))
        ⊎ (((k == i) ≡ false) × ((clear_slot t (some k)).bps i ≡ t.bps i))
  unfolding clear_slot update_bp
  emptied_cases k i = elim (Bool-cases (k == i)) [
    | inl same ↦ inl (
      sym ((==_iff k i).0 same),
      ap (λ (b : Breakpoint). b.active) (if_true (k == i) _ (t.bps i) same),
    )
    | inr other ↦ inr (other, if_false (k == i) _ (t.bps i) other)
  ]

  kept :
      (k i : ℕ)
      → ((clear_slot t (some k)).bps i).active ≡ true
      → (clear_slot t (some k)).bps i ≡ t.bps i
  kept k i on = elim (emptied_cases k i) [
    | inl (here, off) ↦ absurd (false≢true (sym off ∙ on))
    | inr (other, same) ↦ same
  ]

  clear_slot-AreDistinct : (o : Option ℕ) → AreDistinct t → AreDistinct (clear_slot t o)
  unfolding clear_slot
  clear_slot-AreDistinct none h = h
  clear_slot-AreDistinct (some k) h = record {
    given = λ i lt on.
        let e = kept k i on in
        let id_is = ap (λ (b : Breakpoint). b.id) e in
        let before = h.given i lt (sym (ap (λ (b : Breakpoint). b.active) e) ∙ on) in omega arith;
    own = λ i j li lj oni onj same.
        let e = kept k i oni in
        let f = kept k j onj in
        h.own i j li lj (sym (ap (λ (b : Breakpoint). b.active) e) ∙ oni)
          (sym (ap (λ (b : Breakpoint). b.active) f) ∙ onj)
          (sym (ap (λ (b : Breakpoint). b.id) e) ∙ same ∙ ap (λ (b : Breakpoint). b.id) f);
  }

  set_slot-AreDistinct :
      (bp : Breakpoint) (o : Option ℕ)
      → AreDistinct t
      → t.next_bp_id < 0x7fffffff
      → AreDistinct (set_slot t bp o).1
  unfolding set_slot
  set_slot-AreDistinct bp none h room = h
  set_slot-AreDistinct bp (some k) h room = fill_slot-AreDistinct t k bp h room

  -- Where active slots have handles below the next one and no two have the same, and the next one
  -- is below INT_MAX, the handles are such after a breakpoint is set, or refused, and after one is
  -- cleared.
  pub breakpoints-AreDistinct :
      (bp : Breakpoint) (handle : ℕ)
      → AreDistinct t
      → t.next_bp_id < 0x7fffffff
      → AreDistinct (dbg_set_breakpoint t bp).1 × AreDistinct (dbg_clear_breakpoint t handle)
  unfolding dbg_set_breakpoint dbg_clear_breakpoint
  breakpoints-AreDistinct bp handle h room = (
    if_keeps (λ (r : Option ℕ × Target B D). AreDistinct r.1)
        (is_watching bp.kind && ltb space_bit bp.watch_space) (none, t)
        (set_slot t bp (first_slot (is_free t) dbg_max_bp 0)) (λ e. h)
        (λ e. set_slot-AreDistinct bp (first_slot (is_free t) dbg_max_bp 0) h room),
    clear_slot-AreDistinct (first_slot (has_handle t handle) dbg_max_bp 0) h,
  )
