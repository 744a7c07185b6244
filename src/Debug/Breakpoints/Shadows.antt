-- ===== src/Debug/Breakpoints/Shadows.antt =====
-- debug.c: the shadows of the watches.
use emu8051_stc.Prelude.{
  ℕ, ◌<◌, ◌≡◌, ◌∙◌, inl, inr, refl, sym, ap, arith, ltb, ◌==◌, ==_iff, ◌&&◌, true, false, Option,
  none, some, List, [], ◌∷◌, if_true, if_false, if_keeps, Bool-cases, update,
}
use mathlib.Core.Bool.{false≢true}
use emu8051_stc.Debug.{Target, Breakpoint, bp_write, dbg_max_bp, space_bit}
use emu8051_stc.Debug.Memory.{watched}
use emu8051_stc.Debug.Control.{dbg_reset, reseeded}
use emu8051_stc.Debug.Breakpoints.{
  is_watching, first_slot, fill_slot, is_free, set_slot, dbg_set_breakpoint, has_handle, clear_slot,
  dbg_clear_breakpoint,
}
use emu8051_stc.Debug.Tick.{at_change, hit_of, bp_hit}
use emu8051_stc.Debug.Breakpoints.Laws.{fill_cases}
use emu8051_stc.Debug.Breakpoints.Handles.{emptied_cases}

-- The shadow of every active watch is the byte that it watches.
pub record IsSeeded {B D : Type 0} (t : Target B D) : Type 0 where
  pub shadow :
      (i : ℕ)
      → i < dbg_max_bp
      → (t.bps i).active ≡ true
      → is_watching (t.bps i).kind ≡ true
      → t.watch_shadow i ≡ watched t.cpu (t.bps i).watch_space (t.bps i).addr

update_here : (m : ℕ → ℕ) (v k i : ℕ) → i ≡ k → update m k v i ≡ v
update_here m v k i e = if_true (k == i) v (m i) ((==_iff k i).1 (sym e))

update_beside : (m : ℕ → ℕ) (v k i : ℕ) → (k == i) ≡ false → update m k v i ≡ m i
update_beside m v k i other = if_false (k == i) v (m i) other

module _ {B D : Type 0} (t : Target B D) where
  reseeded_lem :
      (i : ℕ)
      → i < dbg_max_bp
      → (t.bps i).active ≡ true
      → is_watching (t.bps i).kind ≡ true
      → reseeded t i ≡ watched t.cpu (t.bps i).watch_space (t.bps i).addr
  unfolding reseeded
  reseeded_lem i lt on watching =
      if_true ((t.bps i).active && is_watching (t.bps i).kind && ltb i dbg_max_bp) _
        (t.watch_shadow i) (rw (on, watching) (ground arith))

  -- A slot that is as before.
  as_before :
      IsSeeded t
      → (i : ℕ) → i < dbg_max_bp
      → (b : Breakpoint) → b ≡ t.bps i
      → b.active ≡ true
      → is_watching b.kind ≡ true
      → t.watch_shadow i ≡ watched t.cpu b.watch_space b.addr
  as_before h i lt b e on watching =
      h.shadow i lt (ap (λ (b : Breakpoint). b.active) (sym e) ∙ on)
        (ap (λ (b : Breakpoint). is_watching b.kind) (sym e) ∙ watching)
      ∙ ap (λ (b : Breakpoint). watched t.cpu b.watch_space b.addr) (sym e)

  fill_slot-IsSeeded : (k : ℕ) (bp : Breakpoint) → IsSeeded t → IsSeeded (fill_slot t k bp)
  unfolding fill_slot
  fill_slot-IsSeeded k bp h = record {
    shadow = λ i lt on watching. elim (fill_cases t k bp i) [
      | inl (here, e) ↦
          (let watches = ap (λ (b : Breakpoint). is_watching b.kind) (sym e) ∙ watching in
            ap (λ (m : ℕ → ℕ). m i)
              (if_true (is_watching bp.kind)
                (update t.watch_shadow k (watched t.cpu bp.watch_space bp.addr)) t.watch_shadow
                watches)
            ∙ update_here t.watch_shadow (watched t.cpu bp.watch_space bp.addr) k i here
            ∙ ap (λ (b : Breakpoint). watched t.cpu b.watch_space b.addr) (sym e))
      | inr (other, e) ↦
          (if_keeps (λ (m : ℕ → ℕ). m i ≡ t.watch_shadow i) (is_watching bp.kind)
              (update t.watch_shadow k (watched t.cpu bp.watch_space bp.addr)) t.watch_shadow
              (λ w. update_beside t.watch_shadow (watched t.cpu bp.watch_space bp.addr) k i other)
              (λ w. refl)
            ∙ as_before h i lt _ e on watching)
    ];
  }

  clear_slot-IsSeeded : (o : Option ℕ) → IsSeeded t → IsSeeded (clear_slot t o)
  unfolding clear_slot
  clear_slot-IsSeeded none h = h
  clear_slot-IsSeeded (some k) h = record {
    shadow = λ i lt on watching. elim (emptied_cases t k i) [
      | inl (here, off) ↦ absurd (false≢true (sym off ∙ on))
      | inr (other, e) ↦ as_before h i lt _ e on watching
    ];
  }

module _ {B D : Type 0} (t : Target B D) where
  set_slot-IsSeeded : (bp : Breakpoint) (o : Option ℕ) → IsSeeded t → IsSeeded (set_slot t bp o).1
  unfolding set_slot
  set_slot-IsSeeded bp none h = h
  set_slot-IsSeeded bp (some k) h = fill_slot-IsSeeded t k bp h

  dbg_set_breakpoint-IsSeeded :
      (bp : Breakpoint) → IsSeeded t → IsSeeded (dbg_set_breakpoint t bp).1
  unfolding dbg_set_breakpoint
  dbg_set_breakpoint-IsSeeded bp h =
      if_keeps (λ (r : Option ℕ × Target B D). IsSeeded r.1)
        (is_watching bp.kind && ltb space_bit bp.watch_space) (none, t)
        (set_slot t bp (first_slot (is_free t) dbg_max_bp 0)) (λ e. h)
        (λ e. set_slot-IsSeeded bp (first_slot (is_free t) dbg_max_bp 0) h)

  dbg_clear_breakpoint-IsSeeded :
      (handle : ℕ) → IsSeeded t → IsSeeded (dbg_clear_breakpoint t handle)
  unfolding dbg_clear_breakpoint
  dbg_clear_breakpoint-IsSeeded handle h =
      clear_slot-IsSeeded t (first_slot (has_handle t handle) dbg_max_bp 0) h

  dbg_reset-IsSeeded : (rand : ℕ) → IsSeeded (dbg_reset rand t)
  unfolding dbg_reset
  dbg_reset-IsSeeded rand = record { shadow = reseeded_lem _ }

-- What a front end does between two runs.
pub data Edit : Type 0 where
  set : Breakpoint → Edit
  clear : ℕ → Edit

-- The target after the edits of the list, from its head on.
unfoldable pub edited : {B D : Type 0} → Target B D → List Edit → Target B D
edited t [] = t
edited t (set bp ∷ edits) = edited (dbg_set_breakpoint t bp).1 edits
edited t (clear handle ∷ edits) = edited (dbg_clear_breakpoint t handle) edits

edited-IsSeeded :
    {B D : Type 0} (t : Target B D) (edits : List Edit) → IsSeeded t → IsSeeded (edited t edits)
unfolding edited
edited-IsSeeded t [] h = h
edited-IsSeeded t (set bp ∷ edits) h =
    edited-IsSeeded (dbg_set_breakpoint t bp).1 edits (dbg_set_breakpoint-IsSeeded t bp h)
edited-IsSeeded t (clear handle ∷ edits) h =
    edited-IsSeeded (dbg_clear_breakpoint t handle) edits (dbg_clear_breakpoint-IsSeeded t handle h)

module _ {B D : Type 0} (t : Target B D) (h : IsSeeded t) (i : ℕ) (lt : i < dbg_max_bp)
    (kind : (t.bps i).kind ≡ bp_write) where
  unchanged : (t.bps i).active ≡ true → at_change t i ≡ none
  unfolding at_change is_watching
  unchanged on =
      if_true (watched t.cpu (t.bps i).watch_space (t.bps i).addr == t.watch_shadow i) none _
        ((==_iff _ _).1 (sym (h.shadow i lt on (ap is_watching kind))))

  unhit : bp_hit t i ≡ none
  unfolding bp_hit hit_of
  unhit = elim (Bool-cases (t.bps i).active) [
    | inr off ↦ if_false (t.bps i).active (hit_of t (t.bps i).kind i) none off
    | inl on ↦
        if_true (t.bps i).active (hit_of t (t.bps i).kind i) none on
        ∙ ap (λ k. hit_of t k i) kind
        ∙ unchanged on
  ]

-- After a reset, whatever the state before, and any breakpoints that are then set, refused or
-- cleared, no watch for writes, in any of the 32 slots, has a hit to report.
pub bp_hit-dbg_reset :
    {B D : Type 0} (t : Target B D) (rand : ℕ) (edits : List Edit) (i : ℕ)
    → i < dbg_max_bp
    → ((edited (dbg_reset rand t) edits).bps i).kind ≡ bp_write
    → bp_hit (edited (dbg_reset rand t) edits) i ≡ none
bp_hit-dbg_reset t rand edits i lt kind =
    unhit (edited (dbg_reset rand t) edits)
      (edited-IsSeeded (dbg_reset rand t) edits (dbg_reset-IsSeeded t rand)) i lt kind
