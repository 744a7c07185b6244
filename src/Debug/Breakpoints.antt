-- ===== src/Debug/Breakpoints.antt =====
-- debug.c: setting and clearing breakpoints.
pub mod Laws
pub mod Handles
pub mod Cleared
pub mod Shadows
use emu8051_stc.Prelude.{
  ℕ, zero, suc, ◌+◌, ◌==◌, ltb, not, ◌&&◌, if◌then◌else◌, Bool, true, false, Option, none, some,
  update,
}
use emu8051_stc.Debug.{
  Target, Breakpoint, BpKind, bp_code, bp_yield, bp_write, bp_read, dbg_max_bp, space_bit,
}
use emu8051_stc.Stc.{u32}
use emu8051_stc.Debug.Memory.{watched}

-- Whether the breakpoint watches a byte.
unfoldable pub is_watching : BpKind → Bool
is_watching bp_code = false
is_watching bp_yield = false
is_watching bp_write = true
is_watching bp_read = true

-- `bps[i] = bp`.
unfoldable pub update_bp : (ℕ → Breakpoint) → ℕ → Breakpoint → ℕ → Breakpoint
update_bp bps i bp j = if i == j then bp else bps j

-- The first slot from `i` on, of so many, that passes the test.
unfoldable pub first_slot : (ℕ → Bool) → ℕ → ℕ → Option ℕ
first_slot test zero i = none
first_slot test (suc left) i =
    let later = first_slot test left (i + 1) in if test i then some i else later

module _ {B D : Type 0} (t : Target B D) where
  -- A handle is an `int`, here the number of its 32 bits. C does not define the increment of INT_MAX;
  -- here it is that of the bits.
  unfoldable pub fill_slot : ℕ → Breakpoint → Target B D
  fill_slot i bp =
      let set = record bp { id = t.next_bp_id; active = true } in
      let value = watched t.cpu bp.watch_space bp.addr in
      record t {
        bps = update_bp t.bps i set;
        next_bp_id = u32 (t.next_bp_id + 1);
        watch_shadow =
            if is_watching bp.kind then update t.watch_shadow i value else t.watch_shadow;
      }

  unfoldable pub is_free : ℕ → Bool
  is_free i = not (t.bps i).active

  -- The handle, `none` for -1, where the first free slot is given.
  unfoldable pub set_slot : Breakpoint → Option ℕ → Option ℕ × Target B D
  set_slot bp none = (none, t)
  set_slot bp (some i) = (some t.next_bp_id, fill_slot i bp)

  unfoldable pub dbg_set_breakpoint : Breakpoint → Option ℕ × Target B D
  dbg_set_breakpoint bp =
      if is_watching bp.kind && ltb space_bit bp.watch_space
      then (none, t)
      else set_slot bp (first_slot is_free dbg_max_bp 0)

  unfoldable pub has_handle : ℕ → ℕ → Bool
  has_handle handle i = (t.bps i).active && (t.bps i).id == handle

  unfoldable pub clear_slot : Option ℕ → Target B D
  clear_slot none = t
  clear_slot (some i) = record t { bps = update_bp t.bps i (record (t.bps i) { active = false }) }

  unfoldable pub dbg_clear_breakpoint : ℕ → Target B D
  dbg_clear_breakpoint handle = clear_slot (first_slot (has_handle handle) dbg_max_bp 0)
