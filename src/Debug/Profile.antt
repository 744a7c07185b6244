-- ===== src/Debug/Profile.antt =====
-- debug.c: the histogram of the counter.
use emu8051_stc.Prelude.{
  ℕ, ◌+◌, bit_and, if◌then◌else◌, true, false, Bool, ◌&&◌, Option, none, some, update,
}
use emu8051_stc.Stc.{u32}
use emu8051_stc.Debug.{Target}

module _ {B D : Type 0} (t : Target B D) where
  unfoldable pub dbg_profile_start : Target B D
  dbg_profile_start = record t { pc_histogram = some (λ i. 0); profile_total = 0; profiling = true }

  unfoldable pub dbg_profile_stop : Target B D
  dbg_profile_stop = record t { profiling = false }

  unfoldable pub dbg_profile_get : ℕ → ℕ
  dbg_profile_get addr = elim t.pc_histogram [ none ↦ 0 | some m ↦ m addr ]

  unfoldable pub dbg_profile_total : ℕ
  dbg_profile_total = t.profile_total

  -- `t->profiling && t->pc_histogram`.
  unfoldable pub counts_pc : Bool
  counts_pc = t.profiling && elim t.pc_histogram [ none ↦ false | some m ↦ true ]

  unfoldable pub histogram_after : Option (ℕ → ℕ)
  histogram_after = elim t.pc_histogram [
    | none ↦ none
    | some m ↦ (let i = bit_and t.cpu.pc 0xffff in some (update m i (u32 (m i + 1))))
  ]

  -- The count of an instruction in `dbg_tick`.
  unfoldable pub profile : Target B D
  profile = record t {
    pc_histogram = if counts_pc then histogram_after else t.pc_histogram;
    profile_total = if counts_pc then u32 (t.profile_total + 1) else t.profile_total;
  }
