-- ===== src/Ops/Switch/Agree.antt =====
-- The table of `op_setptrs` and the switch of `do_op` call the same handlers.
use emu8051_stc.Prelude.{
  ℕ, ◌<◌, ◌≡◌, refl, ap, sym, ◌==◌, ==_iff, Bool, true, false, Option, none, some,
}
use mathlib.Core.Bool.{false≢true}
use emu8051_stc.Prelude.Bits.{passes_below, passes_below_lem}
use emu8051_stc.Cpu.{Cpu, Hooks}
use emu8051_stc.Mem.{opcode}
use emu8051_stc.Ops.Handler.{Op}
use emu8051_stc.Ops.Table.{OpTable, op_setptrs}
use emu8051_stc.Ops.Switch.{switch_op, call, do_op}
use emu8051_stc.Ops.Switch.Numbers.{op_number, op_number-injective}

unfoldable pub same : Option Op → Option Op → Bool
same (some o) (some p) = op_number o == op_number p
same _ _ = false

pub same_sound : (x y : Option Op) → same x y ≡ true → (o : Op) × (x ≡ some o) × (y ≡ some o)
unfolding same
same_sound none y h = absurd (false≢true h)
same_sound (some o) none h = absurd (false≢true h)
same_sound (some o) (some p) h =
    (o, refl, ap some (op_number-injective p o (sym ((==_iff _ _).0 h))))

agree_table : (t : OpTable) → passes_below 256 (λ x. same (op_setptrs t x) (switch_op x)) ≡ true
unfolding passes_below same op_setptrs switch_op op_number
agree_table t = refl

-- For every opcode, `op_setptrs` sets the element of the table, whatever it held before, to the
-- handler that the switch of `do_op` calls.
pub op_setptrs-switch_op :
    (t : OpTable) (x : ℕ)
    → x < 0x100
    → (o : Op) × (op_setptrs t x ≡ some o) × (switch_op x ≡ some o)
op_setptrs-switch_op t x lt =
    same_sound _ _
      (passes_below_lem 256 (λ y. same (op_setptrs t y) (switch_op y)) x (agree_table t) lt)

-- `do_op` is the call through the table, at an opcode that is a byte.
pub do_op_lem :
    {E : Type 0} (hooks : Hooks E) (t : OpTable) (c : Cpu E)
    → opcode c < 0x100
    → do_op hooks c ≡ call hooks (op_setptrs t (opcode c)) c
unfolding do_op
do_op_lem hooks t c lt =
    let (o, in_table, in_switch) = op_setptrs-switch_op t (opcode c) lt in rw (in_table, in_switch)
