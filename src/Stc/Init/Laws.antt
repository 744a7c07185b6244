-- ===== src/Stc/Init/Laws.antt =====
-- What a rebinding of the callbacks keeps.
use emu8051_stc.Prelude.{◌≡◌, refl, ◌==◌, if_both}
use emu8051_stc.Cpu.{Cpu, Hooks, set_sfr}
use emu8051_stc.Stc.{Stc, set_stc, part_stc89}
use emu8051_stc.Stc.Init.{rebind_callbacks, stc12_init, clear_hooks, reset_sfrs}

module _ {B : Type 0} (h : Hooks (Stc B)) (c : Cpu (Stc B)) where
  abbrev restore : Cpu (Stc B) → Cpu (Stc B)
  restore d = set_stc (record d { sfr = c.sfr }) c.env

  restored : restore (stc12_init (clear_hooks h, c)).1 ≡ c
  unfolding stc12_init set_stc reset_sfrs set_sfr
  restored = if_both restore c (c.env.part_id == part_stc89) _ _ refl refl

  -- A rebinding keeps the machine, its registers and peripherals too, though it goes through the
  -- initialisation.
  rebind_callbacks-machine : (rebind_callbacks (h, c)).1 ≡ c
  unfolding rebind_callbacks
  rebind_callbacks-machine =
      let machine : Hooks (Stc B) × Cpu (Stc B) → Cpu (Stc B) = λ m. m.1 in
      if_both machine c c.env.stc12_mode
        ((stc12_init (clear_hooks h, c)).0, restore (stc12_init (clear_hooks h, c)).1)
        (clear_hooks h, c) restored refl
