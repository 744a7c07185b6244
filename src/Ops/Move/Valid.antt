-- ===== src/Ops/Move/Valid.antt =====
-- The data-moving handlers keep every field in its width.
use emu8051_stc.Prelude.{ℕ, ◌≡◌, refl, Option, none, some, bit_and}
use emu8051_stc.Cpu.{Cpu, Hooks, set_ext}
use emu8051_stc.Cpu.Valid.{IsValid, set_ext-IsValid}
use emu8051_stc.Mem.{acc, set_acc}
use emu8051_stc.Mem.Valid.{AreValid, valid_rules, set_acc-IsValid}
use emu8051_stc.Ops.Move.{
  mov_rx_imm, mov_mem_rx, mov_rx_mem, xch_a_rx, mov_a_rx, mov_rx_a, nop, mov_a_imm, mov_mem_imm,
  mov_indir_rx_imm, movc_a_indir_a_pc, mov_mem_mem, mov_mem_indir_rx, mov_dptr_imm,
  movc_a_indir_a_dptr, mov_indir_rx_mem, push_mem, xch_a_mem, xch_a_indir_rx, pop_mem,
  xchd_a_indir_rx, movx_a_indir_dptr, movx_a_indir_rx, mov_a_mem, mov_a_indir_rx, movx_indir_dptr_a,
  movx_indir_rx_a, mov_mem_a, mov_indir_rx_a, movx_load, movx_store, load_ext, store_ext,
}

module _ {E : Type 0} {c : Cpu E} (h : IsValid c) (address : ℕ) where
  load_ext-IsValid : IsValid (load_ext c address)
  unfolding load_ext
  load_ext-IsValid = go c.ext_data
    where
      go :
          (o : Option (ℕ → ℕ))
          → IsValid (
              let r : Cpu E = elim o [
                | none ↦ c
                | some m ↦ set_acc c (m (bit_and address c.ext_data_max_idx))
              ] in
              r)
      go none = h
      go (some m) = set_acc-IsValid h _

  store_ext-IsValid : IsValid (store_ext c address)
  unfolding store_ext
  store_ext-IsValid = go c.ext_data
    where
      go :
          (o : Option (ℕ → ℕ))
          → IsValid (
              let r : Cpu E = elim o [
                | none ↦ c
                | some _ ↦ set_ext c (bit_and address c.ext_data_max_idx) (acc c)
              ] in
              r)
      go none = h
      go (some m) = set_ext-IsValid h _ _

module _ {E : Type 0} {hooks : Hooks E} (ok : AreValid hooks) {c : Cpu E} (h : IsValid c)
    (address : ℕ) where
  movx_load-IsValid : IsValid (movx_load hooks c address)
  unfolding movx_load
  movx_load-IsValid = go hooks.xread refl
    where
      go :
          (o : Option (Cpu E → ℕ → ℕ × Cpu E))
          → hooks.xread ≡ o
          → IsValid (elim o [
            | none ↦ load_ext c address
            | some f ↦ set_acc (f c address).1 (f c address).0
          ])
      go none e = load_ext-IsValid h address
      go (some f) e = set_acc-IsValid (ok.xread_ok f c address e h).1 _

  movx_store-IsValid : IsValid (movx_store hooks c address)
  unfolding movx_store
  movx_store-IsValid = go hooks.xwrite refl
    where
      go :
          (o : Option (Cpu E → ℕ → ℕ → Cpu E))
          → hooks.xwrite ≡ o
          → IsValid (elim o [ none ↦ store_ext c address | some f ↦ f c address (acc c) ])
      go none e = store_ext-IsValid h address
      go (some f) e = ok.xwrite_ok f c address (acc c) e h

ruleset rules = (valid_rules, movx_load-IsValid, movx_store-IsValid)

module _ {E : Type 0} (c : Cpu E) (h : IsValid c) where
  pub mov_rx_imm-IsValid : IsValid (mov_rx_imm c).1
  unfolding mov_rx_imm
  mov_rx_imm-IsValid = search rules

  pub xch_a_rx-IsValid : IsValid (xch_a_rx c).1
  unfolding xch_a_rx
  xch_a_rx-IsValid = search rules

  pub mov_a_rx-IsValid : IsValid (mov_a_rx c).1
  unfolding mov_a_rx
  mov_a_rx-IsValid = search rules

  pub mov_rx_a-IsValid : IsValid (mov_rx_a c).1
  unfolding mov_rx_a
  mov_rx_a-IsValid = search rules

  pub mov_a_imm-IsValid : IsValid (mov_a_imm c).1
  unfolding mov_a_imm
  mov_a_imm-IsValid = search rules

  pub mov_indir_rx_imm-IsValid : IsValid (mov_indir_rx_imm c).1
  unfolding mov_indir_rx_imm
  mov_indir_rx_imm-IsValid = search rules

  pub movc_a_indir_a_pc-IsValid : IsValid (movc_a_indir_a_pc c).1
  unfolding movc_a_indir_a_pc
  movc_a_indir_a_pc-IsValid = search rules

  pub mov_dptr_imm-IsValid : IsValid (mov_dptr_imm c).1
  unfolding mov_dptr_imm
  mov_dptr_imm-IsValid = search rules

  pub movc_a_indir_a_dptr-IsValid : IsValid (movc_a_indir_a_dptr c).1
  unfolding movc_a_indir_a_dptr
  movc_a_indir_a_dptr-IsValid = search rules

  pub xch_a_indir_rx-IsValid : IsValid (xch_a_indir_rx c).1
  unfolding xch_a_indir_rx
  xch_a_indir_rx-IsValid = search rules

  pub xchd_a_indir_rx-IsValid : IsValid (xchd_a_indir_rx c).1
  unfolding xchd_a_indir_rx
  xchd_a_indir_rx-IsValid = search rules

  pub mov_a_indir_rx-IsValid : IsValid (mov_a_indir_rx c).1
  unfolding mov_a_indir_rx
  mov_a_indir_rx-IsValid = search rules

  pub mov_indir_rx_a-IsValid : IsValid (mov_indir_rx_a c).1
  unfolding mov_indir_rx_a
  mov_indir_rx_a-IsValid = search rules

module _ {E : Type 0} (hooks : Hooks E) (ok : AreValid hooks) (c : Cpu E) (h : IsValid c) where
  pub mov_mem_rx-IsValid : IsValid (mov_mem_rx hooks c).1
  unfolding mov_mem_rx
  mov_mem_rx-IsValid = search rules

  pub mov_rx_mem-IsValid : IsValid (mov_rx_mem hooks c).1
  unfolding mov_rx_mem
  mov_rx_mem-IsValid = search rules

  pub nop-IsValid : IsValid (nop hooks c).1
  unfolding nop
  nop-IsValid = search rules

  pub mov_mem_imm-IsValid : IsValid (mov_mem_imm hooks c).1
  unfolding mov_mem_imm
  mov_mem_imm-IsValid = search rules

  pub mov_mem_mem-IsValid : IsValid (mov_mem_mem hooks c).1
  unfolding mov_mem_mem
  mov_mem_mem-IsValid = search rules

  pub mov_mem_indir_rx-IsValid : IsValid (mov_mem_indir_rx hooks c).1
  unfolding mov_mem_indir_rx
  mov_mem_indir_rx-IsValid = search rules

  pub mov_indir_rx_mem-IsValid : IsValid (mov_indir_rx_mem hooks c).1
  unfolding mov_indir_rx_mem
  mov_indir_rx_mem-IsValid = search rules

  pub push_mem-IsValid : IsValid (push_mem hooks c).1
  unfolding push_mem
  push_mem-IsValid = search rules

  pub xch_a_mem-IsValid : IsValid (xch_a_mem hooks c).1
  unfolding xch_a_mem
  xch_a_mem-IsValid = search rules

  pub pop_mem-IsValid : IsValid (pop_mem hooks c).1
  unfolding pop_mem
  pop_mem-IsValid = search rules

  pub movx_a_indir_dptr-IsValid : IsValid (movx_a_indir_dptr hooks c).1
  unfolding movx_a_indir_dptr
  movx_a_indir_dptr-IsValid = search rules

  pub movx_a_indir_rx-IsValid : IsValid (movx_a_indir_rx hooks c).1
  unfolding movx_a_indir_rx
  movx_a_indir_rx-IsValid = search rules

  pub mov_a_mem-IsValid : IsValid (mov_a_mem hooks c).1
  unfolding mov_a_mem
  mov_a_mem-IsValid = search rules

  pub movx_indir_dptr_a-IsValid : IsValid (movx_indir_dptr_a hooks c).1
  unfolding movx_indir_dptr_a
  movx_indir_dptr_a-IsValid = search rules

  pub movx_indir_rx_a-IsValid : IsValid (movx_indir_rx_a hooks c).1
  unfolding movx_indir_rx_a
  movx_indir_rx_a-IsValid = search rules

  pub mov_mem_a-IsValid : IsValid (mov_mem_a hooks c).1
  unfolding mov_mem_a
  mov_mem_a-IsValid = search rules
