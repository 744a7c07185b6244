-- ===== src/Debug/Memory.antt =====
-- debug.c: the accesses of the debugger to the memories, the registers and the tasks.
pub mod Laws
pub mod Buffer
use emu8051_stc.Prelude.{
  ℕ, ◌+◌, ◌-◌, ◌*◌, ◌/◌, ◌^◌, bit_and, bit_or, ltb, leb, ◌==◌, ◌&&◌, nonzero, if◌then◌else◌, Option,
  none, some, List, [], ◌∷◌, u8, u16, and_not, update,
}
use emu8051_stc.Cpu.{Cpu, set_sfr, set_lower, set_upper, set_ext}
use emu8051_stc.Cpu.Regs.{reg_acc, reg_b, reg_dph, reg_dpl, reg_sp, reg_psw}
use emu8051_stc.Debug.{Target, TaskPos, space_code, space_iram, space_sfr, space_xram, space_bit}

module _ {E : Type 0} (c : Cpu E) where
  -- A byte of the internal memory; 0 where there is no upper memory.
  unfoldable pub iram_byte : ℕ → ℕ
  iram_byte a =
      if ltb a 128 then c.lower_data a else elim c.upper_data [ none ↦ 0 | some m ↦ m (a - 128) ]

  unfoldable pub read_iram16 : ℕ → ℕ
  read_iram16 addr = bit_or (iram_byte addr) (iram_byte (addr + 1) * 0x100)

  -- The register that a bit from 0x80 on belongs to. C indexes below the array where the address
  -- is above 0xff and its bits 3 to 7 are less than 0x80; the index is 0 here.
  unfoldable pub bit_reg : ℕ → ℕ
  bit_reg a = bit_and a 0xf8 - 0x80

  -- A byte of a space as `dbg_read_mem` reads it, `none` where the space is none. `mExtData` is not
  -- tested in C; 0 is read here if it is NULL.
  unfoldable pub read_byte : ℕ → ℕ → Option ℕ
  read_byte space a =
      if space == space_code
      then some (if leb a c.code_mem_max_idx then c.code_mem a else 0)
      else if space == space_iram
      then some (iram_byte a)
      else if space == space_sfr
      then some (if leb 0x80 a && leb a 0xff then c.sfr (a - 0x80) else 0)
      else if space == space_xram
      then some
          (if leb a c.ext_data_max_idx then elim c.ext_data [ none ↦ 0 | some m ↦ m a ] else 0)
      else if space == space_bit
      then some (
          if ltb a 0x80
          then bit_and (c.lower_data (0x20 + a / 8) / 2 ^ bit_and a 7) 1
          else bit_and (c.sfr (bit_reg a) / 2 ^ bit_and a 7) 1)
      else none

  -- `if (value) *byte |= (1 << bit); else *byte &= ~(1 << bit);`
  unfoldable pub put_bit : ℕ → ℕ → ℕ → ℕ
  put_bit byte a value =
      if nonzero value then bit_or byte (2 ^ bit_and a 7) else and_not byte (2 ^ bit_and a 7)

  -- A byte as `dbg_write_mem` writes it.
  unfoldable pub write_byte : ℕ → ℕ → ℕ → Cpu E
  write_byte space a value =
      if space == space_code
      then (if leb a c.code_mem_max_idx
          then record c { code_mem = update c.code_mem a (u8 value) }
          else c)
      else if space == space_iram
      then (if ltb a 128
          then set_lower c a value
          else elim c.upper_data [ none ↦ c | some _ ↦ set_upper c (a - 128) value ])
      else if space == space_sfr
      then (if leb 0x80 a && leb a 0xff then set_sfr c (a - 0x80) value else c)
      else if space == space_xram
      then (if leb a c.ext_data_max_idx then set_ext c a value else c)
      else if space == space_bit
      then (if ltb a 0x80
          then set_lower c (0x20 + a / 8) (put_bit (c.lower_data (0x20 + a / 8)) a value)
          else set_sfr c (bit_reg a) (put_bit (c.sfr (bit_reg a)) a value))
      else c

-- The element of the buffer after a read: of no space, it stays as it is.
unfoldable pub taken : Option ℕ → ℕ → ℕ
taken none old = old
taken (some v) old = v

-- The loops over the buffer, which is a list; the address is of 16 bits.
unfoldable pub dbg_read_mem : {E : Type 0} → Cpu E → ℕ → ℕ → List ℕ → List ℕ
dbg_read_mem c space addr [] = []
dbg_read_mem c space addr (old ∷ buf) =
    taken (read_byte c space (u16 addr)) old ∷ dbg_read_mem c space (addr + 1) buf

unfoldable pub dbg_write_mem : {E : Type 0} → Cpu E → ℕ → ℕ → List ℕ → Cpu E
dbg_write_mem c space addr [] = c
dbg_write_mem c space addr (value ∷ buf) =
    dbg_write_mem (write_byte c space (u16 addr) value) space (addr + 1) buf

-- `uint8_t val = 0; dbg_read_mem(t, space, addr, &val, 1);`
unfoldable pub watched : {E : Type 0} → Cpu E → ℕ → ℕ → ℕ
watched c space addr = taken (read_byte c space (u16 addr)) 0

unfoldable pub task : List TaskPos → ℕ → Option TaskPos
task [] n = none
task (p ∷ ps) n = let later = task ps (n - 1) in if n == 0 then some p else later

module _ {B D : Type 0} (t : Target B D) where
  unfoldable pub dbg_get_pc : ℕ
  dbg_get_pc = t.cpu.pc

  unfoldable pub dbg_get_acc : ℕ
  dbg_get_acc = t.cpu.sfr reg_acc

  unfoldable pub dbg_get_b : ℕ
  dbg_get_b = t.cpu.sfr reg_b

  unfoldable pub dbg_get_dptr : ℕ
  dbg_get_dptr = bit_or (t.cpu.sfr reg_dph * 0x100) (t.cpu.sfr reg_dpl)

  unfoldable pub dbg_get_sp : ℕ
  dbg_get_sp = t.cpu.sfr reg_sp

  unfoldable pub dbg_get_psw : ℕ
  dbg_get_psw = t.cpu.sfr reg_psw

  unfoldable pub dbg_get_rn : ℕ → ℕ
  dbg_get_rn n = t.cpu.lower_data (bit_and (t.cpu.sfr reg_psw / 8) 0x03 * 8 + bit_and n 7)

  unfoldable pub dbg_get_bw_ms : ℕ
  dbg_get_bw_ms = if t.syms.bw_ms_addr == 0 then 0 else read_iram16 t.cpu t.syms.bw_ms_addr

  -- A negative index is, like one past the end, no task.
  unfoldable pub dbg_get_task_state : ℕ → ℕ
  dbg_get_task_state task_idx = elim (task t.syms.tasks task_idx) [
    | none ↦ 0xffff
    | some p ↦ read_iram16 t.cpu p.state_addr
  ]

  unfoldable pub dbg_get_task_until : ℕ → ℕ
  dbg_get_task_until task_idx = elim (task t.syms.tasks task_idx) [
    | none ↦ 0
    | some p ↦ if p.until_addr == 0 then 0 else read_iram16 t.cpu p.until_addr
  ]
