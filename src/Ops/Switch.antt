-- ===== src/Ops/Switch.antt =====
-- opcodes.c: `do_op`, which finds the handler by a switch.
use emu8051_stc.Prelude.{ℕ, ◌==◌, leb, ◌&&◌, if◌then◌else◌, Option, none, some, List, [], ◌∷◌}
use emu8051_stc.Cpu.{Cpu, Hooks}
use emu8051_stc.Mem.{opcode}
use emu8051_stc.Ops.Handler.{Op, exec}
pub mod Numbers
pub mod Agree

-- The cases of the switch: the first and the last label, and the handler.
switch_cases : List (ℕ × ℕ × Op)
switch_cases =
    (0x00, 0x00, Op.nop)
    ∷ (0x01, 0x01, Op.ajmp_offset)
    ∷ (0x02, 0x02, Op.ljmp_address)
    ∷ (0x03, 0x03, Op.rr_a)
    ∷ (0x04, 0x04, Op.inc_a)
    ∷ (0x05, 0x05, Op.inc_mem)
    ∷ (0x06, 0x06, Op.inc_indir_rx)
    ∷ (0x07, 0x07, Op.inc_indir_rx)
    ∷ (0x08, 0x0f, Op.inc_rx)
    ∷ (0x10, 0x10, Op.jbc_bitaddr_offset)
    ∷ (0x11, 0x11, Op.acall_offset)
    ∷ (0x12, 0x12, Op.lcall_address)
    ∷ (0x13, 0x13, Op.rrc_a)
    ∷ (0x14, 0x14, Op.dec_a)
    ∷ (0x15, 0x15, Op.dec_mem)
    ∷ (0x16, 0x16, Op.dec_indir_rx)
    ∷ (0x17, 0x17, Op.dec_indir_rx)
    ∷ (0x18, 0x1f, Op.dec_rx)
    ∷ (0x20, 0x20, Op.jb_bitaddr_offset)
    ∷ (0x21, 0x21, Op.ajmp_offset)
    ∷ (0x22, 0x22, Op.ret)
    ∷ (0x23, 0x23, Op.rl_a)
    ∷ (0x24, 0x24, Op.add_a_imm)
    ∷ (0x25, 0x25, Op.add_a_mem)
    ∷ (0x26, 0x26, Op.add_a_indir_rx)
    ∷ (0x27, 0x27, Op.add_a_indir_rx)
    ∷ (0x28, 0x2f, Op.add_a_rx)
    ∷ (0x30, 0x30, Op.jnb_bitaddr_offset)
    ∷ (0x31, 0x31, Op.acall_offset)
    ∷ (0x32, 0x32, Op.reti)
    ∷ (0x33, 0x33, Op.rlc_a)
    ∷ (0x34, 0x34, Op.addc_a_imm)
    ∷ (0x35, 0x35, Op.addc_a_mem)
    ∷ (0x36, 0x36, Op.addc_a_indir_rx)
    ∷ (0x37, 0x37, Op.addc_a_indir_rx)
    ∷ (0x38, 0x3f, Op.addc_a_rx)
    ∷ (0x40, 0x40, Op.jc_offset)
    ∷ (0x41, 0x41, Op.ajmp_offset)
    ∷ (0x42, 0x42, Op.orl_mem_a)
    ∷ (0x43, 0x43, Op.orl_mem_imm)
    ∷ (0x44, 0x44, Op.orl_a_imm)
    ∷ (0x45, 0x45, Op.orl_a_mem)
    ∷ (0x46, 0x46, Op.orl_a_indir_rx)
    ∷ (0x47, 0x47, Op.orl_a_indir_rx)
    ∷ (0x48, 0x4f, Op.orl_a_rx)
    ∷ (0x50, 0x50, Op.jnc_offset)
    ∷ (0x51, 0x51, Op.acall_offset)
    ∷ (0x52, 0x52, Op.anl_mem_a)
    ∷ (0x53, 0x53, Op.anl_mem_imm)
    ∷ (0x54, 0x54, Op.anl_a_imm)
    ∷ (0x55, 0x55, Op.anl_a_mem)
    ∷ (0x56, 0x56, Op.anl_a_indir_rx)
    ∷ (0x57, 0x57, Op.anl_a_indir_rx)
    ∷ (0x58, 0x5f, Op.anl_a_rx)
    ∷ (0x60, 0x60, Op.jz_offset)
    ∷ (0x61, 0x61, Op.ajmp_offset)
    ∷ (0x62, 0x62, Op.xrl_mem_a)
    ∷ (0x63, 0x63, Op.xrl_mem_imm)
    ∷ (0x64, 0x64, Op.xrl_a_imm)
    ∷ (0x65, 0x65, Op.xrl_a_mem)
    ∷ (0x66, 0x66, Op.xrl_a_indir_rx)
    ∷ (0x67, 0x67, Op.xrl_a_indir_rx)
    ∷ (0x68, 0x6f, Op.xrl_a_rx)
    ∷ (0x70, 0x70, Op.jnz_offset)
    ∷ (0x71, 0x71, Op.acall_offset)
    ∷ (0x72, 0x72, Op.orl_c_bitaddr)
    ∷ (0x73, 0x73, Op.jmp_indir_a_dptr)
    ∷ (0x74, 0x74, Op.mov_a_imm)
    ∷ (0x75, 0x75, Op.mov_mem_imm)
    ∷ (0x76, 0x76, Op.mov_indir_rx_imm)
    ∷ (0x77, 0x77, Op.mov_indir_rx_imm)
    ∷ (0x78, 0x7f, Op.mov_rx_imm)
    ∷ (0x80, 0x80, Op.sjmp_offset)
    ∷ (0x81, 0x81, Op.ajmp_offset)
    ∷ (0x82, 0x82, Op.anl_c_bitaddr)
    ∷ (0x83, 0x83, Op.movc_a_indir_a_pc)
    ∷ (0x84, 0x84, Op.div_ab)
    ∷ (0x85, 0x85, Op.mov_mem_mem)
    ∷ (0x86, 0x86, Op.mov_mem_indir_rx)
    ∷ (0x87, 0x87, Op.mov_mem_indir_rx)
    ∷ (0x88, 0x8f, Op.mov_mem_rx)
    ∷ (0x90, 0x90, Op.mov_dptr_imm)
    ∷ (0x91, 0x91, Op.acall_offset)
    ∷ (0x92, 0x92, Op.mov_bitaddr_c)
    ∷ (0x93, 0x93, Op.movc_a_indir_a_dptr)
    ∷ (0x94, 0x94, Op.subb_a_imm)
    ∷ (0x95, 0x95, Op.subb_a_mem)
    ∷ (0x96, 0x96, Op.subb_a_indir_rx)
    ∷ (0x97, 0x97, Op.subb_a_indir_rx)
    ∷ (0x98, 0x9f, Op.subb_a_rx)
    ∷ (0xa0, 0xa0, Op.orl_c_compl_bitaddr)
    ∷ (0xa1, 0xa1, Op.ajmp_offset)
    ∷ (0xa2, 0xa2, Op.mov_c_bitaddr)
    ∷ (0xa3, 0xa3, Op.inc_dptr)
    ∷ (0xa4, 0xa4, Op.mul_ab)
    ∷ (0xa5, 0xa5, Op.nop)
    ∷ (0xa6, 0xa6, Op.mov_indir_rx_mem)
    ∷ (0xa7, 0xa7, Op.mov_indir_rx_mem)
    ∷ (0xa8, 0xaf, Op.mov_rx_mem)
    ∷ (0xb0, 0xb0, Op.anl_c_compl_bitaddr)
    ∷ (0xb1, 0xb1, Op.acall_offset)
    ∷ (0xb2, 0xb2, Op.cpl_bitaddr)
    ∷ (0xb3, 0xb3, Op.cpl_c)
    ∷ (0xb4, 0xb4, Op.cjne_a_imm_offset)
    ∷ (0xb5, 0xb5, Op.cjne_a_mem_offset)
    ∷ (0xb6, 0xb6, Op.cjne_indir_rx_imm_offset)
    ∷ (0xb7, 0xb7, Op.cjne_indir_rx_imm_offset)
    ∷ (0xb8, 0xbf, Op.cjne_rx_imm_offset)
    ∷ (0xc0, 0xc0, Op.push_mem)
    ∷ (0xc1, 0xc1, Op.ajmp_offset)
    ∷ (0xc2, 0xc2, Op.clr_bitaddr)
    ∷ (0xc3, 0xc3, Op.clr_c)
    ∷ (0xc4, 0xc4, Op.swap_a)
    ∷ (0xc5, 0xc5, Op.xch_a_mem)
    ∷ (0xc6, 0xc6, Op.xch_a_indir_rx)
    ∷ (0xc7, 0xc7, Op.xch_a_indir_rx)
    ∷ (0xc8, 0xcf, Op.xch_a_rx)
    ∷ (0xd0, 0xd0, Op.pop_mem)
    ∷ (0xd1, 0xd1, Op.acall_offset)
    ∷ (0xd2, 0xd2, Op.setb_bitaddr)
    ∷ (0xd3, 0xd3, Op.setb_c)
    ∷ (0xd4, 0xd4, Op.da_a)
    ∷ (0xd5, 0xd5, Op.djnz_mem_offset)
    ∷ (0xd6, 0xd6, Op.xchd_a_indir_rx)
    ∷ (0xd7, 0xd7, Op.xchd_a_indir_rx)
    ∷ (0xd8, 0xdf, Op.djnz_rx_offset)
    ∷ (0xe0, 0xe0, Op.movx_a_indir_dptr)
    ∷ (0xe1, 0xe1, Op.ajmp_offset)
    ∷ (0xe2, 0xe2, Op.movx_a_indir_rx)
    ∷ (0xe3, 0xe3, Op.movx_a_indir_rx)
    ∷ (0xe4, 0xe4, Op.clr_a)
    ∷ (0xe5, 0xe5, Op.mov_a_mem)
    ∷ (0xe6, 0xe6, Op.mov_a_indir_rx)
    ∷ (0xe7, 0xe7, Op.mov_a_indir_rx)
    ∷ (0xe8, 0xef, Op.mov_a_rx)
    ∷ (0xf0, 0xf0, Op.movx_indir_dptr_a)
    ∷ (0xf1, 0xf1, Op.acall_offset)
    ∷ (0xf2, 0xf2, Op.movx_indir_rx_a)
    ∷ (0xf3, 0xf3, Op.movx_indir_rx_a)
    ∷ (0xf4, 0xf4, Op.cpl_a)
    ∷ (0xf5, 0xf5, Op.mov_mem_a)
    ∷ (0xf6, 0xf6, Op.mov_indir_rx_a)
    ∷ (0xf7, 0xf7, Op.mov_indir_rx_a)
    ∷ (0xf8, 0xff, Op.mov_rx_a)
    ∷ []

find_case : ℕ → List (ℕ × ℕ × Op) → Option Op
find_case x [] = none
find_case x ((first, last, o) ∷ rest) =
    if leb first x && leb x last then some o else find_case x rest

unfoldable pub switch_op : ℕ → Option Op
unfolding switch_cases find_case
switch_op x = find_case x switch_cases

-- A switch that no case fits returns 0. The call of an element of the table that has not been set,
-- which C does not define, does the same here.
unfoldable pub call : {E : Type 0} → Hooks E → Option Op → Cpu E → ℕ × Cpu E
call hooks none c = (0, c)
call hooks (some o) c = exec hooks o c

unfoldable pub do_op : {E : Type 0} → Hooks E → Cpu E → ℕ × Cpu E
do_op hooks c = call hooks (switch_op (opcode c)) c
