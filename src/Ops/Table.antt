-- ===== src/Ops/Table.antt =====
-- opcodes.c: `op_setptrs`, which fills the table of handlers.
use emu8051_stc.Prelude.{ℕ, zero, suc, ◌+◌, ◌==◌, if◌then◌else◌, Option, some, List, [], ◌∷◌}
use emu8051_stc.Ops.Handler.{Op}

-- The table `op`; `none` is an element that has not been set.
abbrev pub OpTable : Type 0
OpTable = ℕ → Option Op

unfoldable pub set_op : OpTable → ℕ → Op → OpTable
set_op t i o j = if i == j then some o else t j

unfoldable pub set_ops : OpTable → List (ℕ × Op) → OpTable
set_ops t [] = t
set_ops t ((i, o) ∷ rest) = set_ops (set_op t i o) rest

-- The stores of one round of the loop over the registers.
register_ops : ℕ → List (ℕ × Op)
register_ops i =
    (0x08 + i, Op.inc_rx)
    ∷ (0x18 + i, Op.dec_rx)
    ∷ (0x28 + i, Op.add_a_rx)
    ∷ (0x38 + i, Op.addc_a_rx)
    ∷ (0x48 + i, Op.orl_a_rx)
    ∷ (0x58 + i, Op.anl_a_rx)
    ∷ (0x68 + i, Op.xrl_a_rx)
    ∷ (0x78 + i, Op.mov_rx_imm)
    ∷ (0x88 + i, Op.mov_mem_rx)
    ∷ (0x98 + i, Op.subb_a_rx)
    ∷ (0xa8 + i, Op.mov_rx_mem)
    ∷ (0xb8 + i, Op.cjne_rx_imm_offset)
    ∷ (0xc8 + i, Op.xch_a_rx)
    ∷ (0xd8 + i, Op.djnz_rx_offset)
    ∷ (0xe8 + i, Op.mov_a_rx)
    ∷ (0xf8 + i, Op.mov_rx_a)
    ∷ []

-- `for (i = 0; i < 8; i++)`, with the rounds left.
register_loop : ℕ → ℕ → OpTable → OpTable
register_loop zero i t = t
register_loop (suc left) i t = register_loop left (i + 1) (set_ops t (register_ops i))

-- The stores after the loop.
single_ops : List (ℕ × Op)
single_ops =
    (0x00, Op.nop)
    ∷ (0x01, Op.ajmp_offset)
    ∷ (0x02, Op.ljmp_address)
    ∷ (0x03, Op.rr_a)
    ∷ (0x04, Op.inc_a)
    ∷ (0x05, Op.inc_mem)
    ∷ (0x06, Op.inc_indir_rx)
    ∷ (0x07, Op.inc_indir_rx)
    ∷ (0x10, Op.jbc_bitaddr_offset)
    ∷ (0x11, Op.acall_offset)
    ∷ (0x12, Op.lcall_address)
    ∷ (0x13, Op.rrc_a)
    ∷ (0x14, Op.dec_a)
    ∷ (0x15, Op.dec_mem)
    ∷ (0x16, Op.dec_indir_rx)
    ∷ (0x17, Op.dec_indir_rx)
    ∷ (0x20, Op.jb_bitaddr_offset)
    ∷ (0x21, Op.ajmp_offset)
    ∷ (0x22, Op.ret)
    ∷ (0x23, Op.rl_a)
    ∷ (0x24, Op.add_a_imm)
    ∷ (0x25, Op.add_a_mem)
    ∷ (0x26, Op.add_a_indir_rx)
    ∷ (0x27, Op.add_a_indir_rx)
    ∷ (0x30, Op.jnb_bitaddr_offset)
    ∷ (0x31, Op.acall_offset)
    ∷ (0x32, Op.reti)
    ∷ (0x33, Op.rlc_a)
    ∷ (0x34, Op.addc_a_imm)
    ∷ (0x35, Op.addc_a_mem)
    ∷ (0x36, Op.addc_a_indir_rx)
    ∷ (0x37, Op.addc_a_indir_rx)
    ∷ (0x40, Op.jc_offset)
    ∷ (0x41, Op.ajmp_offset)
    ∷ (0x42, Op.orl_mem_a)
    ∷ (0x43, Op.orl_mem_imm)
    ∷ (0x44, Op.orl_a_imm)
    ∷ (0x45, Op.orl_a_mem)
    ∷ (0x46, Op.orl_a_indir_rx)
    ∷ (0x47, Op.orl_a_indir_rx)
    ∷ (0x50, Op.jnc_offset)
    ∷ (0x51, Op.acall_offset)
    ∷ (0x52, Op.anl_mem_a)
    ∷ (0x53, Op.anl_mem_imm)
    ∷ (0x54, Op.anl_a_imm)
    ∷ (0x55, Op.anl_a_mem)
    ∷ (0x56, Op.anl_a_indir_rx)
    ∷ (0x57, Op.anl_a_indir_rx)
    ∷ (0x60, Op.jz_offset)
    ∷ (0x61, Op.ajmp_offset)
    ∷ (0x62, Op.xrl_mem_a)
    ∷ (0x63, Op.xrl_mem_imm)
    ∷ (0x64, Op.xrl_a_imm)
    ∷ (0x65, Op.xrl_a_mem)
    ∷ (0x66, Op.xrl_a_indir_rx)
    ∷ (0x67, Op.xrl_a_indir_rx)
    ∷ (0x70, Op.jnz_offset)
    ∷ (0x71, Op.acall_offset)
    ∷ (0x72, Op.orl_c_bitaddr)
    ∷ (0x73, Op.jmp_indir_a_dptr)
    ∷ (0x74, Op.mov_a_imm)
    ∷ (0x75, Op.mov_mem_imm)
    ∷ (0x76, Op.mov_indir_rx_imm)
    ∷ (0x77, Op.mov_indir_rx_imm)
    ∷ (0x80, Op.sjmp_offset)
    ∷ (0x81, Op.ajmp_offset)
    ∷ (0x82, Op.anl_c_bitaddr)
    ∷ (0x83, Op.movc_a_indir_a_pc)
    ∷ (0x84, Op.div_ab)
    ∷ (0x85, Op.mov_mem_mem)
    ∷ (0x86, Op.mov_mem_indir_rx)
    ∷ (0x87, Op.mov_mem_indir_rx)
    ∷ (0x90, Op.mov_dptr_imm)
    ∷ (0x91, Op.acall_offset)
    ∷ (0x92, Op.mov_bitaddr_c)
    ∷ (0x93, Op.movc_a_indir_a_dptr)
    ∷ (0x94, Op.subb_a_imm)
    ∷ (0x95, Op.subb_a_mem)
    ∷ (0x96, Op.subb_a_indir_rx)
    ∷ (0x97, Op.subb_a_indir_rx)
    ∷ (0xa0, Op.orl_c_compl_bitaddr)
    ∷ (0xa1, Op.ajmp_offset)
    ∷ (0xa2, Op.mov_c_bitaddr)
    ∷ (0xa3, Op.inc_dptr)
    ∷ (0xa4, Op.mul_ab)
    ∷ (0xa5, Op.nop)
    ∷ (0xa6, Op.mov_indir_rx_mem)
    ∷ (0xa7, Op.mov_indir_rx_mem)
    ∷ (0xb0, Op.anl_c_compl_bitaddr)
    ∷ (0xb1, Op.acall_offset)
    ∷ (0xb2, Op.cpl_bitaddr)
    ∷ (0xb3, Op.cpl_c)
    ∷ (0xb4, Op.cjne_a_imm_offset)
    ∷ (0xb5, Op.cjne_a_mem_offset)
    ∷ (0xb6, Op.cjne_indir_rx_imm_offset)
    ∷ (0xb7, Op.cjne_indir_rx_imm_offset)
    ∷ (0xc0, Op.push_mem)
    ∷ (0xc1, Op.ajmp_offset)
    ∷ (0xc2, Op.clr_bitaddr)
    ∷ (0xc3, Op.clr_c)
    ∷ (0xc4, Op.swap_a)
    ∷ (0xc5, Op.xch_a_mem)
    ∷ (0xc6, Op.xch_a_indir_rx)
    ∷ (0xc7, Op.xch_a_indir_rx)
    ∷ (0xd0, Op.pop_mem)
    ∷ (0xd1, Op.acall_offset)
    ∷ (0xd2, Op.setb_bitaddr)
    ∷ (0xd3, Op.setb_c)
    ∷ (0xd4, Op.da_a)
    ∷ (0xd5, Op.djnz_mem_offset)
    ∷ (0xd6, Op.xchd_a_indir_rx)
    ∷ (0xd7, Op.xchd_a_indir_rx)
    ∷ (0xe0, Op.movx_a_indir_dptr)
    ∷ (0xe1, Op.ajmp_offset)
    ∷ (0xe2, Op.movx_a_indir_rx)
    ∷ (0xe3, Op.movx_a_indir_rx)
    ∷ (0xe4, Op.clr_a)
    ∷ (0xe5, Op.mov_a_mem)
    ∷ (0xe6, Op.mov_a_indir_rx)
    ∷ (0xe7, Op.mov_a_indir_rx)
    ∷ (0xf0, Op.movx_indir_dptr_a)
    ∷ (0xf1, Op.acall_offset)
    ∷ (0xf2, Op.movx_indir_rx_a)
    ∷ (0xf3, Op.movx_indir_rx_a)
    ∷ (0xf4, Op.cpl_a)
    ∷ (0xf5, Op.mov_mem_a)
    ∷ (0xf6, Op.mov_indir_rx_a)
    ∷ (0xf7, Op.mov_indir_rx_a)
    ∷ []

unfoldable pub op_setptrs : OpTable → OpTable
unfolding set_op set_ops register_ops register_loop single_ops
op_setptrs t = set_ops (register_loop 8 0 t) single_ops
