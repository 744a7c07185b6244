-- ===== src/Ops/Switch/Numbers.antt =====
-- The handlers numbered, so that two of them are compared by evaluation.
use emu8051_stc.Prelude.{ℕ, zero, suc, ◌≡◌, refl, ap, sym, ◌∙◌, List, [], ◌∷◌}
use emu8051_stc.Ops.Handler.{Op}

unfoldable pub op_number : Op → ℕ
op_number Op.inc_rx = 0
op_number Op.dec_rx = 1
op_number Op.add_a_rx = 2
op_number Op.addc_a_rx = 3
op_number Op.orl_a_rx = 4
op_number Op.anl_a_rx = 5
op_number Op.xrl_a_rx = 6
op_number Op.mov_rx_imm = 7
op_number Op.mov_mem_rx = 8
op_number Op.subb_a_rx = 9
op_number Op.mov_rx_mem = 10
op_number Op.cjne_rx_imm_offset = 11
op_number Op.xch_a_rx = 12
op_number Op.djnz_rx_offset = 13
op_number Op.mov_a_rx = 14
op_number Op.mov_rx_a = 15
op_number Op.nop = 16
op_number Op.ajmp_offset = 17
op_number Op.ljmp_address = 18
op_number Op.rr_a = 19
op_number Op.inc_a = 20
op_number Op.inc_mem = 21
op_number Op.inc_indir_rx = 22
op_number Op.jbc_bitaddr_offset = 23
op_number Op.acall_offset = 24
op_number Op.lcall_address = 25
op_number Op.rrc_a = 26
op_number Op.dec_a = 27
op_number Op.dec_mem = 28
op_number Op.dec_indir_rx = 29
op_number Op.jb_bitaddr_offset = 30
op_number Op.ret = 31
op_number Op.rl_a = 32
op_number Op.add_a_imm = 33
op_number Op.add_a_mem = 34
op_number Op.add_a_indir_rx = 35
op_number Op.jnb_bitaddr_offset = 36
op_number Op.reti = 37
op_number Op.rlc_a = 38
op_number Op.addc_a_imm = 39
op_number Op.addc_a_mem = 40
op_number Op.addc_a_indir_rx = 41
op_number Op.jc_offset = 42
op_number Op.orl_mem_a = 43
op_number Op.orl_mem_imm = 44
op_number Op.orl_a_imm = 45
op_number Op.orl_a_mem = 46
op_number Op.orl_a_indir_rx = 47
op_number Op.jnc_offset = 48
op_number Op.anl_mem_a = 49
op_number Op.anl_mem_imm = 50
op_number Op.anl_a_imm = 51
op_number Op.anl_a_mem = 52
op_number Op.anl_a_indir_rx = 53
op_number Op.jz_offset = 54
op_number Op.xrl_mem_a = 55
op_number Op.xrl_mem_imm = 56
op_number Op.xrl_a_imm = 57
op_number Op.xrl_a_mem = 58
op_number Op.xrl_a_indir_rx = 59
op_number Op.jnz_offset = 60
op_number Op.orl_c_bitaddr = 61
op_number Op.jmp_indir_a_dptr = 62
op_number Op.mov_a_imm = 63
op_number Op.mov_mem_imm = 64
op_number Op.mov_indir_rx_imm = 65
op_number Op.sjmp_offset = 66
op_number Op.anl_c_bitaddr = 67
op_number Op.movc_a_indir_a_pc = 68
op_number Op.div_ab = 69
op_number Op.mov_mem_mem = 70
op_number Op.mov_mem_indir_rx = 71
op_number Op.mov_dptr_imm = 72
op_number Op.mov_bitaddr_c = 73
op_number Op.movc_a_indir_a_dptr = 74
op_number Op.subb_a_imm = 75
op_number Op.subb_a_mem = 76
op_number Op.subb_a_indir_rx = 77
op_number Op.orl_c_compl_bitaddr = 78
op_number Op.mov_c_bitaddr = 79
op_number Op.inc_dptr = 80
op_number Op.mul_ab = 81
op_number Op.mov_indir_rx_mem = 82
op_number Op.anl_c_compl_bitaddr = 83
op_number Op.cpl_bitaddr = 84
op_number Op.cpl_c = 85
op_number Op.cjne_a_imm_offset = 86
op_number Op.cjne_a_mem_offset = 87
op_number Op.cjne_indir_rx_imm_offset = 88
op_number Op.push_mem = 89
op_number Op.clr_bitaddr = 90
op_number Op.clr_c = 91
op_number Op.swap_a = 92
op_number Op.xch_a_mem = 93
op_number Op.xch_a_indir_rx = 94
op_number Op.pop_mem = 95
op_number Op.setb_bitaddr = 96
op_number Op.setb_c = 97
op_number Op.da_a = 98
op_number Op.djnz_mem_offset = 99
op_number Op.xchd_a_indir_rx = 100
op_number Op.movx_a_indir_dptr = 101
op_number Op.movx_a_indir_rx = 102
op_number Op.clr_a = 103
op_number Op.mov_a_mem = 104
op_number Op.mov_a_indir_rx = 105
op_number Op.movx_indir_dptr_a = 106
op_number Op.movx_indir_rx_a = 107
op_number Op.cpl_a = 108
op_number Op.mov_mem_a = 109
op_number Op.mov_indir_rx_a = 110

nth : List Op → ℕ → Op
nth [] n = Op.nop
nth (o ∷ rest) zero = o
nth (o ∷ rest) (suc n) = nth rest n

all_ops : List Op
all_ops =
    Op.inc_rx ∷ Op.dec_rx ∷ Op.add_a_rx ∷ Op.addc_a_rx ∷ Op.orl_a_rx ∷ Op.anl_a_rx ∷ Op.xrl_a_rx
    ∷ Op.mov_rx_imm ∷ Op.mov_mem_rx ∷ Op.subb_a_rx ∷ Op.mov_rx_mem ∷ Op.cjne_rx_imm_offset
    ∷ Op.xch_a_rx ∷ Op.djnz_rx_offset ∷ Op.mov_a_rx ∷ Op.mov_rx_a ∷ Op.nop ∷ Op.ajmp_offset
    ∷ Op.ljmp_address ∷ Op.rr_a ∷ Op.inc_a ∷ Op.inc_mem ∷ Op.inc_indir_rx ∷ Op.jbc_bitaddr_offset
    ∷ Op.acall_offset ∷ Op.lcall_address ∷ Op.rrc_a ∷ Op.dec_a ∷ Op.dec_mem ∷ Op.dec_indir_rx
    ∷ Op.jb_bitaddr_offset ∷ Op.ret ∷ Op.rl_a ∷ Op.add_a_imm ∷ Op.add_a_mem ∷ Op.add_a_indir_rx
    ∷ Op.jnb_bitaddr_offset ∷ Op.reti ∷ Op.rlc_a ∷ Op.addc_a_imm ∷ Op.addc_a_mem
    ∷ Op.addc_a_indir_rx ∷ Op.jc_offset ∷ Op.orl_mem_a ∷ Op.orl_mem_imm ∷ Op.orl_a_imm
    ∷ Op.orl_a_mem ∷ Op.orl_a_indir_rx ∷ Op.jnc_offset ∷ Op.anl_mem_a ∷ Op.anl_mem_imm
    ∷ Op.anl_a_imm ∷ Op.anl_a_mem ∷ Op.anl_a_indir_rx ∷ Op.jz_offset ∷ Op.xrl_mem_a ∷ Op.xrl_mem_imm
    ∷ Op.xrl_a_imm ∷ Op.xrl_a_mem ∷ Op.xrl_a_indir_rx ∷ Op.jnz_offset ∷ Op.orl_c_bitaddr
    ∷ Op.jmp_indir_a_dptr ∷ Op.mov_a_imm ∷ Op.mov_mem_imm ∷ Op.mov_indir_rx_imm ∷ Op.sjmp_offset
    ∷ Op.anl_c_bitaddr ∷ Op.movc_a_indir_a_pc ∷ Op.div_ab ∷ Op.mov_mem_mem ∷ Op.mov_mem_indir_rx
    ∷ Op.mov_dptr_imm ∷ Op.mov_bitaddr_c ∷ Op.movc_a_indir_a_dptr ∷ Op.subb_a_imm ∷ Op.subb_a_mem
    ∷ Op.subb_a_indir_rx ∷ Op.orl_c_compl_bitaddr ∷ Op.mov_c_bitaddr ∷ Op.inc_dptr ∷ Op.mul_ab
    ∷ Op.mov_indir_rx_mem ∷ Op.anl_c_compl_bitaddr ∷ Op.cpl_bitaddr ∷ Op.cpl_c
    ∷ Op.cjne_a_imm_offset ∷ Op.cjne_a_mem_offset ∷ Op.cjne_indir_rx_imm_offset ∷ Op.push_mem
    ∷ Op.clr_bitaddr ∷ Op.clr_c ∷ Op.swap_a ∷ Op.xch_a_mem ∷ Op.xch_a_indir_rx ∷ Op.pop_mem
    ∷ Op.setb_bitaddr ∷ Op.setb_c ∷ Op.da_a ∷ Op.djnz_mem_offset ∷ Op.xchd_a_indir_rx
    ∷ Op.movx_a_indir_dptr ∷ Op.movx_a_indir_rx ∷ Op.clr_a ∷ Op.mov_a_mem ∷ Op.mov_a_indir_rx
    ∷ Op.movx_indir_dptr_a ∷ Op.movx_indir_rx_a ∷ Op.cpl_a ∷ Op.mov_mem_a ∷ Op.mov_indir_rx_a ∷ []

nth-op_number : (o : Op) → nth all_ops (op_number o) ≡ o
unfolding nth all_ops op_number
nth-op_number Op.inc_rx = refl
nth-op_number Op.dec_rx = refl
nth-op_number Op.add_a_rx = refl
nth-op_number Op.addc_a_rx = refl
nth-op_number Op.orl_a_rx = refl
nth-op_number Op.anl_a_rx = refl
nth-op_number Op.xrl_a_rx = refl
nth-op_number Op.mov_rx_imm = refl
nth-op_number Op.mov_mem_rx = refl
nth-op_number Op.subb_a_rx = refl
nth-op_number Op.mov_rx_mem = refl
nth-op_number Op.cjne_rx_imm_offset = refl
nth-op_number Op.xch_a_rx = refl
nth-op_number Op.djnz_rx_offset = refl
nth-op_number Op.mov_a_rx = refl
nth-op_number Op.mov_rx_a = refl
nth-op_number Op.nop = refl
nth-op_number Op.ajmp_offset = refl
nth-op_number Op.ljmp_address = refl
nth-op_number Op.rr_a = refl
nth-op_number Op.inc_a = refl
nth-op_number Op.inc_mem = refl
nth-op_number Op.inc_indir_rx = refl
nth-op_number Op.jbc_bitaddr_offset = refl
nth-op_number Op.acall_offset = refl
nth-op_number Op.lcall_address = refl
nth-op_number Op.rrc_a = refl
nth-op_number Op.dec_a = refl
nth-op_number Op.dec_mem = refl
nth-op_number Op.dec_indir_rx = refl
nth-op_number Op.jb_bitaddr_offset = refl
nth-op_number Op.ret = refl
nth-op_number Op.rl_a = refl
nth-op_number Op.add_a_imm = refl
nth-op_number Op.add_a_mem = refl
nth-op_number Op.add_a_indir_rx = refl
nth-op_number Op.jnb_bitaddr_offset = refl
nth-op_number Op.reti = refl
nth-op_number Op.rlc_a = refl
nth-op_number Op.addc_a_imm = refl
nth-op_number Op.addc_a_mem = refl
nth-op_number Op.addc_a_indir_rx = refl
nth-op_number Op.jc_offset = refl
nth-op_number Op.orl_mem_a = refl
nth-op_number Op.orl_mem_imm = refl
nth-op_number Op.orl_a_imm = refl
nth-op_number Op.orl_a_mem = refl
nth-op_number Op.orl_a_indir_rx = refl
nth-op_number Op.jnc_offset = refl
nth-op_number Op.anl_mem_a = refl
nth-op_number Op.anl_mem_imm = refl
nth-op_number Op.anl_a_imm = refl
nth-op_number Op.anl_a_mem = refl
nth-op_number Op.anl_a_indir_rx = refl
nth-op_number Op.jz_offset = refl
nth-op_number Op.xrl_mem_a = refl
nth-op_number Op.xrl_mem_imm = refl
nth-op_number Op.xrl_a_imm = refl
nth-op_number Op.xrl_a_mem = refl
nth-op_number Op.xrl_a_indir_rx = refl
nth-op_number Op.jnz_offset = refl
nth-op_number Op.orl_c_bitaddr = refl
nth-op_number Op.jmp_indir_a_dptr = refl
nth-op_number Op.mov_a_imm = refl
nth-op_number Op.mov_mem_imm = refl
nth-op_number Op.mov_indir_rx_imm = refl
nth-op_number Op.sjmp_offset = refl
nth-op_number Op.anl_c_bitaddr = refl
nth-op_number Op.movc_a_indir_a_pc = refl
nth-op_number Op.div_ab = refl
nth-op_number Op.mov_mem_mem = refl
nth-op_number Op.mov_mem_indir_rx = refl
nth-op_number Op.mov_dptr_imm = refl
nth-op_number Op.mov_bitaddr_c = refl
nth-op_number Op.movc_a_indir_a_dptr = refl
nth-op_number Op.subb_a_imm = refl
nth-op_number Op.subb_a_mem = refl
nth-op_number Op.subb_a_indir_rx = refl
nth-op_number Op.orl_c_compl_bitaddr = refl
nth-op_number Op.mov_c_bitaddr = refl
nth-op_number Op.inc_dptr = refl
nth-op_number Op.mul_ab = refl
nth-op_number Op.mov_indir_rx_mem = refl
nth-op_number Op.anl_c_compl_bitaddr = refl
nth-op_number Op.cpl_bitaddr = refl
nth-op_number Op.cpl_c = refl
nth-op_number Op.cjne_a_imm_offset = refl
nth-op_number Op.cjne_a_mem_offset = refl
nth-op_number Op.cjne_indir_rx_imm_offset = refl
nth-op_number Op.push_mem = refl
nth-op_number Op.clr_bitaddr = refl
nth-op_number Op.clr_c = refl
nth-op_number Op.swap_a = refl
nth-op_number Op.xch_a_mem = refl
nth-op_number Op.xch_a_indir_rx = refl
nth-op_number Op.pop_mem = refl
nth-op_number Op.setb_bitaddr = refl
nth-op_number Op.setb_c = refl
nth-op_number Op.da_a = refl
nth-op_number Op.djnz_mem_offset = refl
nth-op_number Op.xchd_a_indir_rx = refl
nth-op_number Op.movx_a_indir_dptr = refl
nth-op_number Op.movx_a_indir_rx = refl
nth-op_number Op.clr_a = refl
nth-op_number Op.mov_a_mem = refl
nth-op_number Op.mov_a_indir_rx = refl
nth-op_number Op.movx_indir_dptr_a = refl
nth-op_number Op.movx_indir_rx_a = refl
nth-op_number Op.cpl_a = refl
nth-op_number Op.mov_mem_a = refl
nth-op_number Op.mov_indir_rx_a = refl

pub op_number-injective : (o p : Op) → op_number o ≡ op_number p → o ≡ p
op_number-injective o p e = sym (nth-op_number o) ∙ ap (nth all_ops) e ∙ nth-op_number p
