-- ===== src/Cpu/Regs.antt =====
-- emu8051.h: the enumerations `SFR_REGS`, `PSW_MASKS`, `IE_MASKS`, … A register's number is its
-- index in `mSFR`, its address less 0x80.
use emu8051_stc.Prelude.{ℕ}

abbrev pub reg_acc : ℕ
reg_acc = 0x60

abbrev pub reg_b : ℕ
reg_b = 0x70

abbrev pub reg_psw : ℕ
reg_psw = 0x50

abbrev pub reg_sp : ℕ
reg_sp = 0x01

abbrev pub reg_dpl : ℕ
reg_dpl = 0x02

abbrev pub reg_dph : ℕ
reg_dph = 0x03

abbrev pub reg_p0 : ℕ
reg_p0 = 0x00

abbrev pub reg_p1 : ℕ
reg_p1 = 0x10

abbrev pub reg_p2 : ℕ
reg_p2 = 0x20

abbrev pub reg_p3 : ℕ
reg_p3 = 0x30

abbrev pub reg_ip : ℕ
reg_ip = 0x38

abbrev pub reg_ie : ℕ
reg_ie = 0x28

abbrev pub reg_tmod : ℕ
reg_tmod = 0x09

abbrev pub reg_tcon : ℕ
reg_tcon = 0x08

abbrev pub reg_th0 : ℕ
reg_th0 = 0x0c

abbrev pub reg_tl0 : ℕ
reg_tl0 = 0x0a

abbrev pub reg_th1 : ℕ
reg_th1 = 0x0d

abbrev pub reg_tl1 : ℕ
reg_tl1 = 0x0b

abbrev pub reg_scon : ℕ
reg_scon = 0x18

abbrev pub reg_sbuf : ℕ
reg_sbuf = 0x19

abbrev pub reg_pcon : ℕ
reg_pcon = 0x07

abbrev pub psw_ov : ℕ
psw_ov = 0x04

abbrev pub psw_rs : ℕ
psw_rs = 0x18

abbrev pub psw_ac : ℕ
psw_ac = 0x40

abbrev pub psw_c : ℕ
psw_c = 0x80

-- `enum EM8051_EXCEPTION`.
abbrev pub exception_stack : ℕ
exception_stack = 0

abbrev pub exception_acc_to_a : ℕ
exception_acc_to_a = 1

abbrev pub exception_iret_psw_mismatch : ℕ
exception_iret_psw_mismatch = 2

abbrev pub exception_iret_sp_mismatch : ℕ
exception_iret_sp_mismatch = 3

abbrev pub exception_iret_acc_mismatch : ℕ
exception_iret_acc_mismatch = 4

abbrev pub exception_illegal_opcode : ℕ
exception_illegal_opcode = 5
