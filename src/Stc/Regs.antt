-- ===== src/Stc/Regs.antt =====
-- stc12.h: the registers of the STC parts, by their address less 0x80, and the masks of their bits.
use emu8051_stc.Prelude.{ℕ}

abbrev pub reg_auxr : ℕ
reg_auxr = 0x0e

abbrev pub reg_auxr1 : ℕ
reg_auxr1 = 0x22

abbrev pub reg_clk_div : ℕ
reg_clk_div = 0x17

abbrev pub reg_p1m1 : ℕ
reg_p1m1 = 0x11

abbrev pub reg_p1m0 : ℕ
reg_p1m0 = 0x12

abbrev pub reg_p0m1 : ℕ
reg_p0m1 = 0x13

abbrev pub reg_p0m0 : ℕ
reg_p0m0 = 0x14

abbrev pub reg_p2m1 : ℕ
reg_p2m1 = 0x15

abbrev pub reg_p2m0 : ℕ
reg_p2m0 = 0x16

abbrev pub reg_p3m1 : ℕ
reg_p3m1 = 0x31

abbrev pub reg_p3m0 : ℕ
reg_p3m0 = 0x32

abbrev pub reg_p4m1 : ℕ
reg_p4m1 = 0x33

abbrev pub reg_p4m0 : ℕ
reg_p4m0 = 0x34

abbrev pub reg_p5m1 : ℕ
reg_p5m1 = 0x49

abbrev pub reg_p5m0 : ℕ
reg_p5m0 = 0x4a

abbrev pub reg_p4 : ℕ
reg_p4 = 0x40

abbrev pub reg_p5 : ℕ
reg_p5 = 0x48

abbrev pub reg_adc_contr : ℕ
reg_adc_contr = 0x3c

abbrev pub reg_adc_res : ℕ
reg_adc_res = 0x3d

abbrev pub reg_adc_resl : ℕ
reg_adc_resl = 0x3e

abbrev pub reg_p1asf : ℕ
reg_p1asf = 0x1d

abbrev pub reg_ccon : ℕ
reg_ccon = 0x58

abbrev pub reg_cmod : ℕ
reg_cmod = 0x59

abbrev pub reg_ccapm0 : ℕ
reg_ccapm0 = 0x5a

abbrev pub reg_ccapm1 : ℕ
reg_ccapm1 = 0x5b

abbrev pub reg_ccapm2 : ℕ
reg_ccapm2 = 0x5c

abbrev pub reg_cl : ℕ
reg_cl = 0x69

abbrev pub reg_ch : ℕ
reg_ch = 0x79

abbrev pub reg_ccap0l : ℕ
reg_ccap0l = 0x6a

abbrev pub reg_ccap0h : ℕ
reg_ccap0h = 0x7a

abbrev pub reg_ccap1l : ℕ
reg_ccap1l = 0x6b

abbrev pub reg_ccap1h : ℕ
reg_ccap1h = 0x7b

abbrev pub reg_ccap2l : ℕ
reg_ccap2l = 0x6c

abbrev pub reg_ccap2h : ℕ
reg_ccap2h = 0x7c

abbrev pub reg_pca_pwm0 : ℕ
reg_pca_pwm0 = 0x72

abbrev pub reg_pca_pwm1 : ℕ
reg_pca_pwm1 = 0x73

abbrev pub reg_pca_pwm2 : ℕ
reg_pca_pwm2 = 0x74

abbrev pub reg_spctl : ℕ
reg_spctl = 0x05

abbrev pub reg_spdat : ℕ
reg_spdat = 0x06

abbrev pub reg_spstat : ℕ
reg_spstat = 0x4e

abbrev pub reg15_spstat : ℕ
reg15_spstat = 0x4d

abbrev pub reg15_spctl : ℕ
reg15_spctl = 0x4e

abbrev pub reg15_spdat : ℕ
reg15_spdat = 0x4f

abbrev pub reg_s2con : ℕ
reg_s2con = 0x1a

abbrev pub reg_s2buf : ℕ
reg_s2buf = 0x1b

abbrev pub reg_wdt_contr : ℕ
reg_wdt_contr = 0x41

abbrev pub reg_t2h : ℕ
reg_t2h = 0x56

abbrev pub reg_t2l : ℕ
reg_t2l = 0x57

abbrev pub reg_int_clko : ℕ
reg_int_clko = 0x0f
