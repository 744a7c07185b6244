-- ===== src/Disasm/Names.antt =====
-- disasm.c, `mem_memonic` and `bitaddr_memonic`: how an address and a bit are shown.
use Prim.Native.String.{String}
use emu8051_stc.Prelude.{
  ℕ, ◌-◌, ◌/◌, bit_and, ltb, ◌==◌, if◌then◌else◌, Option, none, some, List, [], ◌∷◌,
}
use emu8051_stc.Cpu.Regs.{
  reg_acc, reg_b, reg_psw, reg_sp, reg_dpl, reg_dph, reg_p0, reg_p1, reg_p2, reg_p3, reg_ip, reg_ie,
  reg_tmod, reg_tcon, reg_th0, reg_tl0, reg_th1, reg_tl1, reg_scon, reg_pcon, reg_sbuf,
}
use emu8051_stc.Disasm.Text.{lit, str, hex, num, sprintf}

-- The cases of the two switches.
unfoldable pub mem_names : List (ℕ × String)
mem_names =
    (reg_acc, "ACC")
    ∷ (reg_b, "B")
    ∷ (reg_psw, "PSW")
    ∷ (reg_sp, "SP")
    ∷ (reg_dpl, "DPL")
    ∷ (reg_dph, "DPH")
    ∷ (reg_p0, "P0")
    ∷ (reg_p1, "P1")
    ∷ (reg_p2, "P2")
    ∷ (reg_p3, "P3")
    ∷ (reg_ip, "IP")
    ∷ (reg_ie, "IE")
    ∷ (reg_tmod, "TMOD")
    ∷ (reg_tcon, "TCON")
    ∷ (reg_th0, "TH0")
    ∷ (reg_tl0, "TL0")
    ∷ (reg_th1, "TH1")
    ∷ (reg_tl1, "TL1")
    ∷ (reg_scon, "SCON")
    ∷ (reg_pcon, "PCON")
    ∷ (reg_sbuf, "SBUF")
    ∷ []

unfoldable pub bit_names : List (ℕ × String)
bit_names =
    (reg_acc, "ACC")
    ∷ (reg_b, "B")
    ∷ (reg_psw, "PSW")
    ∷ (reg_sp, "SP")
    ∷ (reg_dpl, "DPL")
    ∷ (reg_dph, "DPH")
    ∷ (reg_p0, "P0")
    ∷ (reg_p1, "P1")
    ∷ (reg_p2, "P2")
    ∷ (reg_p3, "P3")
    ∷ (reg_ip, "IP")
    ∷ (reg_ie, "IE")
    ∷ (reg_tmod, "TMOD")
    ∷ (reg_tcon, "TCON")
    ∷ (reg_th0, "TH0")
    ∷ (reg_tl0, "TL0")
    ∷ (reg_th1, "TH1")
    ∷ (reg_tl1, "TL1")
    ∷ (reg_scon, "SCON")
    ∷ (reg_pcon, "PCON")
    ∷ []

-- `switch (x)`, `none` where no case is `x`.
unfoldable pub case_of : ℕ → List (ℕ × String) → Option String
case_of x [] = none
case_of x ((y, name) ∷ rest) = let later = case_of x rest in if x == y then some name else later

unfoldable pub mem_memonic : ℕ → List ℕ
unfolding case_of mem_names
mem_memonic value =
    let name = if ltb 0x7f value then case_of (value - 0x80) mem_names else none in
    elim name [ none ↦ sprintf (hex 2 value ∷ lit "h" ∷ []) | some s ↦ sprintf (lit s ∷ []) ]

unfoldable pub reg_name : ℕ → List ℕ
unfolding case_of bit_names
reg_name value =
    if ltb 0x7f value
    then elim (case_of (bit_and value 0xf8 - 0x80) bit_names) [
      | none ↦ sprintf (hex 2 (bit_and value 0xf8) ∷ lit "h" ∷ [])
      | some s ↦ sprintf (lit s ∷ [])
    ]
    else sprintf (hex 2 (value / 8) ∷ lit "h" ∷ [])

unfoldable pub bitaddr_memonic : ℕ → List ℕ
unfolding reg_name
bitaddr_memonic value = sprintf (str (reg_name value) ∷ lit "." ∷ num (bit_and value 7) ∷ [])
