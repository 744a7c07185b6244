-- ===== src/Stc/Serial/Receiver.antt =====
-- The receiver of the serial port against a queue of bytes.
use emu8051_stc.Prelude.{
  length, ℕ, ◌<◌, ◌≤◌, ◌≡◌, refl, arith, Bool, true, ◌==◌, leb, nonzero, ◌&&◌, if◌then◌else◌,
  Bool-cases, inl, inr, List, [], ◌∷◌, ◌++◌, if_both,
}
use mathlib.Core.Path.{sym, ◌∙◌, subst}
use emu8051_stc.Cpu.{Cpu, set_sfr}
use emu8051_stc.Cpu.Regs.{reg_sbuf, reg_scon}
use emu8051_stc.Core.Timer.{has, or_sfr}
use emu8051_stc.Stc.{Stc, set_stc}
use emu8051_stc.Stc.Serial.{
  rx_enqueue, rx_dequeue, rx_deliver, receiver_free, serial_rx, rx_tick, trigger_serial,
}
use emu8051_stc.Stc.Serial.Fifo.{queue, IsQueue}

-- What the firmware sees of the receiver, and what waits behind it.
pub record Receiver : Type 0 where
  pub sbuf : ℕ
  pub ri : Bool
  pub waiting : List ℕ

abbrev pub receiver : {B : Type 0} → Cpu (Stc B) → Receiver
receiver c = record { sbuf = c.sfr reg_sbuf; ri = has c reg_scon 0x01; waiting = queue c.env }

-- The queue as a specification: a byte is received at once, waits, or is lost when 64 wait.
abbrev pub delivered : ℕ → List ℕ → Receiver
delivered byte rest = record { sbuf = byte; ri = true; waiting = rest }

abbrev pub arrive : (free : Bool) → ℕ → Receiver → Receiver
arrive free byte r =
    if length r.waiting == 0 && free
    then delivered byte []
    else if leb 64 (length r.waiting)
    then r
    else record r { waiting = r.waiting ++ (byte ∷ []) }

abbrev pub hand_over : (free : Bool) → List ℕ → Receiver → Receiver
hand_over free [] r = r
hand_over free (x ∷ xs) r = if free then delivered x xs else r

-- The indexes of the ring, which a delivery leaves.
abbrev ring : {B : Type 0} → Cpu (Stc B) → ℕ × ℕ
ring c = (c.env.rx_head, c.env.rx_len)

abbrev InRing : ℕ × ℕ → Type 0
InRing (head, len) = (head < 64) × (len ≤ 64)

trigger_serial-ring : {B : Type 0} (c : Cpu (Stc B)) → ring (trigger_serial c) ≡ ring c
unfolding trigger_serial
trigger_serial-ring c = if_both ring (ring c) _ _ c refl refl

rx_deliver-ring : {B : Type 0} (c : Cpu (Stc B)) (byte : ℕ) → ring (rx_deliver c byte) ≡ ring c
unfolding rx_deliver set_stc or_sfr set_sfr
rx_deliver-ring {B = B} c byte =
    let indexes : Stc B → ℕ × ℕ = λ s. (s.rx_head, s.rx_len) in
    trigger_serial-ring _ ∙ if_both indexes _ (nonzero c.env.ns_per_clock_x256) _ c.env refl refl

module _ {B : Type 0} (c : Cpu (Stc B)) (limits : IsQueue c.env) where
  serial_rx-IsQueue : (byte : ℕ) → IsQueue (serial_rx c byte).env
  unfolding serial_rx rx_enqueue set_stc
  serial_rx-IsQueue byte =
      let delivers = subst InRing (sym (rx_deliver-ring c byte)) limits in
      let queues = set_stc c (rx_enqueue c.env byte) in
      elim (Bool-cases (c.env.rx_len == 0 && receiver_free c)) [
        | inl e ↦ rw e delivers
        | inr e ↦ rw e (elim (Bool-cases (leb 64 c.env.rx_len)) [
          | inl k ↦ rw k limits
          | inr k ↦ rw k (limits.0, ground (arith, k))
        ])
      ]

  rx_tick-IsQueue : IsQueue (rx_tick c).env
  unfolding rx_tick rx_dequeue set_stc
  rx_tick-IsQueue =
      let taken = set_stc c (rx_dequeue c.env) in
      let within : InRing (ring taken) = (omega arith, omega (arith, limits.1)) in
      let delivers =
        subst InRing (sym (rx_deliver-ring taken (c.env.rx_fifo c.env.rx_head))) within in
      elim (Bool-cases (nonzero c.env.rx_len && receiver_free c)) [
        | inl e ↦ rw e delivers
        | inr e ↦ rw e limits
      ]

-- The indexes of the ring stay in range when a byte arrives and in a clock.
receive-IsQueue :
    {B : Type 0} (c : Cpu (Stc B)) (byte : ℕ)
    → IsQueue c.env
    → IsQueue (serial_rx c byte).env × IsQueue (rx_tick c).env
receive-IsQueue c byte q = (serial_rx-IsQueue c q byte, rx_tick-IsQueue c q)
