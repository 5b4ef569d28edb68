-- ===== src/Bios/Rounds.antt =====
-- bios.c: what a round of the interrupt controller does for a terminal.
use disasteros.Common.{ℕ, ◌≡◌, true}
use disasteros.Bios.{Vm, serial_rx_ready, serial_tx_ready}
use disasteros.Bios.Serial.{Selected, is_due}
use disasteros.Bios.Later.{Later}

-- What a round does for the terminal `d`, when `select` found `sel` there.
pub record Served (sel : Selected) (d : ℕ) (m m' : Vm) : Type 0 where
  pub con_served :
      is_due sel.con_set m.system_clock (m.terminal d).con ≡ true
      → ((m'.terminal d).con.ready ≡ true)
        × ((m'.core (m.terminal d).con.int_core).intpending serial_tx_ready ≡ true)
  pub kbd_served :
      is_due sel.kbd_set m.system_clock (m.terminal d).kbd ≡ true
      → ((m'.terminal d).kbd.ready ≡ true)
        × ((m'.core (m.terminal d).kbd.int_core).intpending serial_rx_ready ≡ true)
