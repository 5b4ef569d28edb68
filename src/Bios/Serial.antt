-- ===== src/Bios/Serial.antt =====
-- bios.c: the serial devices, and the rounds of the interrupt controller.
use disasteros.Common.{
  ℕ, zero, suc, ◌+◌, ◌-◌, ◌*◌, ◌%◌, ◌^◌, Bool, true, false, not, ◌||◌, Option, none, some, List, [],
  ◌∷◌, ltb, ◌==◌, if◌then◌else◌, update,
}
use disasteros.Bios.{IoDevice, Vm, alarm, serial_rx_ready, serial_tx_ready, raise_interrupt}

-- SERIAL_TIMEOUT, in milliseconds.
abbrev pub serial_timeout : ℕ
serial_timeout = 300

-- `interrupt_pic_thread`
unfoldable pub interrupt_pic_thread : Vm → Vm
interrupt_pic_thread m = record m { pic_queued = m.pic_queued + 1 }

abbrev pub set_kbd : ℕ → IoDevice → Vm → Vm
set_kbd d k m = record m { terminal = update m.terminal d (record (m.terminal d) { kbd = k }) }

abbrev pub set_con : ℕ → IoDevice → Vm → Vm
set_con d k m = record m { terminal = update m.terminal d (record (m.terminal d) { con = k }) }

-- `io_device_read` on a keyboard, which is `bios_read_serial`: `byte` is what the host's `read`
-- delivers, if anything.
unfoldable pub bios_read_serial : (serial : ℕ) → (byte : Option ℕ) → Vm → Option ℕ × Vm
bios_read_serial d (some b) m = (some b, m)
bios_read_serial d none m =
    let k = (m.terminal d).kbd in
    if k.ready
    then (none, interrupt_pic_thread (set_kbd d (record k { ready = false }) m))
    else (none, m)

-- `io_device_write` on a console, which is `bios_write_serial`: whether the host's `write` took the
-- byte.
unfoldable pub bios_write_serial : (serial : ℕ) → (written : Bool) → Vm → Bool × Vm
bios_write_serial d true m = (true, m)
bios_write_serial d false m =
    let k = (m.terminal d).con in
    if k.ready
    then (false, interrupt_pic_thread (set_con d (record k { ready = false }) m))
    else (false, m)

-- `bios_clock`, in microseconds; the clock of the machine counts milliseconds.
unfoldable pub bios_clock : Vm → ℕ
bios_clock m = m.system_clock * 1000 % 2 ^ 64

-- The end of `bios_serial_interrupt_core`.
abbrev pub direct : (serial intno c : ℕ) → Vm → Vm
direct d i c m =
    let t = m.terminal d in
    if i == serial_rx_ready
    then set_kbd d (record t.kbd { int_core = c }) m
    else set_con d (record t.con { int_core = c }) m

-- Its assertions.
abbrev pub misdirected : (serial intno c : ℕ) → Vm → Bool
misdirected d i c m =
    not (ltb d m.nterm)
    || not (i == serial_rx_ready || i == serial_tx_ready)
    || not (ltb c m.ncores)

-- `bios_serial_interrupt_core`; `none` is a failed assertion.
unfoldable pub bios_serial_interrupt_core : (serial intno c : ℕ) → Vm → Option Vm
bios_serial_interrupt_core d i c m = if misdirected d i c m then none else some (direct d i c m)

-- The time that passed since the last interrupt, in unsigned arithmetic.
abbrev pub since : (clock last : ℕ) → ℕ
since clock last = (clock + 2 ^ 64 - last) % 2 ^ 64

-- What `select` found at a terminal: FD_ISSET of its two descriptors.
pub record Selected : Type 0 where
  pub con_set : Bool
  pub kbd_set : Bool

-- Whether a device is looked after in this round.
abbrev pub is_due : (set : Bool) → (clock : ℕ) → IoDevice → Bool
is_due set clock t = set || ltb serial_timeout (since clock t.last_int)

abbrev pub made_ready : (clock : ℕ) → IoDevice → IoDevice
made_ready clock t = record t { ready = true; last_int = clock }

-- The part of a round that is about the console of a terminal,
unfoldable pub handle_con : (d : ℕ) → (set : Bool) → Vm → Vm
handle_con d set m =
    let t = (m.terminal d).con in
    if is_due set m.system_clock t
    then raise_interrupt t.int_core serial_tx_ready (set_con d (made_ready m.system_clock t) m)
    else m

-- and about its keyboard.
unfoldable pub handle_kbd : (d : ℕ) → (set : Bool) → Vm → Vm
handle_kbd d set m =
    let t = (m.terminal d).kbd in
    if is_due set m.system_clock t
    then raise_interrupt t.int_core serial_rx_ready (set_kbd d (made_ready m.system_clock t) m)
    else m

-- The loop over the terminals.
unfoldable pub handle_devices : (n d : ℕ) → (ℕ → Selected) → Vm → Vm
handle_devices zero d sel m = m
handle_devices (suc n) d sel m =
    handle_devices n (d + 1) sel (handle_kbd d (sel d).kbd_set (handle_con d (sel d).con_set m))

-- The loop that raises the alarms of the cores whose timers have expired.
unfoldable pub raise_alarms : List ℕ → Vm → Vm
raise_alarms [] m = m
raise_alarms (c ∷ cs) m = raise_alarms cs (raise_interrupt c alarm m)

-- One round of `PIC_daemon`, behind a `select` that did not fail, with the time, the cores whose
-- timers have expired, and what `select` found.
unfoldable pub pic_round : (now : ℕ) → (expired : List ℕ) → (ℕ → Selected) → Vm → Vm
pic_round now expired sel m =
    handle_devices m.nterm 0 sel (raise_alarms expired (record m { system_clock = now }))
