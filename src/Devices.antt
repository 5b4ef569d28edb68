-- ===== src/Devices.antt =====
-- kernel_dev.c: the null device and the serial driver, and the device table. `bios_read_serial` gives
-- the oldest byte that has come in at a port, if there is one, and `bios_write_serial` takes a byte
-- while the port has room.
use disasteros.Common.{
  ℕ, zero, suc, ◌+◌, ◌-◌, Bool, true, false, Option, none, some, List, [], ◌∷◌, ◌++◌, ltb, ◌==◌,
  if◌then◌else◌, update,
}
use disasteros.Common.Int.{ℤ, pos}
use disasteros.Sched.Thread.{io, no_timeout}
use disasteros.Sched.Switch.{yield}
use disasteros.Cc.CondVar.{cond_broadcast, cv_resume}
use disasteros.Cc.KernelLock.{kernel_wait}
use disasteros.World.{
  World, Serial, FileOps, nulldev_fops, serial_fops, Outcome, returned, asleep, or_fault, Cpu,
  set_kernel,
}

abbrev ReadResult : Type 0
ReadResult = ℤ × List ℕ

-- `set_core_preemption`
unfoldable pub set_core_preemption : (core : ℕ) (preempt : Bool) → World → World
set_core_preemption core b w =
    let s = w.kernel.sched in
    set_kernel (record w.kernel { sched = record s { preemption = update s.preemption core b } }) w

abbrev pub set_serial : ℕ → Serial → World → World
set_serial d t w = record w { serial = update w.serial d t }

-- `kernel_wait(&dcb->rx_ready, SCHED_IO)`, up to the context switch.
unfoldable pub wait_rx {ℓ} : {A : Type ℓ} → Cpu → ℕ → World → Outcome A
wait_rx c d w =
    or_fault (kernel_wait c.core io no_timeout c.curtime c.later (w.serial d).rx_ready w.kernel)
      λ (_, cv, k). asleep (set_serial d (record (w.serial d) { rx_ready = cv }) (set_kernel k w))

-- The loop of `serial_read`, with `n` bytes still wanted and those in `buf` so far.
unfoldable pub serial_loop :
    Cpu → ℕ → (n : ℕ) (buf : List ℕ) (count : ℕ) → World → Outcome ReadResult
serial_loop c d zero buf count w = returned (pos count, buf) (set_core_preemption c.core true w)
serial_loop c d (suc n) buf count w = elim ((w.serial d).input) [
  | b ∷ bytes ↦
      serial_loop c d n (buf ++ b ∷ []) (suc count)
        (set_serial d (record (w.serial d) { input = bytes }) w)
  | [] ↦
      if count == 0
      then wait_rx c d w
      else returned (pos count, buf) (set_core_preemption c.core true w)
]

-- `serial_read`
unfoldable pub serial_read : Cpu → ℕ → (size : ℕ) → World → Outcome ReadResult
serial_read c d size w = serial_loop c d size [] 0 (set_core_preemption c.core false w)

-- The end of the wait in `serial_read`, and the rest of the call.
unfoldable pub serial_resume : Cpu → ℕ → (size : ℕ) → World → Outcome ReadResult
serial_resume c d size w =
    or_fault (cv_resume c.core (w.serial d).rx_ready w.kernel)
      λ (_, cv). serial_loop c d size [] 0 (set_serial d (record (w.serial d) { rx_ready = cv }) w)

-- The loop of `serial_write`, with `n` bytes left and `count` written. A thread that yields begins
-- anew, with nothing written.
unfoldable pub serial_write_loop : Cpu → ℕ → (buf : ℕ → ℕ) → (n count : ℕ) → World → Outcome ℤ
serial_write_loop c d buf zero count w = returned (pos count) w
serial_write_loop c d buf (suc n) count w =
    let t = w.serial d in
    let t' : Serial = record t { output = t.output ++ buf count ∷ []; room = t.room - 1 } in
    let rest = serial_write_loop c d buf n (suc count) (set_serial d t' w) in
    if ltb 0 t.room
    then rest
    else if count == 0
    then (or_fault (yield c.core io c.curtime w.kernel.sched)
        λ (_, s). asleep (set_kernel (record w.kernel { sched = s }) w))
    else returned (pos count) w

-- `serial_write`
unfoldable pub serial_write : Cpu → ℕ → (buf : ℕ → ℕ) → (size : ℕ) → World → Outcome ℤ
serial_write c d buf size w = serial_write_loop c d buf size 0 w

-- The loop of `serial_rx_handler` over the ports from `i` on, `n` of them.
unfoldable pub rx_loop : (n i : ℕ) → World → Option World
rx_loop zero i w = some w
rx_loop (suc n) i w = elim (cond_broadcast (w.serial i).rx_ready w.kernel) [
  | none ↦ none
  | some (cv, k) ↦
      rx_loop n (i + 1) (set_serial i (record (w.serial i) { rx_ready = cv }) (set_kernel k w))
]

-- `serial_rx_handler`, which restores the preemption of its core.
unfoldable pub serial_rx_handler : (core : ℕ) → World → Option World
serial_rx_handler core w =
    let pre = w.kernel.sched.preemption core in
    elim (rx_loop w.serial_ports 0 (set_core_preemption core false w)) [
      | none ↦ none
      | some w' ↦ some (if pre then set_core_preemption core true w' else w')
    ]

-- `Device_type`
pub data DeviceType : Type 0 where
  dev_null dev_serial : DeviceType

-- `devtable[major].devnum`, which `device_no` returns, and `devtable[major].dev_fops`.
unfoldable pub device_no : DeviceType → World → ℕ
device_no dev_null w = 1
device_no dev_serial w = w.serial_ports

unfoldable pub dev_fops : DeviceType → FileOps
dev_fops dev_null = nulldev_fops
dev_fops dev_serial = serial_fops

-- `device_open`: the object and the operations, or `none` for -1. `nulldev_open` gives NULL, and
-- `serial_open` the block of its port.
unfoldable pub device_open : DeviceType → (minor : ℕ) → World → Option (ℕ × FileOps)
device_open major minor w =
    if ltb minor (device_no major w)
    then some (elim major [ dev_null ↦ 0 | dev_serial ↦ minor ], dev_fops major)
    else none

-- `initialize_devices`, for the blocks of the serial ports.
unfoldable pub initialize_devices : World → World
initialize_devices w = record w {
  serial = λ d. if ltb d w.serial_ports then record (w.serial d) { rx_ready = [] } else w.serial d;
}
