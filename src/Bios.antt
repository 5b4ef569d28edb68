-- ===== src/Bios.antt =====
-- bios.c: the cores of the virtual machine, their interrupts and the list of halted cores.
pub mod Serial
pub mod Boot
pub mod Valid
pub mod Runs
pub mod Interrupts
pub mod Wakeup
pub mod Timer
pub mod Later
pub mod Rounds
use disasteros.Common.{
  ℕ, zero, suc, ◌+◌, ◌-◌, ◌*◌, ◌/◌, ◌%◌, Bool, true, false, not, Option, none, some, List, [], ◌∷◌,
  ltb, if◌then◌else◌, erase, update,
}

-- `Interrupt`, by its number.
abbrev pub ici : ℕ
ici = 0

abbrev pub alarm : ℕ
alarm = 1

abbrev pub serial_rx_ready : ℕ
serial_rx_ready = 2

abbrev pub serial_tx_ready : ℕ
serial_tx_ready = 3

abbrev pub maximum_interrupt_no : ℕ
maximum_interrupt_no = 4

-- `it_value` of a `struct itimerspec`; the interval is always 0.
pub record TimerValue : Type 0 where
  pub tv_sec : ℕ
  pub tv_nsec : ℕ

-- `Core`. A handler is a number; the thread, its signal mask and its POSIX timer belong to the host,
-- but for what is left on the timer.
pub record Core : Type 0 where
  pub intvec : ℕ → Option ℕ
  pub intpending : ℕ → Bool
  pub int_disabled : Bool
  pub halted : Bool
  pub timer : TimerValue
  pub irq_count : ℕ
  pub irq_raised : ℕ → ℕ
  pub irq_delivered : ℕ → ℕ

-- `io_device`. Its direction is that of its place in the terminal, and its descriptor is the host's.
pub record IoDevice : Type 0 where
  pub int_core : ℕ
  pub ready : Bool
  pub last_int : ℕ

-- `terminal`
pub record Terminal : Type 0 where
  pub con : IoDevice
  pub kbd : IoDevice

-- The globals of bios.c, with the number of signals that woke the interrupt controller.
pub record Vm : Type 0 where
  pub core : ℕ → Core
  pub ncores : ℕ
  pub halted_list : List ℕ
  pub terminal : ℕ → Terminal
  pub nterm : ℕ
  pub system_clock : ℕ
  pub pic_queued : ℕ

abbrev pub set_core : ℕ → Core → Vm → Vm
set_core c k m = record m { core = update m.core c k }

-- `core_restart`
unfoldable pub core_restart : (c : ℕ) → Vm → Vm
core_restart c m =
    if (m.core c).halted
    then record m {
      core = update m.core c (record (m.core c) { halted = false });
      halted_list = erase c m.halted_list;
    }
    else m

-- `cpu_core_restart`
unfoldable pub cpu_core_restart : (c : ℕ) → Vm → Vm
cpu_core_restart c m = core_restart c m

-- The body of `cpu_core_restart_one`, on the list of halted cores.
unfoldable pub restart_first : List ℕ → Vm → Vm
restart_first [] m = m
restart_first (c ∷ cs) m = core_restart c (record m { halted_list = cs })

-- `cpu_core_restart_one`
unfoldable pub cpu_core_restart_one : Vm → Vm
cpu_core_restart_one m = restart_first m.halted_list m

-- The loop of `cpu_core_restart_all`, over the cores from `c`.
unfoldable pub restart_from : (n c : ℕ) → Vm → Vm
restart_from zero c m = m
restart_from (suc n) c m = restart_from n (c + 1) (core_restart c m)

unfoldable pub cpu_core_restart_all : Vm → Vm
cpu_core_restart_all m = restart_from m.ncores 0 m

-- `raise_interrupt` with nothing in between, and with the signal that it sends left to the host.
unfoldable pub raise_interrupt : (c intno : ℕ) → Vm → Vm
raise_interrupt c i m = cpu_core_restart c (
    set_core c
      (record k {
        intpending = update k.intpending i true;
        irq_raised = update k.irq_raised i (k.irq_raised i + 1);
      })
      m)
  where
    k : Core
    k = m.core c

-- `cpu_ici`; `none` is the failed assertion.
unfoldable pub cpu_ici : (c : ℕ) → Vm → Option Vm
cpu_ici c m = if ltb c m.ncores then some (raise_interrupt c ici m) else none

-- What the loop of `dispatch_interrupts` does to a pending interrupt before it calls the handler.
unfoldable pub take_interrupt : (c intno : ℕ) → Vm → Vm
take_interrupt c i m =
    set_core c
      (record k {
        intpending = update k.intpending i false;
        irq_delivered = update k.irq_delivered i (k.irq_delivered i + 1);
      })
      m
  where
    k : Core
    k = m.core c

-- The handlers of the kernel: what a handler does that is called on a core.
module _ (run : (handler c : ℕ) → Vm → Vm) where
  unfoldable pub call_handler : (c intno : ℕ) → Vm → Vm
  call_handler c i m = elim ((m.core c).intvec i) [ none ↦ m | some h ↦ run h c m ]

  -- One round of the loop, for a core with interrupts enabled.
  unfoldable pub dispatch_one : (c intno : ℕ) → Vm → Vm
  dispatch_one c i m =
      if (m.core c).intpending i then call_handler c i (take_interrupt c i m) else m

  unfoldable pub dispatch_from : (n intno c : ℕ) → Vm → Vm
  dispatch_from zero i c m = m
  dispatch_from (suc n) i c m =
      let rest = dispatch_from n (i + 1) c (dispatch_one c i m) in
      if (m.core c).int_disabled then m else rest

  -- `dispatch_interrupts`
  unfoldable pub dispatch_interrupts : (c : ℕ) → Vm → Vm
  dispatch_interrupts c m = dispatch_from maximum_interrupt_no 0 c m

  -- `sigusr1_handler`, on the core that the signal names.
  unfoldable pub sigusr1_handler : (c : ℕ) → Vm → Vm
  sigusr1_handler c m =
      let m' = set_core c (record (m.core c) { irq_count = (m.core c).irq_count + 1 }) m in
      if (m'.core c).int_disabled then m' else dispatch_interrupts c m'

  -- `cpu_enable_interrupts`
  unfoldable pub cpu_enable_interrupts : (c : ℕ) → Vm → Vm
  cpu_enable_interrupts c m =
      if (m.core c).int_disabled
      then dispatch_interrupts c (set_core c (record (m.core c) { int_disabled = false }) m)
      else m

-- `cpu_disable_interrupts`
unfoldable pub cpu_disable_interrupts : (c : ℕ) → Vm → Vm
cpu_disable_interrupts c m = set_core c (record (m.core c) { int_disabled = true }) m

-- `cpu_interrupt_handler`
unfoldable pub cpu_interrupt_handler : (c intno : ℕ) → Option ℕ → Vm → Vm
cpu_interrupt_handler c i h m =
    set_core c (record (m.core c) { intvec = update (m.core c).intvec i h }) m

abbrev pub put_to_sleep : (c : ℕ) → Vm → Vm
put_to_sleep c m = record m {
  core = update m.core c (record (m.core c) { halted = true });
  halted_list = c ∷ m.halted_list;
}

-- `cpu_core_halt` up to its wait, behind the masking of the signal: the core waits until it is
-- restarted. `none` is the failed assertion.
unfoldable pub cpu_core_halt : (c : ℕ) → Vm → Option Vm
cpu_core_halt c m = if (m.core c).int_disabled then none else some (put_to_sleep c m)

-- The rest of `cpu_core_halt`: `none` is another wait.
unfoldable pub halt_resume : (run : (handler c : ℕ) → Vm → Vm) → (c : ℕ) → Vm → Option Vm
halt_resume run c m = if (m.core c).halted then none else some (dispatch_interrupts run c m)

-- `bios_set_timer`, with what was left on the timer before. A pending alarm is withdrawn.
unfoldable pub bios_set_timer : (c usec : ℕ) → Vm → ℕ × Vm
bios_set_timer c usec m = (
  1_000_000 * (m.core c).timer.tv_sec + (m.core c).timer.tv_nsec / 1000,
  set_core c
      (record (m.core c) {
        timer = record { tv_sec = usec / 1_000_000; tv_nsec = usec % 1_000_000 * 1000 };
        intpending = update (m.core c).intpending alarm false;
      })
      m,
)

-- `bios_cancel_timer`
unfoldable pub bios_cancel_timer : (c : ℕ) → Vm → ℕ × Vm
bios_cancel_timer c m = bios_set_timer c 0 m
