-- ===== src/Bios/Boot.antt =====
-- bios.c: vm_boot, and what happens on the virtual machine behind it.
use disasteros.Common.{
  ℕ, ◌≡◌, Bool, false, not, ◌||◌, Option, none, some, [], ltb, ◌==◌, if◌then◌else◌,
}
use disasteros.Sched.Thread.{max_cores}
use disasteros.Bios.{
  IoDevice, Terminal, Vm, Core, set_core, cpu_core_restart, cpu_core_restart_one,
  cpu_core_restart_all, cpu_core_halt,
}
use disasteros.Bios.Serial.{Selected}

-- MAX_TERMINALS
abbrev pub max_terminals : ℕ
max_terminals = 4

-- What `vm_boot` and `bootfunc_wrapper` set of a core. The timer is new, so nothing is left on it.
abbrev pub fresh_core : Core
fresh_core = record {
  intvec = λ i. none;
  intpending = λ i. false;
  int_disabled = false;
  halted = false;
  timer = record { tv_sec = 0; tv_nsec = 0 };
  irq_count = 0;
  irq_raised = λ i. 0;
  irq_delivered = λ i. 0;
}

unfoldable pub boot_cores : (n : ℕ) → (ℕ → Core) → ℕ → Core
boot_cores n cores c = if ltb c n then fresh_core else cores c

-- `io_device_init`, with what `poll` says of the descriptor.
unfoldable pub io_device_init : (ready : Bool) → (now : ℕ) → IoDevice
io_device_init ready now = record { int_core = 0; ready = ready; last_int = now }

-- The conditions that `vm_boot` checks.
abbrev pub refuses_boot : (cores serialno : ℕ) → Vm → Bool
refuses_boot cores serialno m =
    not (ltb 0 cores) || ltb max_cores cores || not (m.ncores == 0) || ltb max_terminals serialno

abbrev pub booted : (cores serialno now : ℕ) → (ℕ → Selected) → Vm → Vm
booted cores serialno now sel m = record {
  core = boot_cores cores m.core;
  ncores = cores;
  halted_list = [];
  terminal = λ d.
      if ltb d serialno
      then record {
        con = io_device_init (sel d).con_set now;
        kbd = io_device_init (sel d).kbd_set now;
      }
      else m.terminal d;
  nterm = serialno;
  system_clock = now;
  pic_queued = 0;
}

-- `vm_boot` up to the loop of `PIC_daemon`, with the time and what `poll` says of the terminals.
-- `none` is a failed CHECK_CONDITION.
unfoldable pub vm_boot : (cores serialno now : ℕ) → (ℕ → Selected) → Vm → Option Vm
vm_boot cores serialno now sel m =
    if refuses_boot cores serialno m then none else some (booted cores serialno now sel m)

-- What the cores and the interrupt controller do, in any order. What runs under core_halt_mutex is one
-- step. Everything else is a step for each assignment, of which only this is said, that it is not to
-- `halted`: to a core, as in raising, taking or handling an interrupt and in setting a timer, or to
-- the clock and the devices.
pub data VmStep : Vm → Vm → Type 0 where
  restarts : {m : Vm} (c : ℕ) → VmStep m (cpu_core_restart c m)
  restarts_one : {m : Vm} → VmStep m (cpu_core_restart_one m)
  restarts_all : {m : Vm} → VmStep m (cpu_core_restart_all m)
  halts :
      {m m' : Vm} (c : ℕ) → (m.core c).halted ≡ false → cpu_core_halt c m ≡ some m' → VmStep m m'
  assigns_core :
      {m : Vm} (c : ℕ) (k : Core) → k.halted ≡ (m.core c).halted → VmStep m (set_core c k m)
  assigns_devices :
      {m : Vm} (terminal : ℕ → Terminal) (system_clock pic_queued : ℕ)
      → VmStep m
          (record m { terminal = terminal; system_clock = system_clock; pic_queued = pic_queued })

pub data VmRun (m : Vm) : Vm → Type 0 where
  here : VmRun m m
  next : {m₁ m₂ : Vm} → VmRun m m₁ → VmStep m₁ m₂ → VmRun m m₂
