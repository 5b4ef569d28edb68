-- ===== src/Tests/Vm.antt =====
-- A virtual machine with two cores and one terminal.
use disasteros.Common.{ℕ, ◌+◌, ◌≡◌, refl, true, false, none, some, [], ◌∷◌, ◌==◌, ◌||◌, update}
use disasteros.Bios.{Vm, serial_rx_ready, alarm, cpu_core_halt, halt_resume, raise_interrupt}
use disasteros.Bios.Serial.{Selected, pic_round}
use disasteros.Bios.Boot.{fresh_core, boot_cores, vm_boot, booted, VmRun, here, next, halts}
use disasteros.Bios.Valid.{IsValid}
use disasteros.Bios.Runs.{VmRun-trans, pic_round-VmRun, VmRun-IsValid}
use disasteros.Bios.Wakeup.{raise-halt}

abbrev off : Vm
off = record {
  core = λ c. fresh_core;
  ncores = 0;
  halted_list = [];
  terminal = λ d. record {
    con = record { int_core = 0; ready = false; last_int = 0 };
    kbd = record { int_core = 0; ready = false; last_int = 0 };
  };
  nterm = 0;
  system_clock = 0;
  pic_queued = 0;
}

-- The console is ready, the keyboard has nothing.
abbrev typed : ℕ → Selected
typed d = record { con_set = true; kbd_set = false }

abbrev on : Vm
on = booted 2 1 1000 typed off

boot_test : vm_boot 2 1 1000 typed off ≡ some on
unfolding vm_boot
boot_test = refl

abbrev halted : Vm
halted = record on {
  core = update on.core 1 (record (on.core 1) { halted = true });
  halted_list = 1 ∷ [];
}

halt_test : cpu_core_halt 1 on ≡ some halted
unfolding cpu_core_halt boot_cores
halt_test = refl

polled-VmRun : VmRun on (pic_round 1400 (1 ∷ []) typed halted)
unfolding boot_cores
polled-VmRun =
    VmRun-trans (next here (halts 1 refl halt_test)) (pic_round-VmRun 1400 (1 ∷ []) typed halted)

VmRun-IsValid_example : IsValid (pic_round 1400 (1 ∷ []) typed halted)
VmRun-IsValid_example = VmRun-IsValid 2 1 1000 typed off boot_test polled-VmRun

-- Handlers that leave a mark of their call.
abbrev note : (handler c : ℕ) → Vm → Vm
note h c m = record m { pic_queued = m.pic_queued + h }

abbrev called : Vm
called = record on {
  core = update on.core 1 (record fresh_core {
    intvec = λ i. some (i + 7);
    intpending = λ i. i == alarm || i == serial_rx_ready;
  });
}

raise-halt_example :
    (m₁ : Vm) × (cpu_core_halt 1 (raise_interrupt 1 alarm called) ≡ some m₁)
    × ((m₁.core 1).intpending alarm ≡ true)
    × (halt_resume note 1 m₁ ≡ none)
raise-halt_example = raise-halt note 1 alarm called refl

abbrev masked : Vm
masked = record on { core = update on.core 1 (record fresh_core { int_disabled = true }) }
