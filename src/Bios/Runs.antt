-- ===== src/Bios/Runs.antt =====
-- bios.c: the list of halted cores is right from the boot of the virtual machine on, and the operations
-- on interrupts are made of the steps of the machine.
use disasteros.Common.{
  ℕ, zero, suc, ◌+◌, ◌≡◌, refl, subst, some, arith, Bool, Bool-cases, inl, inr, some_inj,
  guard-eq-some, List, [], ◌∷◌,
}
use disasteros.Bios.{
  Vm, raise_interrupt, alarm, cpu_core_restart, cpu_core_restart_one, cpu_core_restart_all,
}
use disasteros.Bios.Serial.{
  Selected, pic_round, handle_con, handle_kbd, handle_devices, raise_alarms, is_due,
}
use disasteros.Bios.Boot.{
  VmStep, VmRun, here, next, restarts, restarts_one, restarts_all, halts, assigns_core,
  assigns_devices, vm_boot, boot_cores, refuses_boot, booted,
}
use disasteros.Bios.Valid.{
  IsValid, core_restart-IsValid, restart_first-IsValid, restart_from-IsValid, halt-IsValid,
  set_core-IsValid,
}

pub VmRun-trans : {m₁ m₂ m₃ : Vm} → VmRun m₁ m₂ → VmRun m₂ m₃ → VmRun m₁ m₃
VmRun-trans r here = r
VmRun-trans r (next q s) = next (VmRun-trans r q) s

raise-VmRun : (c i : ℕ) (m : Vm) → VmRun m (raise_interrupt c i m)
unfolding raise_interrupt
raise-VmRun c i m = next (next here (assigns_core c _ refl)) (restarts c)

devices-VmRun : (n d : ℕ) (sel : ℕ → Selected) (m : Vm) → VmRun m (handle_devices n d sel m)
unfolding handle_devices handle_con handle_kbd
devices-VmRun zero d sel m = here
devices-VmRun (suc n) d sel m =
    VmRun-trans (con (sel d).con_set m)
      (VmRun-trans (kbd (sel d).kbd_set _) (devices-VmRun n (d + 1) sel _))
  where
    con : (set : Bool) (m : Vm) → VmRun m (handle_con d set m)
    con set m = elim (Bool-cases (is_due set m.system_clock (m.terminal d).con)) [
      | inl h ↦ rw h (VmRun-trans (next here (assigns_devices _ _ _)) (raise-VmRun _ _ _))
      | inr h ↦ rw h here
    ]

    kbd : (set : Bool) (m : Vm) → VmRun m (handle_kbd d set m)
    kbd set m = elim (Bool-cases (is_due set m.system_clock (m.terminal d).kbd)) [
      | inl h ↦ rw h (VmRun-trans (next here (assigns_devices _ _ _)) (raise-VmRun _ _ _))
      | inr h ↦ rw h here
    ]

alarms-VmRun : (cs : List ℕ) (m : Vm) → VmRun m (raise_alarms cs m)
unfolding raise_alarms
alarms-VmRun [] m = here
alarms-VmRun (c ∷ cs) m = VmRun-trans (raise-VmRun c alarm m) (alarms-VmRun cs _)

-- A round of the interrupt controller, by itself, is a run of the machine.
pub pic_round-VmRun :
    (now : ℕ) (expired : List ℕ) (sel : ℕ → Selected) (m : Vm)
    → VmRun m (pic_round now expired sel m)
unfolding pic_round
pic_round-VmRun now expired sel m =
    VmRun-trans (next here (assigns_devices m.terminal now m.pic_queued))
      (VmRun-trans (alarms-VmRun expired _) (devices-VmRun m.nterm 0 sel _))

VmStep-IsValid : {m m' : Vm} → VmStep m m' → IsValid m → IsValid m'
unfolding cpu_core_restart cpu_core_restart_one cpu_core_restart_all
VmStep-IsValid {m} (restarts c) v = core_restart-IsValid c m v
VmStep-IsValid {m} restarts_one v = restart_first-IsValid m.halted_list m refl v
VmStep-IsValid {m} restarts_all v = restart_from-IsValid m.ncores 0 m v
VmStep-IsValid {m} (halts c h e) v = halt-IsValid c m h e v
VmStep-IsValid {m} (assigns_core c k h) v = set_core-IsValid c k m h v
VmStep-IsValid {m} (assigns_devices t n q) v = record { listed = v.listed }

VmRun-kept : {m m' : Vm} → VmRun m m' → IsValid m → IsValid m'
VmRun-kept here v = v
VmRun-kept (next r s) v = VmStep-IsValid s (VmRun-kept r v)

vm_boot-IsValid :
    (cores serialno now : ℕ) (sel : ℕ → Selected) (m : Vm) {m' : Vm}
    → vm_boot cores serialno now sel m ≡ some m'
    → IsValid m'
unfolding vm_boot boot_cores
vm_boot-IsValid cores serialno now sel m e =
    let (l, e') = guard-eq-some (refuses_boot cores serialno m) e in
    subst IsValid {x = booted cores serialno now sel m} (some_inj e')
      (record { listed = λ c l. ground arith })

-- From the boot of the machine on, whatever the cores and the interrupt controller do, with every
-- assignment a step of its own but for those under core_halt_mutex: every halted core of the machine,
-- and no other one of them, is on the list that `cpu_core_restart_one` takes from, once.
pub VmRun-IsValid :
    (cores serialno now : ℕ) (sel : ℕ → Selected) (m : Vm) {m₁ m₂ : Vm}
    → vm_boot cores serialno now sel m ≡ some m₁
    → VmRun m₁ m₂
    → IsValid m₂
VmRun-IsValid cores serialno now sel m e r =
    VmRun-kept r (vm_boot-IsValid cores serialno now sel m e)
