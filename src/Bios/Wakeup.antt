-- ===== src/Bios/Wakeup.antt =====
-- bios.c: what becomes of an interrupt that is raised for a halted core, for one that is about to
-- halt, and for one that has its interrupts disabled.
use disasteros.Common.{ℕ, ◌+◌, ◌≡◌, refl, ◌∙◌, true, false, none, some, arith, Bool-cases, inl, inr}
use disasteros.Bios.{
  Vm, set_core, sigusr1_handler, cpu_enable_interrupts, raise_interrupt, cpu_core_restart,
  core_restart, cpu_core_halt, halt_resume, put_to_sleep,
}
use disasteros.Bios.Interrupts.{TakesLowest}

restart_lem :
    (c : ℕ) (m : Vm)
    → ((i : ℕ) → ((core_restart c m).core c).intpending i ≡ (m.core c).intpending i)
      × (((core_restart c m).core c).halted ≡ false)
      × (((core_restart c m).core c).int_disabled ≡ (m.core c).int_disabled)
unfolding core_restart
restart_lem c m = elim (Bool-cases (m.core c).halted) [
  | inl h ↦ rw h (λ i. ground arith, ground arith, ground arith)
  | inr h ↦ rw h (λ i. refl, h, refl)
]

raise_lem :
    (c i : ℕ) (m : Vm)
    → (((raise_interrupt c i m).core c).intpending i ≡ true)
      × (((raise_interrupt c i m).core c).halted ≡ false)
      × (((raise_interrupt c i m).core c).int_disabled ≡ (m.core c).int_disabled)
unfolding raise_interrupt cpu_core_restart
raise_lem c i m = let (p, h, d) = restart_lem c _ in (p i ∙ ground arith, h, d ∙ ground arith)

sleep_lem :
    (c : ℕ) (m : Vm)
    → (((put_to_sleep c m).core c).halted ≡ true)
      × (((put_to_sleep c m).core c).int_disabled ≡ (m.core c).int_disabled)
      × ((i : ℕ) → ((put_to_sleep c m).core c).intpending i ≡ (m.core c).intpending i)
sleep_lem c m = (ground arith, ground arith, λ i. ground arith)

-- An interrupt that is raised for a core behind its last look at the interrupts, and before it is on
-- the list of halted cores, does not keep it from halting: the core sleeps with the interrupt pending.
pub raise-halt :
    (run : (handler c : ℕ) → Vm → Vm) (c i : ℕ) (m : Vm)
    → (m.core c).int_disabled ≡ false
    → (m₁ : Vm) × (cpu_core_halt c (raise_interrupt c i m) ≡ some m₁)
      × ((m₁.core c).intpending i ≡ true)
      × (halt_resume run c m₁ ≡ none)
unfolding cpu_core_halt halt_resume
raise-halt run c i m e =
    let m' = raise_interrupt c i m in
    let (p', h', d') = raise_lem c i m in
    let (h, d, p) = sleep_lem c m' in (put_to_sleep c m', rw (d', e) refl, p i ∙ p', rw h refl)

abbrev pub counted : (c : ℕ) → Vm → Vm
counted c m = set_core c (record (m.core c) { irq_count = (m.core c).irq_count + 1 }) m

abbrev pub enabled : (c : ℕ) → Vm → Vm
enabled c m = set_core c (record (m.core c) { int_disabled = false }) m

-- What becomes of the interrupt `i` that is pending at the core `c` with interrupts disabled, when the
-- signal arrives, and when the core then enables its interrupts.
pub record PutOff (run : (handler c : ℕ) → Vm → Vm) (c i : ℕ) (m : Vm) : Type 0 where
  pub is_pending : (m.core c).intpending i ≡ true
  pub is_disabled : (m.core c).int_disabled ≡ true
  pub only_counts : sigusr1_handler run c m ≡ counted c m
  pub then_taken :
      TakesLowest run c 0 i (enabled c (counted c m)) (cpu_enable_interrupts run c (counted c m))
