-- ===== src/Bios/Later.antt =====
-- bios.c: what a round of the interrupt controller leaves as it was.
use disasteros.Common.{
  ℕ, zero, suc, ◌+◌, ◌<◌, ◌≡◌, ◌≢◌, refl, ◌∙◌, Bool, true, List, [], ◌∷◌, arith, Bool-cases, inl,
  inr,
}
use disasteros.Bios.{Vm, alarm, raise_interrupt, cpu_core_restart, core_restart}
use disasteros.Bios.Serial.{Selected, is_due, handle_con, handle_kbd, handle_devices, raise_alarms}

-- What holds between two points of a round: no pending interrupt is lost, and the terminal `d` and the
-- clock are as they were.
pub record Later (d : ℕ) (m m' : Vm) : Type 0 where
  pub kept : (c i : ℕ) → (m.core c).intpending i ≡ true → (m'.core c).intpending i ≡ true
  pub same_terminal : m'.terminal d ≡ m.terminal d
  pub same_clock : m'.system_clock ≡ m.system_clock

Later-refl : (d : ℕ) (m : Vm) → Later d m m
Later-refl d m = record { kept = λ c i p. p; same_terminal = refl; same_clock = refl }

restart-Later : (d c : ℕ) (m : Vm) → Later d m (core_restart c m)
unfolding core_restart
restart-Later d c m = elim (Bool-cases (m.core c).halted) [
  | inl h ↦
      rw h (record { kept = λ u i p. ground (arith, p); same_terminal = refl; same_clock = refl })
  | inr h ↦ rw h (Later-refl d m)
]

pub Later-trans : (d : ℕ) (m₁ m₂ m₃ : Vm) → Later d m₁ m₂ → Later d m₂ m₃ → Later d m₁ m₃
Later-trans d m₁ m₂ m₃ a b = record {
  kept = λ c i p. b.kept c i (a.kept c i p);
  same_terminal = b.same_terminal ∙ a.same_terminal;
  same_clock = b.same_clock ∙ a.same_clock;
}

pub raise-Later : (d c i : ℕ) (m : Vm) → Later d m (raise_interrupt c i m)
unfolding raise_interrupt cpu_core_restart
raise-Later d c i m =
    Later-trans d m _ _
      (record { kept = λ u j p. ground (arith, p); same_terminal = refl; same_clock = refl })
      (restart-Later d c _)

pub raise_pending : (c i : ℕ) (m : Vm) → ((raise_interrupt c i m).core c).intpending i ≡ true
unfolding raise_interrupt cpu_core_restart
raise_pending c i m = (restart-Later 0 c _).kept c i (ground arith)

-- The other terminals.
pub con-Later : (d e : ℕ) (set : Bool) (m : Vm) → d ≢ e → Later d m (handle_con e set m)
unfolding handle_con
con-Later d e set m n = elim (Bool-cases (is_due set m.system_clock (m.terminal e).con)) [
  | inl h ↦ rw h (
      Later-trans d m _ _
        (record { kept = λ u j p. p; same_terminal = ground (arith, n); same_clock = refl })
        (raise-Later d _ _ _))
  | inr h ↦ rw h (Later-refl d m)
]

pub kbd-Later : (d e : ℕ) (set : Bool) (m : Vm) → d ≢ e → Later d m (handle_kbd e set m)
unfolding handle_kbd
kbd-Later d e set m n = elim (Bool-cases (is_due set m.system_clock (m.terminal e).kbd)) [
  | inl h ↦ rw h (
      Later-trans d m _ _
        (record { kept = λ u j p. p; same_terminal = ground (arith, n); same_clock = refl })
        (raise-Later d _ _ _))
  | inr h ↦ rw h (Later-refl d m)
]

pub alarms-Later : (d : ℕ) (cs : List ℕ) (m : Vm) → Later d m (raise_alarms cs m)
unfolding raise_alarms
alarms-Later d [] m = Later-refl d m
alarms-Later d (c ∷ cs) m = Later-trans d m _ _ (raise-Later d c alarm m) (alarms-Later d cs _)

pub devices-Later :
    (d n e : ℕ) (sel : ℕ → Selected) (m : Vm) → d < e → Later d m (handle_devices n e sel m)
unfolding handle_devices
devices-Later d zero e sel m l = Later-refl d m
devices-Later d (suc n) e sel m l =
    Later-trans d m _ _ (con-Later d e (sel e).con_set m (omega arith)) (
      Later-trans d _ _ _ (kbd-Later d e (sel e).kbd_set _ (omega arith))
        (devices-Later d n (e + 1) sel _ (omega arith)))
