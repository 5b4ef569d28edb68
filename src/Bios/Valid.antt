-- ===== src/Bios/Valid.antt =====
-- bios.c: what holds of the list of halted cores, whatever the cores and the interrupt controller do.
use disasteros.Common.{
  ℕ, zero, suc, refl, ◌+◌, ◌<◌, ◌≡◌, Bool, true, false, some, List, [], ◌∷◌, if◌then◌else◌, count,
  count-erase, has_of_count, arith, subst, some_inj, guard-eq-some,
}
use disasteros.Bios.{Core, Vm, set_core, core_restart, restart_first, restart_from, cpu_core_halt}

abbrev pub bit : Bool → ℕ
bit b = if b then 1 else 0

-- The list of halted cores holds those that are halted, once each.
pub record IsValid (m : Vm) : Type 0 where
  pub listed : (c : ℕ) → c < m.ncores → count c m.halted_list ≡ bit ((m.core c).halted)

either :
    (b : Bool) {m m' : Vm}
    → (b ≡ true → IsValid m)
    → (b ≡ false → IsValid m')
    → IsValid (if b then m else m')
either true f g = f refl
either false f g = g refl

pub core_restart-IsValid : (c : ℕ) (m : Vm) → IsValid m → IsValid (core_restart c m)
unfolding core_restart
core_restart-IsValid c m v =
    either (m.core c).halted
      (λ h. record {
        listed = λ d l.
            ground
              (arith, v.listed d l, count-erase c d m.halted_list, has_of_count c m.halted_list);
      })
      (λ h. v)

pub restart_first-IsValid :
    (cs : List ℕ) (m : Vm) → m.halted_list ≡ cs → IsValid m → IsValid (restart_first cs m)
unfolding restart_first core_restart
restart_first-IsValid [] m e v = v
restart_first-IsValid (c ∷ cs) m e v =
    either (m.core c).halted
      (λ h. record {
        listed = λ d l.
            let k : count d (c ∷ cs) ≡ bit ((m.core d).halted) = rw e at v.listed d l in
            ground (arith, k, count-erase c d cs, has_of_count c cs);
      })
      (λ h. record {
        listed = λ d l.
            let k : count d (c ∷ cs) ≡ bit ((m.core d).halted) = rw e at v.listed d l in
            ground (arith, k, h);
      })

pub restart_from-IsValid : (n c : ℕ) (m : Vm) → IsValid m → IsValid (restart_from n c m)
unfolding restart_from
restart_from-IsValid zero c m v = v
restart_from-IsValid (suc n) c m v =
    restart_from-IsValid n (c + 1) (core_restart c m) (core_restart-IsValid c m v)

pub halt-IsValid :
    (c : ℕ) (m : Vm) {m' : Vm}
    → (m.core c).halted ≡ false
    → cpu_core_halt c m ≡ some m'
    → IsValid m
    → IsValid m'
unfolding cpu_core_halt
halt-IsValid c m h e v =
    let (d, e') = guard-eq-some (m.core c).int_disabled e in
    subst IsValid (some_inj e') (record { listed = λ u l. ground (arith, v.listed u l, h) })

-- An assignment to a core, but not to `halted`.
pub set_core-IsValid :
    (c : ℕ) (k : Core) (m : Vm)
    → k.halted ≡ (m.core c).halted
    → IsValid m
    → IsValid (set_core c k m)
set_core-IsValid c k m h v = record { listed = λ u l. ground (arith, v.listed u l, h) }
