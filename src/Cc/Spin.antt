-- ===== src/Cc/Spin.antt =====
-- kernel_cc.c: the inner loop of `Mutex_Lock`, while another thread keeps the lock.
use disasteros.Common.{
  ℕ, zero, suc, ◌+◌, ◌*◌, ◌-◌, ◌≡◌, Bool, true, false, if◌then◌else◌, arith, refl, ap, ◌∙◌, sym,
  subst, subst₂, ltb,
}
use disasteros.Cc.Mutex.{
  Spinlock, Phase, spinning, outside, testing, holding, mutex_spin, mutex_spins, give_way, go_to,
}

-- One more round of the inner loop for a thread that is in it.
unfoldable pub spin_on : (t : ℕ) → (preemption : Bool) → Phase → Spinlock → Spinlock
spin_on t preemption (spinning spin) m = mutex_spin t preemption spin m
spin_on t preemption outside m = m
spin_on t preemption testing m = m
spin_on t preemption holding m = m

-- `rounds` of them.
unfoldable pub spin_rounds : (rounds : ℕ) → (t : ℕ) → (preemption : Bool) → Spinlock → Spinlock
spin_rounds zero t preemption m = m
spin_rounds (suc rounds) t preemption m =
    spin_rounds rounds t preemption (spin_on t preemption (m.phase t) m)

-- The thread `t` waits for the lock with the value `spin`, and has called `yield` `y` times.
pub record Waiting (t spin y : ℕ) (m : Spinlock) : Type 0 where
  pub set : m.lock ≡ true
  pub at : m.phase t ≡ spinning spin
  pub yielded : m.yields t ≡ y

spin_on-counts :
    (t : ℕ) (preemption : Bool) (spin y : ℕ) (m : Spinlock)
    → Waiting t (suc spin) y m
    → Waiting t spin y (spin_on t preemption (m.phase t) m)
unfolding spin_on mutex_spin
spin_on-counts t preemption spin y m h =
    let p : ltb 0 (suc spin) ≡ true = ground arith in
    let next : mutex_spin t preemption (suc spin) m ≡ go_to t (spinning spin) m =
      let q : suc spin - 1 ≡ spin = omega arith in simp (h.set, p, q) refl in
    rw (h.at) (
      subst (Waiting t spin y) (sym next)
        (record { set = h.set; at = ground arith; yielded = h.yielded }))

-- What a thread that runs out of `spin` adds to the number of its calls of `yield`.
abbrev pub turn : (preemption : Bool) → ℕ
turn preemption = if preemption then 1 else 0

give_way-Waiting :
    (t y : ℕ) (b : Bool) (m : Spinlock)
    → Waiting t 0 y m
    → Waiting t mutex_spins (y + turn b) (go_to t (spinning mutex_spins) (give_way t b m))
unfolding give_way
give_way-Waiting t y true m h = record {
  set = h.set;
  at = ground arith;
  yielded = ground (arith, h.yielded);
}
give_way-Waiting t y false m h = record {
  set = h.set;
  at = ground arith;
  yielded = ground (arith, h.yielded);
}

spin_on-yields :
    (t y : ℕ) (b : Bool) (m : Spinlock)
    → Waiting t 0 y m
    → Waiting t mutex_spins (y + turn b) (spin_on t b (m.phase t) m)
unfolding spin_on mutex_spin
spin_on-yields t y b m h =
    let next : mutex_spin t b 0 m ≡ go_to t (spinning mutex_spins) (give_way t b m) =
      simp (h.set) refl in
    rw (h.at) (subst (Waiting t mutex_spins (y + turn b)) (sym next) (give_way-Waiting t y b m h))

count_down :
    (spin rest t y : ℕ) (b : Bool) (m : Spinlock)
    → Waiting t spin y m
    → (m' : Spinlock) × (spin_rounds (suc spin + rest) t b m ≡ spin_rounds rest t b m')
      × Waiting t mutex_spins (y + turn b) m'
unfolding spin_rounds
count_down zero rest t y b m h =
    let q : 1 + rest ≡ suc rest = omega arith in
    (spin_on t b (m.phase t) m, ap (λ n. spin_rounds n t b m) q, spin_on-yields t y b m h)
count_down (suc spin) rest t y b m h =
    let q : suc (suc spin) + rest ≡ suc (suc spin + rest) = omega arith in
    let (m', e, w) =
      count_down spin rest t y b (spin_on t b (m.phase t) m) (spin_on-counts t b spin y m h) in
    (m', ap (λ n. spin_rounds n t b m) q ∙ e, w)

turn-suc : (b : Bool) (n y : ℕ) → y + turn b + n * turn b ≡ y + suc n * turn b
turn-suc true n y = omega arith
turn-suc false n y = omega arith

-- While another thread keeps the lock, a thread that waits for it goes on to wait, however long. In
-- every 1001 rounds of its loop it calls `yield` once if preemption is on, and never if it is off.
pub spin_rounds_lem :
    (n t y : ℕ) (b : Bool) (m : Spinlock)
    → Waiting t mutex_spins y m
    → Waiting t mutex_spins (y + n * turn b) (spin_rounds (n * (mutex_spins + 1)) t b m)
unfolding spin_rounds
spin_rounds_lem zero t y b m h =
    let q : y ≡ y + 0 * turn b = omega arith in subst (λ k. Waiting t mutex_spins k m) q h
spin_rounds_lem (suc n) t y b m h =
    let (m', e, w) = count_down mutex_spins (n * (mutex_spins + 1)) t y b m h in
    let q : suc n * (mutex_spins + 1) ≡ suc mutex_spins + n * (mutex_spins + 1) = omega arith in
    let same = ap (λ k. spin_rounds k t b m) q ∙ e in
    subst₂ (λ k s. Waiting t mutex_spins k s) (turn-suc b n y) (sym same)
      (spin_rounds_lem n t (y + turn b) b m' w)
