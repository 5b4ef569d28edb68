-- ===== src/Cc/Mutex.antt =====
-- kernel_cc.c: `Mutex_Lock` and `Mutex_Unlock`, one atomic operation on the lock byte at a time.
use disasteros.Common.{
  ℕ, ◌+◌, ◌-◌, ◌≡◌, Bool, true, false, not, if◌then◌else◌, update, ◌==◌, ltb, arith, refl, ap, ◌∙◌,
}

-- `MUTEX_SPINS`
abbrev pub mutex_spins : ℕ
mutex_spins = 1000

-- Where a thread is in `Mutex_Lock`: outside, at the test of the outer loop, in the inner loop with
-- the local variable `spin`, or past it, with the lock.
pub data Phase : Type 0 where
  outside testing : Phase
  spinning : (spin : ℕ) → Phase
  holding : Phase

abbrev pub holds : Phase → Bool
holds holding = true
holds outside = false
holds testing = false
holds (spinning spin) = false

-- A mutex, the threads at it, and how often each called `yield(SCHED_MUTEX)`.
pub record Spinlock : Type 0 where
  pub lock : Bool
  pub phase : ℕ → Phase
  pub yields : ℕ → ℕ

abbrev pub go_to : (t : ℕ) → Phase → Spinlock → Spinlock
go_to t p m = record m { phase = update m.phase t p }

-- The call of `Mutex_Lock`.
unfoldable pub mutex_enter : (t : ℕ) → Spinlock → Spinlock
mutex_enter t m = go_to t testing m

-- `__atomic_test_and_set`, the test of the outer loop.
unfoldable pub mutex_test : (t : ℕ) → Spinlock → Spinlock
mutex_test t m =
    go_to t (if m.lock then spinning mutex_spins else holding) (record m { lock = true })

-- `if(get_core_preemption()) yield(SCHED_MUTEX)`, with `preemption` for the test.
unfoldable pub give_way : (t : ℕ) → (preemption : Bool) → Spinlock → Spinlock
give_way t preemption m =
    if preemption then record m { yields = update m.yields t (m.yields t + 1) } else m

-- One round of the inner loop, with its test `__atomic_load_n`.
unfoldable pub mutex_spin : (t : ℕ) → (preemption : Bool) → (spin : ℕ) → Spinlock → Spinlock
mutex_spin t preemption spin m =
    if not m.lock
    then go_to t testing m
    else if ltb 0 spin
    then go_to t (spinning (spin - 1)) m
    else go_to t (spinning mutex_spins) (give_way t preemption m)

-- `Mutex_Unlock`
unfoldable pub mutex_unlock : (t : ℕ) → Spinlock → Spinlock
mutex_unlock t m = go_to t outside (record m { lock = false })

-- The operations of the threads, in any order. Each thread goes through `Mutex_Lock`, and calls
-- `Mutex_Unlock` when it has the lock.
pub data MutexStep : Spinlock → Spinlock → Type 0 where
  enters : {m : Spinlock} (t : ℕ) → m.phase t ≡ outside → MutexStep m (mutex_enter t m)
  tests : {m : Spinlock} (t : ℕ) → m.phase t ≡ testing → MutexStep m (mutex_test t m)
  spins :
      {m : Spinlock} (t : ℕ) (preemption : Bool) (spin : ℕ)
      → m.phase t ≡ spinning spin
      → MutexStep m (mutex_spin t preemption spin m)
  unlocks : {m : Spinlock} (t : ℕ) → m.phase t ≡ holding → MutexStep m (mutex_unlock t m)

pub data MutexRun (m : Spinlock) : Spinlock → Type 0 where
  here : MutexRun m m
  next : {m₁ m₂ : Spinlock} → MutexRun m m₁ → MutexStep m₁ m₂ → MutexRun m m₂

-- Nobody has the mutex, and its byte is clear; or the thread `t` has it alone, and its byte is set.
pub data Owned (m : Spinlock) : Type 0 where
  free : m.lock ≡ false → ((u : ℕ) → holds (m.phase u) ≡ false) → Owned m
  owned : (t : ℕ) → m.lock ≡ true → ((u : ℕ) → holds (m.phase u) ≡ (u == t)) → Owned m

-- A step of a thread that has not the lock, after which it has not.
go_to-Owned :
    (t : ℕ) (p : Phase) (m : Spinlock)
    → holds (m.phase t) ≡ false
    → holds p ≡ false
    → Owned m
    → Owned (go_to t p m)
go_to-Owned t p m e f (free l h) = free l (λ u. ground (arith, h u))
go_to-Owned t p m e f (owned o l h) = owned o l (λ u. ground (arith, h u))

mutex_test-Owned : (t : ℕ) (m : Spinlock) → m.phase t ≡ testing → Owned m → Owned (mutex_test t m)
unfolding mutex_test
mutex_test-Owned t m e (free l h) = owned t refl (λ u. ground (arith, h u))
mutex_test-Owned t m e (owned o l h) =
    let was : holds (m.phase t) ≡ false = ap holds e in owned o refl (λ u. ground (arith, h u, was))

give_way-Owned : (t : ℕ) (b : Bool) (m : Spinlock) → Owned m → Owned (give_way t b m)
unfolding give_way
give_way-Owned t false m o = o
give_way-Owned t true m (free l h) = free l h
give_way-Owned t true m (owned o l h) = owned o l h

give_way-phase : (t : ℕ) (b : Bool) (m : Spinlock) → (give_way t b m).phase ≡ m.phase
unfolding give_way
give_way-phase t false m = refl
give_way-phase t true m = refl

either-Owned : (b : Bool) {m m' : Spinlock} → Owned m → Owned m' → Owned (if b then m else m')
either-Owned true o o' = o
either-Owned false o o' = o'

mutex_spin-Owned :
    (t : ℕ) (preemption : Bool) (spin : ℕ) (m : Spinlock)
    → m.phase t ≡ spinning spin
    → Owned m
    → Owned (mutex_spin t preemption spin m)
unfolding mutex_spin
mutex_spin-Owned t preemption spin m e o =
    let was : holds (m.phase t) ≡ false = ap holds e in
    let k = give_way-phase t preemption m in
    either-Owned (not m.lock) (go_to-Owned t testing m was refl o) (
      either-Owned (ltb 0 spin) (go_to-Owned t (spinning (spin - 1)) m was refl o) (
        go_to-Owned t (spinning mutex_spins) (give_way t preemption m)
          (ap (λ g. holds (g t)) k ∙ was) refl (give_way-Owned t preemption m o)))

mutex_unlock-Owned :
    (t : ℕ) (m : Spinlock) → m.phase t ≡ holding → Owned m → Owned (mutex_unlock t m)
unfolding mutex_unlock
mutex_unlock-Owned t m e (free l h) = free refl (λ u. ground (arith, h u))
mutex_unlock-Owned t m e (owned o l h) =
    let was : holds (m.phase t) ≡ true = ap holds e in
    free refl (λ u. ground (arith, h u, h t, was))

MutexStep-Owned : {m m' : Spinlock} → MutexStep m m' → Owned m → Owned m'
unfolding mutex_enter
MutexStep-Owned {m} (enters t e) o = go_to-Owned t testing m (ap holds e) refl o
MutexStep-Owned {m} (tests t e) o = mutex_test-Owned t m e o
MutexStep-Owned {m} (spins t preemption spin e) o = mutex_spin-Owned t preemption spin m e o
MutexStep-Owned {m} (unlocks t e) o = mutex_unlock-Owned t m e o

MutexRun-Owned : {m m' : Spinlock} → MutexRun m m' → Owned m → Owned m'
MutexRun-Owned here o = o
MutexRun-Owned (next r s) o = MutexStep-Owned s (MutexRun-Owned r o)

-- However the threads interleave, from a clear mutex that nobody is at: either nobody has the lock
-- and its byte is clear, or one thread has it, no other, and its byte is set.
pub MutexRun-exclusive :
    {m m' : Spinlock} → m.lock ≡ false → ((t : ℕ) → m.phase t ≡ outside) → MutexRun m m' → Owned m'
MutexRun-exclusive l e r = MutexRun-Owned r (free l (λ t. ap holds (e t)))
