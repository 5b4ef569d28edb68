-- ===== src/Tests/Mutexes.antt =====
-- The mutex of the small machine.
use disasteros.Common.{refl, true, false}
use disasteros.Cc.Mutex.{
  outside, Spinlock, Owned, mutex_enter, mutex_test, MutexRun, here, next, enters, tests, spins,
  unlocks, mutex_spins, mutex_spin, mutex_unlock, MutexRun-exclusive,
}
use disasteros.Cc.Spin.{Waiting}

abbrev unused : Spinlock
unused = record { lock = false; phase = λ t. outside; yields = λ t. 0 }

-- Threads 3 and 5 call `Mutex_Lock`; 3 gets the mutex, 5 spins once, 3 gives it back.
abbrev contested : Spinlock
contested = mutex_test 5 (mutex_test 3 (mutex_enter 5 (mutex_enter 3 unused)))

abbrev released : Spinlock
released = mutex_unlock 3 (mutex_spin 5 true mutex_spins contested)

released-MutexRun : MutexRun unused released
unfolding mutex_enter mutex_test mutex_spin mutex_unlock
released-MutexRun =
    next
      (next
        (next (next (next (next here (enters 3 refl)) (enters 5 refl)) (tests 3 refl))
          (tests 5 refl))
        (spins 5 true mutex_spins refl))
      (unlocks 3 refl)

MutexRun-exclusive_example : Owned released
MutexRun-exclusive_example = MutexRun-exclusive refl (λ t. refl) released-MutexRun

contested-Waiting : Waiting 5 mutex_spins 0 contested
unfolding mutex_enter mutex_test
contested-Waiting = record { set = refl; at = refl; yielded = refl }
