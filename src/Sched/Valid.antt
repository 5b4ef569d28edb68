-- ===== src/Sched/Valid.antt =====
-- The invariant of the scheduler.
use disasteros.Common.{
  ℕ, zero, suc, ◌==◌, ◌||◌, ◌≤◌, ◌<◌, ◌≡◌, ◌≢◌, refl, Bool, true, false, List, [], ◌∷◌, arith,
  count, update,
}
use disasteros.Sched.Thread.{
  ready, stopped, ctx_clean, Tcb, Sched, no_timeout, mfq_queues, normal_thread, max_cores,
}

-- The wakeup times do not fall along the list.
abbrev pub Sorted : (ℕ → Tcb) → List ℕ → Type 0
Sorted tcb [] = Unit
Sorted tcb (t ∷ []) = Unit
Sorted tcb (t ∷ u ∷ us) = ((tcb t).wakeup_time ≤ (tcb u).wakeup_time) × Sorted tcb (u ∷ us)

-- Whether a thread is the current one of one of the first `n` cores.
abbrev pub on_core : (n t : ℕ) → (ℕ → ℕ) → Bool
on_core zero t current = false
on_core (suc n) t current = t == current n || on_core n t current

pub on_core-update :
    (n t core next : ℕ) (f : ℕ → ℕ)
    → on_core n t (update f core next) ≡ false
    → t ≢ f core
    → on_core n t f ≡ false
on_core-update zero t core next f h d = refl
on_core-update (suc n) t core next f h d = ground (arith, on_core-update n t core next f)

pub on_core_self :
    (n core next : ℕ) (f : ℕ → ℕ) → core < n → on_core n next (update f core next) ≡ true
on_core_self zero core next f h = absurd (omega arith)
on_core_self (suc n) core next f h = ground (arith, on_core_self n core next f)

-- What holds of every allocated thread between two steps, on any core. A timeout is set exactly of
-- the threads that are on the timeout list, once each, and those are STOPPED. Idle threads are on no list. A queue holds threads
-- of its own priority that are READY with a saved context, once each, and it holds all of them but
-- the idle threads and those that a core has just been given: no ready thread is lost. Priorities, also the remembered ones, name a queue.
pub record IsValid (s : Sched) : Type 0 where
  pub timed :
      (t : ℕ)
      → s.live t ≡ true
      → (s.tcb t).wakeup_time ≢ no_timeout
      → ((s.tcb t).state ≡ stopped) × (count t s.timeout_list ≡ 1)
  pub listed :
      (t : ℕ)
      → 0 < count t s.timeout_list
      → (s.live t ≡ true) × ((s.tcb t).wakeup_time ≢ no_timeout) × ((s.tcb t).type ≡ normal_thread)
  pub queued :
      (p t : ℕ)
      → 0 < count t (s.queue p)
      → (s.live t ≡ true)
        × ((s.tcb t).type ≡ normal_thread)
        × ((s.tcb t).priority ≡ p)
        × ((s.tcb t).state ≡ ready)
        × ((s.tcb t).phase ≡ ctx_clean)
        × (count t (s.queue p) ≡ 1)
  pub enqueued :
      (t : ℕ)
      → s.live t ≡ true
      → (s.tcb t).state ≡ ready
      → (s.tcb t).phase ≡ ctx_clean
      → (s.tcb t).type ≡ normal_thread
      → on_core max_cores t s.current_thread ≡ false
      → 0 < count t (s.queue (s.tcb t).priority)
  pub bounded : (t : ℕ) → s.live t ≡ true → (s.tcb t).priority < mfq_queues
  pub remembered :
      (t : ℕ)
      → s.live t ≡ true
      → (s.tcb t).mutex_contention ≡ true
      → (s.tcb t).prev_priority < mfq_queues
