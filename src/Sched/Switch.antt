-- ===== src/Sched/Switch.antt =====
-- Sleeping, the context switch of `yield`, and the start of a new time slice in `gain`.
use disasteros.Common.{
  ℕ, ◌+◌, ◌*◌, ◌%◌, Bool, true, false, ◌||◌, Option, none, some, leb, ◌==◌, if◌then◌else◌, update,
  ◌>>=◌,
}
use disasteros.Sched.Thread.{
  ThreadState, init, ready, running, stopped, exited, ctx_clean, ctx_dirty, idle_thread,
  normal_thread, SchedCause, Tcb, Sched, mfq_timeslices, quantum_usec, u32_mod, set_tcb,
  restore_fairness, adjust_priority, leave_cpu, release_tcb,
}
use disasteros.Sched.Queue.{
  sched_register_timeout, sched_queue_add, sched_queue_select, sched_boost,
}

-- The first half of `yield` on the current TCB: the timer is cancelled, preemption goes off, the
-- priority is adjusted, and the thread gives up the state RUNNING.
unfoldable pub retire : (core : ℕ) → SchedCause → Sched → Option (Bool × Sched)
unfolding restore_fairness adjust_priority leave_cpu
retire core cause s = do
  (state, current_ready) ← leave_cpu (s.tcb t).state
  let b = adjust_priority cause (restore_fairness cause (s.tcb t))
  some (
    current_ready,
    record s {
      tcb = update s.tcb t (record b { state = state });
      timer = update s.timer core none;
      preemption = update s.preemption core false;
    },
  )
  where
    t : ℕ
    t = s.current_thread core

-- A boost at every fifth time slice.
unfoldable pub boost_when_due : Sched → Sched
boost_when_due s =
    if leb mfq_timeslices s.timeslices then sched_boost (record s { timeslices = 0 }) else s

abbrev pub choose : Option ℕ → Bool → (current core : ℕ) → ℕ
choose (some t) current_ready current core = t
choose none true current core = current
choose none false current core = core

-- "link the current and next TCB", and make the next thread the core's.
unfoldable pub switch_to : (core next : ℕ) → Sched → Sched
switch_to core next s = record s {
  tcb = update linked next (record (linked next) { prev = current });
  current_thread = update s.current_thread core next;
}
  where
    current : ℕ
    current = s.current_thread core

    linked : ℕ → Tcb
    linked = update s.tcb current (record (s.tcb current) { next = next })

-- `yield` up to the context switch: what `preempt_off` returned, which the thread keeps on its stack
-- for its `gain`, and the state in which the chosen thread has the core. `curtime` is what
-- `bios_clock` returns in `sched_queue_select`.
unfoldable pub yield : (core : ℕ) → SchedCause → (curtime : ℕ) → Sched → Option (Bool × Sched)
yield core cause curtime s = do
  (current_ready, s₁) ← retire core cause s
  (found, s₂) ← sched_queue_select curtime (boost_when_due s₁)
  some (
    s.preemption core,
    switch_to core (choose found current_ready (s.current_thread core) core) s₂,
  )

-- `switch(prev->state)` in `gain`, for a previous thread other than the current one.
unfoldable pub settle : ℕ → Sched → Option Sched
settle p s = elim (s.tcb p).state [
  | ready ↦ some (elim (s.tcb p).type [ idle_thread ↦ s | normal_thread ↦ sched_queue_add p s ])
  | exited ↦ some (release_tcb p s)
  | stopped ↦ some s
  | init ↦ none
  | running ↦ none
]

-- `gain`, which the thread that got the core runs first.
unfoldable pub gain : (core : ℕ) → (preempt : Bool) → Sched → Option Sched
gain core preempt s = do
  s' ←
      if t == p
      then some started
      else settle p (set_tcb p (record (started.tcb p) { phase = ctx_clean }) started)
  some (record s' {
    preemption = update s'.preemption core (preempt || s'.preemption core);
    timer = update s'.timer core (some (quantum_usec * ((s'.tcb t).priority + 1)));
  })
  where
    t : ℕ
    t = s.current_thread core

    p : ℕ
    p = (s.tcb t).prev

    started : Sched
    started = record s {
      timeslices = (s.timeslices + 1) % u32_mod;
      tcb = update s.tcb t (record (s.tcb t) { state = running; phase = ctx_dirty });
    }

abbrev pub may_sleep : ThreadState → Bool
may_sleep stopped = true
may_sleep exited = true
may_sleep _ = false

-- `sleep_releasing`, up to the context switch of its `yield`. The mutex is released by the caller's
-- model. The clock is read twice: at `curtime` for the timeout and at `later` in the scheduler.
unfoldable pub sleep_releasing :
    (core : ℕ)
    → ThreadState
    → SchedCause
    → (timeout curtime later : ℕ) → Sched
    → Option (Bool × Sched)
sleep_releasing core state cause timeout curtime later s =
    if may_sleep state then yield core cause later registered else none
  where
    t : ℕ
    t = s.current_thread core

    marked : Sched
    marked = set_tcb t (record (s.tcb t) { state = state }) s

    registered : Sched
    registered = elim state [
      | exited ↦ marked
      | _ ↦ sched_register_timeout t timeout curtime marked
    ]
