-- ===== src/Sched/Start.antt =====
-- kernel_sched.c: initialize_scheduler, run_scheduler and idle_thread.
use disasteros.Common.{
  ℕ, ◌<◌, ◌≡◌, ap, subst, ◌∙◌, true, false, Option, none, some, [], arith, update, update_self, ltb,
  if◌then◌else◌,
}
use disasteros.Sched.Thread.{Sched, running, ctx_dirty, idle_thread, idle, no_timeout, max_cores}
use disasteros.Sched.Valid.{IsValid, on_core-update}
use disasteros.Sched.Handoff.{OnCpu, HasIdle, Handoff}
use disasteros.Sched.Switch.{yield}
use disasteros.Sched.Yield.{yield-Handoff}

-- `initialize_scheduler`
unfoldable pub initialize_scheduler : Sched → Sched
initialize_scheduler s = record s { queue = λ p. []; timeout_list = [] }

-- `run_scheduler` up to the call of `idle_thread`. The TCB of the idle thread is a part of `cctx`,
-- so its other fields are zero before.
unfoldable pub run_scheduler : (core : ℕ) → Sched → Sched
run_scheduler core s = record s {
  tcb = update s.tcb core (record (s.tcb core) {
    owner_pcb = 0;
    type = idle_thread;
    state = running;
    phase = ctx_dirty;
    wakeup_time = no_timeout;
  });
  live = update s.live core true;
  current_thread = update s.current_thread core core;
  preemption = update s.preemption core true;
}

-- The test of the loop in `idle_thread`, behind each `yield`: `none` is another halt of the core and
-- another `yield`, `some` the end of the function.
unfoldable pub idle_test : (core : ℕ) → Sched → Option Sched
idle_test core s =
    if ltb 0 s.active_threads then none else some (record s { timer = update s.timer core none })

-- A machine without threads is valid when the lists are empty.
pub initialize_scheduler-IsValid :
    (s : Sched) → ((t : ℕ) → s.live t ≡ false) → IsValid (initialize_scheduler s)
unfolding initialize_scheduler
initialize_scheduler-IsValid s h = record {
  timed = λ t. ground (arith, h t);
  listed = λ t. ground arith;
  queued = λ p t. ground arith;
  enqueued = λ t. ground (arith, h t);
  bounded = λ t. ground (arith, h t);
  remembered = λ t. ground (arith, h t);
}

-- A core that has not been started: its idle thread is not in use and its memory is zero, and no
-- thread runs on it.
pub record NotStarted (core : ℕ) (s : Sched) : Type 0 where
  pub is_core : core < max_cores
  pub unused : s.live core ≡ false
  pub no_thread : s.live (s.current_thread core) ≡ false
  pub no_priority : (s.tcb core).priority ≡ 0
  pub no_contention : (s.tcb core).mutex_contention ≡ false

run_scheduler-IsValid :
    (core : ℕ) (s : Sched) → NotStarted core s → IsValid s → IsValid (run_scheduler core s)
unfolding run_scheduler
run_scheduler-IsValid core s n v = record {
  timed = λ t. ground (arith, v.timed t);
  listed = λ t. ground (arith, v.listed t, n.unused);
  queued = λ p t. ground (arith, v.queued p t, n.unused);
  enqueued = λ t.
      ground
        (arith, v.enqueued t, n.no_thread, on_core-update max_cores t core core s.current_thread);
  bounded = λ t. ground (arith, v.bounded t, n.no_priority);
  remembered = λ t. ground (arith, v.remembered t, n.no_contention);
}

run_scheduler-OnCpu : (core : ℕ) (s : Sched) → NotStarted core s → OnCpu core (run_scheduler core s)
unfolding run_scheduler
run_scheduler-OnCpu core s n = record {
  is_core = n.is_core;
  live = ground arith;
  dirty = ground arith;
  started = ground arith;
}

run_scheduler-HasIdle : (core : ℕ) (s : Sched) → HasIdle core (run_scheduler core s)
unfolding run_scheduler
run_scheduler-HasIdle core s = record { idle_live = ground arith; idle_type = ground arith }

-- A core that enters the scheduler: `run_scheduler` keeps the invariant, and gives the core its idle
-- thread. The first `yield` of that thread then passes its assertions, returns that preemption was
-- on, and leaves a state that is fit for `gain`.
pub run_scheduler-Handoff :
    (core curtime : ℕ) (s : Sched)
    → NotStarted core s
    → IsValid s
    → IsValid (run_scheduler core s)
      × HasIdle core (run_scheduler core s)
      × (s' : Sched) × (yield core idle curtime (run_scheduler core s) ≡ some (true, s'))
      × Handoff core core s'
unfolding run_scheduler
run_scheduler-Handoff core curtime s n v =
    let v' = run_scheduler-IsValid core s n v in
    let on = run_scheduler-OnCpu core s n in
    let has = run_scheduler-HasIdle core s in
    let (s', e, h) = yield-Handoff core idle curtime v' on has in
    (
      v',
      has,
      s',
      e ∙ ap (λ b. some (b, s')) (update_self s.preemption core true),
      subst (λ t. Handoff core t s') (update_self s.current_thread core core) h,
    )
