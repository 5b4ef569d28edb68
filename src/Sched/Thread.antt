-- ===== src/Sched/Thread.antt =====
-- The data types of kernel_sched.h, and how the cause of a yield moves a thread's priority.
use disasteros.Common.{
  ℕ, ◌+◌, ◌-◌, ◌%◌, ◌^◌, Bool, true, false, ◌&&◌, not, Option, none, some, List, ltb, if◌then◌else◌,
  update,
}

-- `Thread_state`
pub data ThreadState : Type 0 where
  init ready running stopped exited : ThreadState

-- `Thread_phase`
pub data ThreadPhase : Type 0 where
  ctx_clean ctx_dirty : ThreadPhase

-- `Thread_type`
pub data ThreadType : Type 0 where
  idle_thread normal_thread : ThreadType

-- `enum SCHED_CAUSE`
pub data SchedCause : Type 0 where
  quantum io mutex pipe poll idle user : SchedCause

-- `TCB`. Threads, processes and PTCBs are named by numbers in place of addresses. The saved machine
-- context and the stack are not part of the model.
pub record Tcb : Type 0 where
  pub owner_pcb : ℕ
  pub owner_ptcb : Option ℕ
  pub type : ThreadType
  pub state : ThreadState
  pub phase : ThreadPhase
  pub priority : ℕ
  pub mutex_contention : Bool
  pub prev_priority : ℕ
  pub wakeup_time : ℕ
  pub prev : ℕ
  pub next : ℕ

abbrev pub max_cores : ℕ
max_cores = 32

abbrev pub mfq_queues : ℕ
mfq_queues = 15

abbrev pub mfq_timeslices : ℕ
mfq_timeslices = 5

-- QUANTUM, in microseconds.
abbrev pub quantum_usec : ℕ
quantum_usec = 10_000

-- `TimerDuration` is a uint64_t, and NO_TIMEOUT its greatest value.
abbrev pub u64_mod : ℕ
u64_mod = 2 ^ 64

abbrev pub no_timeout : ℕ
no_timeout = 2 ^ 64 - 1

abbrev pub u32_mod : ℕ
u32_mod = 2 ^ 32

-- The scheduler's globals. `cctx[core]` is spread over the fields that are functions of a core;
-- its `idle_thread` is the thread whose number is the core's. `live` says which TCBs are allocated,
-- and `timer` is the alarm that is set on a core.
pub record Sched : Type 0 where
  pub tcb : ℕ → Tcb
  pub live : ℕ → Bool
  pub queue : ℕ → List ℕ
  pub timeout_list : List ℕ
  pub current_thread : ℕ → ℕ
  pub preemption : ℕ → Bool
  pub timer : ℕ → Option ℕ
  pub timeslices : ℕ
  pub active_threads : ℕ

abbrev pub set_tcb : ℕ → Tcb → Sched → Sched
set_tcb t b s = record s { tcb = update s.tcb t b }

-- The decrement of a uint32_t.
abbrev pub dec32 : ℕ → ℕ
dec32 n = (n + u32_mod - 1) % u32_mod

abbrev pub is_mutex : SchedCause → Bool
is_mutex mutex = true
is_mutex _ = false

-- "Restore fairness" in `yield`.
unfoldable pub restore_fairness : SchedCause → Tcb → Tcb
restore_fairness cause b =
    if b.mutex_contention && not (is_mutex cause)
    then record b { priority = b.prev_priority; prev_priority = 0; mutex_contention = false }
    else b

abbrev pub lower : Tcb → Tcb
lower b = if ltb b.priority (mfq_queues - 1) then record b { priority = b.priority + 1 } else b

abbrev pub raise : Tcb → Tcb
raise b = if ltb 0 b.priority then record b { priority = b.priority - 1 } else b

abbrev pub remember_priority : Tcb → Tcb
remember_priority b =
    if b.mutex_contention
    then b
    else record b { prev_priority = b.priority; mutex_contention = true }

-- `switch(cause)` in `yield`. The case of SCHED_MUTEX falls through to that of SCHED_QUANTUM.
unfoldable pub adjust_priority : SchedCause → Tcb → Tcb
adjust_priority mutex b = lower (remember_priority b)
adjust_priority quantum b = lower b
adjust_priority user b = raise b
adjust_priority pipe b = raise b
adjust_priority io b = raise b
adjust_priority poll b = b
adjust_priority idle b = b

-- `switch(current->state)` in `yield`: the new state, and whether the thread stays ready. The state
-- INIT is the failed assertion.
unfoldable pub leave_cpu : ThreadState → Option (ThreadState × Bool)
leave_cpu running = some (ready, true)
leave_cpu ready = some (ready, true)
leave_cpu stopped = some (stopped, false)
leave_cpu exited = some (exited, false)
leave_cpu init = none

-- `spawn_thread`. The address `t` comes from the allocator, and what is not set here is what the
-- memory held, `old`. (`owner_ptcb`, `prev_priority`, `prev` and `next` are not initialised.)
unfoldable pub spawn_thread : ℕ → ℕ → Sched → Sched
spawn_thread t pcb s = record s {
  tcb = update s.tcb t (record old {
    owner_pcb = pcb;
    type = normal_thread;
    state = init;
    phase = ctx_clean;
    wakeup_time = no_timeout;
    priority = 0;
    mutex_contention = false;
  });
  live = update s.live t true;
  active_threads = (s.active_threads + 1) % u32_mod;
}
  where
    old : Tcb
    old = s.tcb t

-- `release_TCB`
unfoldable pub release_tcb : ℕ → Sched → Sched
release_tcb t s = record s { live = update s.live t false; active_threads = dec32 s.active_threads }
