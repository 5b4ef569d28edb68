-- ===== src/Tests/Machine.antt =====
-- A small machine for the tests: one core in use, with its idle thread 0. Thread 40 runs; 41 sleeps
-- with a timeout at 500; 42 and 43 are ready with priorities 0 and 3; 44 sleeps without a timeout.
use disasteros.Common.{ℕ, refl, false, none, some, [], ◌∷◌, ◌==◌, ◌||◌, if◌then◌else◌, arith}
use disasteros.Sched.Thread.{
  ThreadState, ready, running, stopped, ctx_clean, ctx_dirty, idle_thread, normal_thread, Tcb,
  Sched, no_timeout,
}
use disasteros.Sched.Valid.{IsValid}
use disasteros.Sched.Handoff.{OnCpu, HasIdle}
use disasteros.Sched.Sleep.{MaySleep}
use disasteros.Common.Int.{pos}
use disasteros.Cc.CondVar.{Kernel}
use disasteros.World.{Pipe, World, Cpu, Pcb, PidState, nulldev_fops}

abbrev pub thread : ThreadState → (priority : ℕ) → Tcb
thread st p = record {
  owner_pcb = 1;
  owner_ptcb = none;
  type = normal_thread;
  state = st;
  phase = ctx_clean;
  priority = p;
  mutex_contention = false;
  prev_priority = 0;
  wakeup_time = no_timeout;
  prev = 0;
  next = 0;
}

abbrev pub threads : ℕ → Tcb
threads t =
    if t == 40
    then record (thread running 1) { phase = ctx_dirty }
    else if t == 41
    then record (thread stopped 0) { wakeup_time = 500 }
    else if t == 42
    then thread ready 0
    else if t == 43
    then thread ready 3
    else if t == 44
    then thread stopped 2
    else record (thread ready 0) { type = idle_thread }

abbrev pub machine : Sched
machine = record {
  tcb = threads;
  live = λ t. t == 0 || t == 40 || t == 41 || t == 42 || t == 43 || t == 44;
  queue = λ p. if p == 0 then 42 ∷ [] else if p == 3 then 43 ∷ [] else [];
  timeout_list = 41 ∷ [];
  current_thread = λ core. if core == 0 then 40 else core;
  preemption = λ core. core == 0;
  timer = λ core. none;
  timeslices = 5;
  active_threads = 5;
}

pub machine-IsValid : IsValid machine
machine-IsValid = record {
  timed = λ t. ground arith;
  listed = λ t. ground arith;
  queued = λ p t. ground arith;
  enqueued = λ t. ground arith;
  bounded = λ t. ground arith;
  remembered = λ t. ground arith;
}

pub machine-OnCpu : OnCpu 0 machine
machine-OnCpu = record { is_core = ground arith; live = refl; dirty = refl; started = ground arith }

pub machine-HasIdle : HasIdle 0 machine
machine-HasIdle = record { idle_live = refl; idle_type = refl }

pub machine-MaySleep : MaySleep 0 machine
machine-MaySleep = record { on_cpu = machine-OnCpu; running = refl; normal = refl }

abbrev pub kernel : Kernel
kernel = record {
  sched = machine;
  signalled = λ _. false;
  removed = λ _. false;
  kernel_sem = 1;
  kernel_sem_cv = [];
}

abbrev pub no_process : Pcb
no_process = record {
  pstate = PidState.free;
  parent = none;
  exitval = pos 0;
  main_thread = none;
  children_list = [];
  exited_list = [];
  child_exit = [];
  fidt = λ _. none;
  ptcb_list = [];
  thread_count = 0;
}

-- A world with one pipe, at the address 9.
abbrev pub world : Pipe → World
world p = record {
  kernel = kernel;
  pipes = λ a. if a == 9 then some p else none;
  fcb = λ f. record { refcount = 0; streamobj = 0; streamfunc = nulldev_fops };
  fcb_freelist = [];
  pcb = λ p. no_process;
  pcb_freelist = none;
  process_count = 0;
  ptcbs = λ _. none;
  infos = λ _. none;
  scbs = λ _. none;
  port_map = λ _. none;
  requests = λ _. none;
  serial_ports = 1;
  serial = λ _. record { input = []; output = []; room = 0; rx_ready = [] };
}

abbrev pub cpu : Cpu
cpu = record { core = 0; curtime = 10; later = 20 }
