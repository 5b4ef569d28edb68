-- ===== src/Boot/Start.antt =====
-- kernel_init.c: the kernel after its boot on core 0.
use disasteros.Common.{
  ℕ, suc, zero, ◌+◌, ◌-◌, ◌≡◌, ◌<◌, ◌∙◌, refl, sym, ap, subst, true, false, Option, none, some,
  List, ◌∷◌, leb, count, arith,
}
use disasteros.Common.Int.{pos}
use disasteros.Sched.Thread.{Sched, ready, max_cores}
use disasteros.Sched.Valid.{on_core}
use disasteros.Sched.Valid
use disasteros.Sched.Start.{initialize_scheduler, initialize_scheduler-IsValid}
use disasteros.World.{World, returned, and_then, Cpu, set_kernel, max_proc}
use disasteros.Devices.{initialize_devices}
use disasteros.Streams.Table.{range_from, initialize_files, max_files}
use disasteros.Streams.Refs
use disasteros.Streams.Refs.{refs, refs-none}
use disasteros.Streams.Start.{count-range_from}
use disasteros.Proc.Table.{initialize_processes, build_freelist, initialize_pcb}
use disasteros.Proc.Exec.{start_thread}
use disasteros.Proc.Spawn.{start_thread_lem}
use disasteros.Proc.FreeList.{FreeList}
use disasteros.Proc.Start.{initialize_processes-FreeList}
use disasteros.Boot.{Blocks, exec, expect_pid, start_processes, start_init, boot_tinyos_kernel}
use disasteros.Boot.Calls.{Unlocked, locked, unlocked, syscall_lem}
use disasteros.Boot.First.{Execed, RunsTask, FreeList-of, exec_none, exec_some}

-- The call for the process without a task.
exec_none_lem :
    (c : Cpu) (argl : ℕ) (args : Option ℕ) (b : Blocks) (p : ℕ) (rest : List ℕ) (w : World)
    → Unlocked w.kernel
    → FreeList (p ∷ rest) w
    → leb p 1 ≡ true
    → (w' : World) × (exec c none argl args b w ≡ returned (pos p) w')
      × Execed rest w w'
      × (w'.kernel.sched ≡ w.kernel.sched)
      × Unlocked w'.kernel
unfolding exec
exec_none_lem c argl args b p rest w u f e =
    let v = set_kernel (locked w.kernel) w in
    let (w₁, r, x, k) =
      exec_none c argl args b.ptcb b.thread b.copy p rest v
        (FreeList-of (p ∷ rest) w v refl refl refl f) e in
    (
      set_kernel (unlocked w₁.kernel) w₁,
      syscall_lem c _ w u r (ap (λ k. k.kernel_sem_cv) k ∙ u.nobody),
      record {
        freelist = FreeList-of rest w₁ _ refl refl refl x.freelist;
        files = x.files;
        free_files = x.free_files;
        fids = x.fids;
      },
      ap (λ k. k.sched) k,
      record { sem = ap (λ k. k.kernel_sem + 1) k; nobody = refl },
    )

-- The call for the process that runs the initial task.
exec_some_lem :
    (c : Cpu) (call argl : ℕ) (args : Option ℕ) (b : Blocks) (p : ℕ) (rest : List ℕ) (w : World)
    {s : Sched}
    → Unlocked w.kernel
    → FreeList (p ∷ rest) w
    → leb p 1 ≡ true
    → start_thread b.thread b.ptcb p w.kernel.sched ≡ some s
    → (w' : World) × (exec c (some call) argl args b w ≡ returned (pos p) w')
      × Execed rest w w'
      × (w'.kernel.sched ≡ s)
      × Unlocked w'.kernel
      × RunsTask p b.ptcb call argl args b.thread b.copy w'
unfolding exec
exec_some_lem c call argl args b p rest w u f e g =
    let v = set_kernel (locked w.kernel) w in
    let (w₁, r, x, k, runs) =
      exec_some c call argl args b.ptcb b.thread b.copy p rest v
        (FreeList-of (p ∷ rest) w v refl refl refl f) e g in
    (
      set_kernel (unlocked w₁.kernel) w₁,
      syscall_lem c _ w u r (ap (λ k. k.kernel_sem_cv) k ∙ u.nobody),
      record {
        freelist = FreeList-of rest w₁ _ refl refl refl x.freelist;
        files = x.files;
        free_files = x.free_files;
        fids = x.fids;
      },
      ap (λ k. k.sched) k,
      record { sem = ap (λ k. k.kernel_sem + 1) k; nobody = refl },
      record {
        orphan = runs.orphan;
        one_thread = runs.one_thread;
        main_thread = runs.main_thread;
        thread_block = runs.thread_block;
        block_at = runs.block_at;
        thread = runs.thread;
        main_task = runs.main_task;
        argl_same = runs.argl_same;
        copied = runs.copied;
      },
    )

-- The memory of the kernel before it is booted: no file ids, references or threads, and the lock free.
pub record Cold (w : World) : Type 0 where
  pub lock : Unlocked w.kernel
  pub no_fids : (p i : ℕ) → (w.pcb p).fidt i ≡ none
  pub no_refs : (f : ℕ) → (w.fcb f).refcount ≡ 0
  pub no_threads : (t : ℕ) → w.kernel.sched.live t ≡ false

-- The kernel once it is booted with the initial thread `t`: the process 1 is to run the initial task in
-- it, the pids from 2 on are free, the reference counts are right, the scheduler is valid, `t` waits
-- for a core, and the kernel lock is free.
pub record Booted (init_task argl : ℕ) (args : Option ℕ) (q t a : ℕ) (w : World) : Type 0 where
  pub runs : RunsTask 1 q init_task argl args t a w
  pub owner : (w.kernel.sched.tcb t).owner_ptcb ≡ some q
  pub pids : FreeList (range_from (max_proc - 2) 2) w
  pub files : Refs.IsValid w
  pub scheduler : Valid.IsValid w.kernel.sched
  pub waits : (w.kernel.sched.tcb t).state ≡ ready
  pub queued : 0 < count t (w.kernel.sched.queue (w.kernel.sched.tcb t).priority)
  pub lock : Unlocked w.kernel

-- The loop that builds the free list changes nothing else.
build_freelist-same :
    (n : ℕ) (w : World)
    → ((build_freelist n w).kernel ≡ w.kernel)
      × ((build_freelist n w).fcb ≡ w.fcb)
      × ((p i : ℕ) → ((build_freelist n w).pcb p).fidt i ≡ (w.pcb p).fidt i)
unfolding build_freelist
build_freelist-same zero w = (refl, refl, λ p i. refl)
build_freelist-same (suc n) w =
    let (k, f, d) = build_freelist-same n _ in (k, f, λ p i. d p i ∙ ground arith)

initialize_processes-same :
    (w : World)
    → ((p i : ℕ) → (w.pcb p).fidt i ≡ none)
    → ((initialize_processes w).kernel ≡ w.kernel)
      × ((initialize_processes w).fcb ≡ w.fcb)
      × ((p i : ℕ) → ((initialize_processes w).pcb p).fidt i ≡ none)
unfolding initialize_processes initialize_pcb
initialize_processes-same w h =
    let (k, f, d) = build_freelist-same max_proc _ in (k, f, λ p i. d p i ∙ ground (arith, h p i))

two_pids : (n : ℕ) → range_from (suc (suc n)) 0 ≡ 0 ∷ 1 ∷ range_from n 2
unfolding range_from
two_pids n = refl

cleaned-IsValid :
    (w : World)
    → ((p i : ℕ) → (w.pcb p).fidt i ≡ none)
    → ((f : ℕ) → (w.fcb f).refcount ≡ 0)
    → w.fcb_freelist ≡ range_from max_files 0
    → Refs.IsValid w
cleaned-IsValid w d z e =
    let nothing = refs-none w d in
    record {
      counted = λ f. ground (arith, nothing f, z f);
      unused = λ f. rw e (ground (arith, nothing f, count-range_from max_files 0 f));
      no_leak = λ f. rw e (ground (arith, count-range_from max_files 0 f));
    }

-- The process with pid 0.
start_processes_lem :
    (c : Cpu) (b : Blocks) (w : World)
    → Cold w
    → (w' : World) × (start_processes c b w ≡ returned (pos 0) w')
      × FreeList (1 ∷ range_from (max_proc - 2) 2) w'
      × Cold w'
      × (w'.kernel.sched ≡ w.kernel.sched)
unfolding start_processes expect_pid
start_processes_lem c b w h =
    let (k, f, d) = initialize_processes-same w h.no_fids in
    let v = initialize_processes w in
    let pids =
      subst (λ l. FreeList l v) (two_pids (max_proc - 2)) (initialize_processes-FreeList w) in
    let u : Unlocked v.kernel = subst Unlocked (sym k) h.lock in
    let (w', r, x, s, l) = exec_none_lem c 0 none b 0 _ v u pids refl in
    (
      w',
      ap (λ o. and_then o (expect_pid 0)) r ∙ refl,
      x.freelist,
      record {
        lock = l;
        no_fids = λ p i. x.fids p i ∙ d p i;
        no_refs = λ g. ap (λ t. (t g).refcount) (x.files ∙ f) ∙ h.no_refs g;
        no_threads = λ t. ap (λ s. s.live t) (s ∙ ap (λ k. k.sched) k) ∙ h.no_threads t;
      },
      s ∙ ap (λ k. k.sched) k,
    )

-- From cold memory, with a block for the initial thread that is on no core, the boot of the kernel
-- passes its tests: the first `Exec` makes the process 0, and the second, which runs the initial task,
-- the process 1. The kernel is ready then: `Booted`, which has the process 1, without a parent, with one
-- thread that is to run the initial task with its arguments.
pub boot_lem :
    (c : Cpu) (init_task argl : ℕ) (args : Option ℕ) (b₀ b₁ : Blocks) (w : World)
    → Cold w
    → on_core max_cores b₁.thread w.kernel.sched.current_thread ≡ false
    → (w' : World) × (boot_tinyos_kernel c init_task argl args b₀ b₁ w ≡ returned (pos 1) w')
      × Booted init_task argl args b₁.ptcb b₁.thread b₁.copy w'
unfolding boot_tinyos_kernel start_init expect_pid initialize_files initialize_devices
    initialize_scheduler
boot_lem c init_task argl args b₀ b₁ w h off =
    let (w₁, r, pids, cold, same) = start_processes_lem c b₀ w h in
    let w₂ = initialize_files (initialize_devices w₁) in
    let w₃ = set_kernel (record w₂.kernel { sched = initialize_scheduler w₂.kernel.sched }) w₂ in
    let valid = initialize_scheduler-IsValid w₁.kernel.sched cold.no_threads in
    let (s, e, v, st, q, others, ow) =
      start_thread_lem b₁.thread b₁.ptcb 1 valid (cold.no_threads b₁.thread)
        (ap (λ s. on_core max_cores b₁.thread s.current_thread) same ∙ off) in
    let (w', r', x, k, l, runs) =
      exec_some_lem c init_task argl args b₁ 1 (range_from (max_proc - 2) 2) w₃
        (record { sem = cold.lock.sem; nobody = cold.lock.nobody })
        (FreeList-of _ w₁ w₃ refl refl refl pids) refl e in
    (
      w',
      ap (λ o. and_then o (λ pid. start_init c init_task argl args b₁)) r
          ∙ ap (λ o. and_then o (expect_pid 1)) r',
      record {
        runs = runs;
        owner = ap (λ s. (s.tcb b₁.thread).owner_ptcb) k ∙ ow;
        pids = x.freelist;
        files =
            cleaned-IsValid w' (λ p i. x.fids p i ∙ cold.no_fids p i)
              (λ f. ap (λ t. (t f).refcount) x.files ∙ ground (arith, cold.no_refs f)) x.free_files;
        scheduler = subst Valid.IsValid (sym k) v;
        waits = ap (λ s. (s.tcb b₁.thread).state) k ∙ st;
        queued = subst (λ s. 0 < count b₁.thread (s.queue (s.tcb b₁.thread).priority)) (sym k) q;
        lock = l;
      },
    )
