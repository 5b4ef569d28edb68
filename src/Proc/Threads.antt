-- ===== src/Proc/Threads.antt =====
-- kernel_threads.c: the threads of a process. `thread_mx` is held over the few statements that it
-- guards, and the kernel lock over each call.
use disasteros.Common.{
  ℕ, zero, suc, ◌+◌, ◌-◌, ◌%◌, ◌==◌, Bool, true, false, Option, none, some, [], ◌∷◌, ◌++◌,
  if◌then◌else◌, update, erase, ltb,
}
use disasteros.Common.Int.{ℤ, pos, minus_one}
use disasteros.Sched.Thread.{user, no_timeout, exited, ThreadState, u64_mod}
use disasteros.Cc.CondVar.{cond_broadcast, cv_resume}
use disasteros.Cc.KernelLock.{kernel_wait}
use disasteros.World.{
  Ptcb, World, Outcome, returned, asleep, fault, or_fault, and_then, Cpu, curthread, curproc,
  set_kernel, set_pcb,
}
use disasteros.Proc.Exec.{create_ptcb, set_ptcb, start_thread}
use disasteros.Proc.Exit.{go_away}

-- `sys_CreateThread`, where the allocator gives the PTCB `q` and the thread `t`; NOTHREAD is `none`.
unfoldable pub sys_create_thread :
    Cpu
    → (task : Option ℕ) → (argl : ℕ) → (args : Option ℕ) → (q t : ℕ) → World
    → Outcome (Option ℕ)
sys_create_thread c task argl args q t w = elim task [
  | none ↦ returned none w
  | some call ↦
      or_fault (start_thread t q p w₁.kernel.sched)
        λ s. returned (some t) (set_kernel (record w₁.kernel { sched = s }) w₁)
]
  where
    p : ℕ
    p = curproc c w

    w₁ : World
    w₁ =
        set_ptcb q
          (record (create_ptcb p) { main_task = task; argl = argl; args = args; thread = some t })
          (set_pcb p
            (record (w.pcb p) {
              ptcb_list = (w.pcb p).ptcb_list ++ q ∷ [];
              thread_count = ((w.pcb p).thread_count + 1) % u64_mod;
            })
            w)

unfoldable pub sys_thread_self : Cpu → World → ℕ
sys_thread_self c w = curthread c w

abbrev pub is_thread : Option ℕ → ℕ → Bool
is_thread none t = false
is_thread (some u) t = u == t

-- `Cond_Broadcast` on a condition variable of a PTCB, which is stored back.
unfoldable pub broadcast_waiting : ℕ → Ptcb → World → Outcome ℤ
broadcast_waiting q b w =
    or_fault (cond_broadcast b.waiting w.kernel)
      λ (cv, k). returned (pos 0) (set_ptcb q (record b { waiting = cv }) (set_kernel k w))

unfoldable pub broadcast_join : ℕ → Ptcb → World → Outcome ℤ
broadcast_join q b w =
    or_fault (cond_broadcast b.thread_join w.kernel)
      λ (cv, k). returned (pos 0) (set_ptcb q (record b { thread_join = cv }) (set_kernel k w))

-- `kernel_wait` on `thread_join` and on `waiting`, up to the context switch.
unfoldable pub wait_join {ℓ} : {A : Type ℓ} → Cpu → ℕ → World → Outcome A
wait_join c q w = or_fault (w.ptcbs q) λ b.
    or_fault (kernel_wait c.core user no_timeout c.curtime c.later b.thread_join w.kernel)
      λ (_, cv, k). asleep (set_ptcb q (record b { thread_join = cv }) (set_kernel k w))

unfoldable pub wait_waiting {ℓ} : {A : Type ℓ} → Cpu → ℕ → World → Outcome A
wait_waiting c q w = or_fault (w.ptcbs q) λ b.
    or_fault (kernel_wait c.core user no_timeout c.curtime c.later b.waiting w.kernel)
      λ (_, cv, k). asleep (set_ptcb q (record b { waiting = cv }) (set_kernel k w))

-- The result of a join, and what it stores in `exitval`, unless that is NULL.
abbrev pub JoinResult : Type 0
JoinResult = ℤ × Option ℤ

-- The tests of `sys_ThreadJoin` behind the first, on the thread `t`; what they read of a freed block
-- is `fault`. The last test repeats one that has failed, so it comes down to `detached`.
unfoldable pub may_join : Cpu → ℕ → World → Option (Option ℕ)
may_join c t w =
    if w.kernel.sched.live t
    then if (w.kernel.sched.tcb t).owner_pcb == curproc c w
      then if t == curthread c w then some none else elim ((w.pcb (curproc c w)).main_thread) [
        | none ↦ none
        | some m ↦ elim (w.ptcbs m) [
          | none ↦ none
          | some main ↦
              if is_thread main.thread t
              then some none
              else elim ((w.kernel.sched.tcb t).owner_ptcb) [
                | none ↦ none
                | some q ↦ elim (w.ptcbs q) [
                  | none ↦ none
                  | some b ↦ if b.detached then some none else some (some q)
                ]
              ]
        ]
      ]
      else some none
    else none

unfoldable pub sys_thread_join : Cpu → (tid : Option ℕ) → World → Outcome JoinResult
sys_thread_join c none w = returned (minus_one, none) w
sys_thread_join c (some t) w = or_fault (may_join c t w) λ o. elim o [
  | none ↦ returned (minus_one, none) w
  | some q ↦ or_fault (w.ptcbs q) λ b.
      and_then (broadcast_waiting q (record b { waiting_threads = b.waiting_threads + 1 }) w)
        λ _ w'. wait_join c q w'
]

-- The rest of the call, once the thread runs again. It has counted itself in `waiting_threads`.
unfoldable pub resume_join : Cpu → (process q : ℕ) → World → Outcome JoinResult
resume_join c process q w = or_fault (w.ptcbs q) λ b.
    or_fault (cv_resume c.core b.thread_join w.kernel) λ (_, cv).
      let b' : Ptcb = record b { thread_join = cv; waiting_threads = b.waiting_threads - 1 } in
      let p = w.pcb process in
      returned (pos 0, some b.exitval)
        (if b'.waiting_threads == 0
          then record w {
            ptcbs = update w.ptcbs q none;
            pcb = update w.pcb process (record p {
              thread_count = (p.thread_count + u64_mod - 1) % u64_mod;
              ptcb_list = erase q p.ptcb_list;
            });
          }
          else set_ptcb q b' w)

abbrev pub is_exited : ThreadState → Bool
is_exited exited = true
is_exited _ = false

unfoldable pub sys_thread_detach : (tid : Option ℕ) → World → Outcome ℤ
sys_thread_detach none w = returned minus_one w
sys_thread_detach (some t) w =
    if w.kernel.sched.live t
    then if is_exited (w.kernel.sched.tcb t).state
      then returned minus_one w
      else (or_fault ((w.kernel.sched.tcb t).owner_ptcb) λ q. or_fault (w.ptcbs q) λ b.
          if ltb 0 b.waiting_threads
          then broadcast_join q (record b { detached = true }) w
          else returned (pos 0) (set_ptcb q (record b { detached = true }) w))
    else fault

-- The loop of the main thread in `sys_ThreadExit`, with `n` rounds left; `none` is a loop that has not
-- ended by then. A join that sleeps ends the step, and `sys_thread_exit` comes back to the loop.
unfoldable pub join_all : ℕ → Cpu → (p : ℕ) → World → Option (Outcome ℤ)
join_all zero c p w = none
join_all (suc n) c p w = elim ((w.pcb p).ptcb_list) [
  | [] ↦ some (returned (pos 0) w)
  | q ∷ _ ↦ elim (w.ptcbs q) [
    | none ↦ some fault
    | some b ↦ elim (sys_thread_join c b.thread w) [
      | returned _ w' ↦ join_all n c p w'
      | asleep w' ↦ some (asleep w')
      | fault ↦ some fault
    ]
  ]
]

-- The end of `sys_ThreadExit` of a thread that is not the main one: it makes itself detached, which
-- wakes those that join it, and it is gone.
unfoldable pub leave_joined : Cpu → World → Outcome ℤ
leave_joined c w = and_then (sys_thread_detach (some (curthread c w)) w) λ _ w'. go_away c w'

-- `sys_ThreadExit` of such a thread, whose PTCB is `q`.
unfoldable pub exit_thread : Cpu → (q : ℕ) → (exitval : ℤ) → World → Outcome ℤ
exit_thread c q exitval w = or_fault (w.ptcbs q) λ b.
    if b.detached
    then go_away c (record w {
      ptcbs = update w.ptcbs q none;
      pcb = update w.pcb p (record (w.pcb p) {
        thread_count = ((w.pcb p).thread_count + u64_mod - 1) % u64_mod;
        ptcb_list = erase q (w.pcb p).ptcb_list;
      });
    })
    else if b.waiting_threads == 0
    then wait_waiting c q (set_ptcb q (record b { exitval = exitval }) w)
    else leave_joined c (set_ptcb q (record b { exitval = exitval }) w)
  where
    p : ℕ
    p = curproc c w

-- The rest of that call, once somebody joins.
unfoldable pub resume_exit_thread : Cpu → (q : ℕ) → World → Outcome ℤ
resume_exit_thread c q w = or_fault (w.ptcbs q) λ b.
    or_fault (cv_resume c.core b.waiting w.kernel)
      λ (_, cv). leave_joined c (set_ptcb q (record b { waiting = cv }) w)

-- `sys_ThreadExit`, with `n` rounds for the loop of the main thread.
unfoldable pub sys_thread_exit : ℕ → Cpu → (exitval : ℤ) → World → Option (Outcome ℤ)
sys_thread_exit n c exitval w = elim ((w.pcb (curproc c w)).main_thread) [
  | none ↦ some fault
  | some m ↦ elim (w.ptcbs m) [
    | none ↦ some fault
    | some main ↦
        if is_thread main.thread (curthread c w)
        then join_all n c (curproc c w) w
        else elim ((w.kernel.sched.tcb (curthread c w)).owner_ptcb) [
          | none ↦ some fault
          | some q ↦ some (exit_thread c q exitval w)
        ]
  ]
]
