-- ===== src/Proc/Exec.antt =====
-- `sys_Exec`, `sys_GetPid`, `sys_GetPPid`, and the creation of a thread control block of a process.
use disasteros.Common.{
  ℕ, zero, suc, ◌+◌, true, false, Option, none, some, [], ◌∷◌, leb, if◌then◌else◌, update, ◌>>=◌,
}
use disasteros.Common.Int.{ℤ, pos}
use disasteros.Sched.Thread.{spawn_thread, set_tcb, Sched}
use disasteros.Sched.Queue.{wakeup}
use disasteros.World.{
  Ptcb, World, Outcome, returned, or_fault, Cpu, curproc, set_kernel, set_pcb, max_fileid,
}
use disasteros.Streams.Table.{fcb_incref, set_fidt}
use disasteros.Proc.Table.{acquire_pcb, get_pid}

abbrev pub set_ptcb : ℕ → Ptcb → World → World
set_ptcb q b w = record w { ptcbs = update w.ptcbs q (some b) }

-- `Create_PTCB`, where the allocator gives the block.
unfoldable pub create_ptcb : (pcb : ℕ) → Ptcb
create_ptcb pcb = record {
  owner_pcb = pcb;
  thread = none;
  exitval = pos 0;
  waiting = [];
  thread_join = [];
  waiting_threads = 0;
  detached = false;
  main_task = none;
  argl = 0;
  args = none;
}

-- "Inherit file streams from parent": the file ids from `i` on, `n` of them.
unfoldable pub inherit_fids : (n i : ℕ) → (parent child : ℕ) → World → World
inherit_fids zero i parent child w = w
inherit_fids (suc n) i parent child w =
    inherit_fids n (i + 1) parent child (elim ((w.pcb parent).fidt i) [
      | none ↦ set_fidt child i none w
      | some f ↦ fcb_incref f (set_fidt child i (some f) w)
    ])

-- The new process gets its parent: none for the pids 0 and 1, and else the process that calls.
unfoldable pub adopt : (parent child : ℕ) → World → World
adopt parent child w =
    if leb child 1
    then set_pcb child (record (w.pcb child) { parent = none }) w
    else inherit_fids max_fileid 0 parent child (
        set_pcb parent
          (record (adopted.pcb parent) {
            children_list = child ∷ (adopted.pcb parent).children_list;
          })
          adopted)
  where
    adopted : World
    adopted = set_pcb child (record (w.pcb child) { parent = some parent }) w

-- `spawn_thread`, the links between the thread `t` and its PTCB `q`, and `wakeup`.
unfoldable pub start_thread : (t q pcb : ℕ) → Sched → Option Sched
start_thread t q pcb s = do
  let s₁ = spawn_thread t pcb s
  let s₂ = set_tcb t (record (s₁.tcb t) { owner_ptcb = some q }) s₁
  (s₃, woken) ← wakeup t s₂
  some s₃

-- `sys_Exec` behind `acquire_PCB`, for a call by the process `parent`.
unfoldable pub exec_acquired :
    (parent : ℕ)
    → (call : Option ℕ) → (argl : ℕ) → (args : Option ℕ) → (q t a : ℕ) → Option ℕ × World
    → Outcome ℤ
exec_acquired parent call argl args q t a (none, w) = returned (get_pid none) w
exec_acquired parent call argl args q t a (some new, w) =
    let w₁ = adopt parent new w in
    let b : Ptcb = record (create_ptcb new) {
      main_task = call;
      argl = argl;
      detached = true;
      args = elim args [ none ↦ none | some _ ↦ some a ];
    } in
    let w₂ = set_ptcb q b (set_pcb new (record (w₁.pcb new) { main_thread = some q }) w₁) in
    elim call [
      | none ↦ returned (get_pid (some new)) w₂
      | some _ ↦
          let w₃ =
            set_ptcb q (record b { thread = some t })
              (set_pcb new (record (w₂.pcb new) { thread_count = 1 }) w₂) in
          or_fault (start_thread t q new w₃.kernel.sched)
            λ s. returned (get_pid (some new)) (set_kernel (record w₃.kernel { sched = s }) w₃)
    ]

-- `sys_Exec`. The allocator gives the PTCB `q`, the thread `t` and the copy `a` of the arguments;
-- the bytes of the arguments are not part of the state.
unfoldable pub sys_exec :
    Cpu → (call : Option ℕ) → (argl : ℕ) → (args : Option ℕ) → (q t a : ℕ) → World → Outcome ℤ
sys_exec c call argl args q t a w = exec_acquired (curproc c w) call argl args q t a (acquire_pcb w)

unfoldable pub sys_get_pid : Cpu → World → ℤ
sys_get_pid c w = get_pid (some (curproc c w))

unfoldable pub sys_get_ppid : Cpu → World → ℤ
sys_get_ppid c w = get_pid (w.pcb (curproc c w)).parent
