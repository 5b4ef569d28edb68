-- ===== src/Proc/Exit.antt =====
-- `sys_Exit`.
use disasteros.Common.{
  ℕ, zero, suc, ◌+◌, ◌==◌, Option, none, some, List, [], ◌∷◌, ◌++◌, if◌then◌else◌, update, length,
}
use disasteros.Common.Int.{ℤ, pos, negsuc}
use disasteros.Sched.Thread.{user, exited}
use disasteros.Cc.CondVar.{cond_broadcast}
use disasteros.Cc.KernelLock.{kernel_sleep}
use disasteros.World.{
  zombie, World, Outcome, returned, asleep, fault, or_fault, and_then, Cpu, curproc, set_kernel,
  set_pcb, max_fileid,
}
use disasteros.Streams.Table.{set_fidt}
use disasteros.Streams.Calls.{fcb_decref}
use disasteros.Proc.Table.{get_pcb}
use disasteros.Proc.Exec.{set_ptcb}
use disasteros.Proc.Wait.{wait_for_any_child, resume_any}

-- `while(sys_WaitChild(NOPROC,NULL)!=NOPROC)`. Each round that returns takes a child off the list of
-- children.
unfoldable pub wait_all : ℕ → Cpu → World → Outcome ℤ
wait_all zero c w = fault
wait_all (suc n) c w =
    and_then (wait_for_any_child c w)
      λ (pid, _) w'. elim pid [ negsuc m ↦ returned (negsuc m) w' | pos _ ↦ wait_all n c w' ]

abbrev pub rounds : Cpu → World → ℕ
rounds c w = suc (length (w.pcb (curproc c w)).children_list)

-- `free` of the arguments of the main thread.
unfoldable pub free_args : ℕ → World → Outcome ℤ
free_args p w = elim ((w.pcb p).main_thread) [
  | none ↦ fault
  | some q ↦ or_fault (w.ptcbs q) λ b. returned (pos 0) (set_ptcb q (record b { args = none }) w)
]

-- "Clean up FIDT", from entry `i` on.
unfoldable pub close_fids : Cpu → (n i : ℕ) → (p : ℕ) → World → Outcome ℤ
close_fids c zero i p w = returned (pos 0) w
close_fids c (suc n) i p w =
    and_then
      (elim ((w.pcb p).fidt i) [
        | none ↦ returned (pos 0) w
        | some f ↦ and_then (fcb_decref c f w) λ r w'. returned r (set_fidt p i none w')
      ])
      λ _ w'. close_fids c n (i + 1) p w'

-- "Reparent any children", one after the other.
unfoldable pub reparent_each : List ℕ → (init : ℕ) → World → World
reparent_each [] init w = w
reparent_each (child ∷ rest) init w =
    reparent_each rest init (
      set_pcb init (record (w'.pcb init) { children_list = child ∷ (w'.pcb init).children_list })
        w')
  where
    w' : World
    w' = set_pcb child (record (w.pcb child) { parent = some init }) w

-- `initpcb` is `get_pcb(1)`; the NULL pointer is only read when there are children to move.
unfoldable pub reparent : (p : ℕ) → (initpcb : Option ℕ) → World → Outcome ℤ
reparent p initpcb w = elim ((w.pcb p).children_list) [
  | [] ↦ returned (pos 0) w
  | child ∷ rest ↦ or_fault initpcb λ init.
      returned (pos 0)
        (reparent_each (child ∷ rest) init (set_pcb p (record (w.pcb p) { children_list = [] }) w))
]

-- `kernel_broadcast` on a process' `child_exit`.
unfoldable pub announce : ℕ → World → Outcome ℤ
announce p w =
    or_fault (cond_broadcast (w.pcb p).child_exit w.kernel) λ (cv, k).
      returned (pos 0) (set_pcb p (record (w.pcb p) { child_exit = cv }) (set_kernel k w))

-- "Add exited children to the initial task's exited list"
unfoldable pub bequeath : (p : ℕ) → (initpcb : Option ℕ) → World → Outcome ℤ
bequeath p initpcb w = elim ((w.pcb p).exited_list) [
  | [] ↦ returned (pos 0) w
  | child ∷ rest ↦
      let w₁ = set_pcb p (record (w.pcb p) { exited_list = [] }) w in
      or_fault initpcb λ init. announce init (
        set_pcb init
          (record (w₁.pcb init) { exited_list = (w₁.pcb init).exited_list ++ child ∷ rest }) w₁)
]

-- "Put me into my parent's exited list"
unfoldable pub join_exited : ℕ → World → Outcome ℤ
join_exited p w = elim ((w.pcb p).parent) [
  | none ↦ returned (pos 0) w
  | some q ↦ announce q (set_pcb q (record (w.pcb q) { exited_list = p ∷ (w.pcb q).exited_list }) w)
]

-- "Now, mark the process as exited", after the PTCB is freed.
unfoldable pub mark_exited : ℕ → ℤ → World → World
mark_exited p exitval w =
    set_pcb p (record (w.pcb p) { main_thread = none; pstate = zombie; exitval = exitval })
      (record w {
        ptcbs = elim ((w.pcb p).main_thread) [ none ↦ w.ptcbs | some q ↦ update w.ptcbs q none ];
      })

unfoldable pub go_away {ℓ} : {A : Type ℓ} → Cpu → World → Outcome A
go_away c w =
    or_fault (kernel_sleep c.core exited user c.curtime c.later w.kernel)
      λ (_, k). asleep (set_kernel k w)

-- The call from "Do all the other cleanup" on.
unfoldable pub exit_process : Cpu → ℤ → World → Outcome ℤ
exit_process c exitval w = and_then (free_args p w) λ _ w₁.
    and_then (close_fids c max_fileid 0 p w₁) λ _ w₂.
      and_then (reparent p (get_pcb 1 w₂) w₂) λ _ w₃.
        and_then (bequeath p (get_pcb 1 w₂) w₃)
          λ _ w₄. and_then (join_exited p w₄) λ _ w₅. go_away c (mark_exited p exitval w₅)
  where
    p : ℕ
    p = curproc c w

unfoldable pub sys_exit : Cpu → ℤ → World → Outcome ℤ
sys_exit c exitval w =
    if curproc c w == 1
    then (and_then (wait_all (rounds c w) c w) λ _ w'. exit_process c exitval w')
    else exit_process c exitval w

-- The rest of the call of the initial task, when it has slept for a child.
unfoldable pub resume_exit : Cpu → ℤ → World → Outcome ℤ
resume_exit c exitval w = and_then (resume_any c (curproc c w) w) λ _ w'. sys_exit c exitval w'
