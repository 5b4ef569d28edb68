-- ===== src/Proc/Wait.antt =====
-- `sys_WaitChild`. A call that waits gives up the core; its thread goes on with `resume_specific` or
-- `resume_any`.
use disasteros.Common.{
  ℕ, zero, suc, ◌==◌, Bool, false, not, Option, none, some, [], ◌∷◌, ltb, if◌then◌else◌, erase,
}
use disasteros.Common.Int.{ℤ, pos, negsuc, minus_one}
use disasteros.Sched.Thread.{user, no_timeout}
use disasteros.Cc.CondVar.{cv_resume}
use disasteros.Cc.KernelLock.{kernel_wait}
use disasteros.World.{
  World, Outcome, returned, asleep, fault, or_fault, Cpu, curproc, set_kernel, set_pcb, max_proc,
}
use disasteros.Proc.Table.{get_pcb, get_pid, release_pcb, is_alive, is_zombie}

-- What the call returns, and what it stores in `status`, unless that is NULL.
abbrev pub WaitResult : Type 0
WaitResult = ℤ × Option ℤ

-- `rlist_remove` of the two nodes of a PCB, from the rings that hold them.
abbrev pub unlink : ℕ → World → World
unlink child w = record w {
  pcb = λ p. record (w.pcb p) {
    children_list = erase child (w.pcb p).children_list;
    exited_list = erase child (w.pcb p).exited_list;
  };
}

unfoldable pub cleanup_zombie : ℕ → World → World
cleanup_zombie child w = release_pcb child (unlink child w)

-- `kernel_wait(&parent->child_exit, SCHED_USER)` up to the context switch.
unfoldable pub wait_child_exit {ℓ} : {A : Type ℓ} → Cpu → (parent : ℕ) → World → Outcome A
wait_child_exit c parent w =
    or_fault
      (kernel_wait c.core user no_timeout c.curtime c.later (w.pcb parent).child_exit w.kernel)
      λ (_, cv, k).
        asleep (set_pcb parent (record (w.pcb parent) { child_exit = cv }) (set_kernel k w))

-- The end of that wait.
unfoldable pub end_child_exit {ℓ} :
    {A : Type ℓ} → Cpu → (parent : ℕ) → (World → Outcome A) → World → Outcome A
end_child_exit c parent rest w =
    or_fault (cv_resume c.core (w.pcb parent).child_exit w.kernel)
      λ (_, cv). rest (set_pcb parent (record (w.pcb parent) { child_exit = cv }) w)

-- From the test of the loop on.
unfoldable pub await_specific : Cpu → (parent child : ℕ) → World → Outcome WaitResult
await_specific c parent child w =
    if is_alive (w.pcb child).pstate
    then wait_child_exit c parent w
    else returned (pos child, some (w.pcb child).exitval) (cleanup_zombie child w)

unfoldable pub resume_specific : Cpu → (parent child : ℕ) → World → Outcome WaitResult
resume_specific c parent child w = end_child_exit c parent (await_specific c parent child) w

abbrev pub is_parent : Option ℕ → ℕ → Bool
is_parent none p = false
is_parent (some q) p = q == p

unfoldable pub wait_for_specific_child : Cpu → ℤ → World → Outcome WaitResult
wait_for_specific_child c (negsuc n) w = returned (minus_one, none) w
wait_for_specific_child c (pos cpid) w =
    if not (ltb cpid max_proc) then returned (minus_one, none) w else elim (get_pcb cpid w) [
      | none ↦ returned (minus_one, none) w
      | some child ↦
          if is_parent (w.pcb child).parent (curproc c w)
          then await_specific c (curproc c w) child w
          else returned (minus_one, none) w
    ]

-- From the test of the loop on; `fault` is the failed assertion.
unfoldable pub await_any : Cpu → (parent : ℕ) → World → Outcome WaitResult
await_any c parent w = elim ((w.pcb parent).exited_list) [
  | [] ↦ wait_child_exit c parent w
  | child ∷ _ ↦
      if is_zombie (w.pcb child).pstate
      then returned (get_pid (some child), some (w.pcb child).exitval) (cleanup_zombie child w)
      else fault
]

unfoldable pub resume_any : Cpu → (parent : ℕ) → World → Outcome WaitResult
resume_any c parent w = end_child_exit c parent (await_any c parent) w

unfoldable pub wait_for_any_child : Cpu → World → Outcome WaitResult
wait_for_any_child c w = elim ((w.pcb (curproc c w)).children_list) [
  | [] ↦ returned (minus_one, none) w
  | _ ∷ _ ↦ await_any c (curproc c w) w
]

-- NOPROC, which is -1, asks for any child.
unfoldable pub sys_wait_child : Cpu → ℤ → World → Outcome WaitResult
sys_wait_child c (negsuc zero) w = wait_for_any_child c w
sys_wait_child c (negsuc (suc n)) w = wait_for_specific_child c (negsuc (suc n)) w
sys_wait_child c (pos cpid) w = wait_for_specific_child c (pos cpid) w
