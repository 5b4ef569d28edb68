-- ===== src/Cc/CondVar.antt =====
-- Condition variables.
use disasteros.Common.{
  ℕ, zero, suc, Bool, true, false, Option, none, some, List, [], ◌∷◌, ◌++◌, if◌then◌else◌, update,
  ◌>>=◌, erase, length,
}
use disasteros.Sched.Thread.{stopped, SchedCause, Sched}
use disasteros.Sched.Queue.{wakeup}
use disasteros.Sched.Switch.{sleep_releasing}

-- `CondVar`: the ring `waitset`, first waiter first; NULL is the empty list. A `__cv_waiter` lies on
-- the stack of the thread that waits, so it goes by the thread's number.
abbrev pub CondVar : Type 0
CondVar = List ℕ

-- The scheduler, the flags of the waiters, and the kernel semaphore.
pub record Kernel : Type 0 where
  pub sched : Sched
  pub signalled : ℕ → Bool
  pub removed : ℕ → Bool
  pub kernel_sem : ℕ
  pub kernel_sem_cv : CondVar

-- `remove_from_ring`: `waitset` moves on if it is the waiter that leaves, and is NULL if that was
-- the last one.
abbrev pub remove_from_ring : ℕ → CondVar → CondVar
remove_from_ring w cv = erase w cv

-- `cv_wait` up to the context switch, with the ring that it leaves. The result's Boolean is the
-- preemption state that the sleeping thread keeps.
unfoldable pub cv_wait :
    (core : ℕ)
    → SchedCause
    → (timeout curtime later : ℕ) → CondVar
    → Kernel
    → Option (Bool × CondVar × Kernel)
cv_wait core cause timeout curtime later cv k = do
  (preempt, s) ← sleep_releasing core stopped cause timeout curtime later k.sched
  some (
    preempt,
    cv ++ t ∷ [],
    record k {
      sched = s;
      signalled = update k.signalled t false;
      removed = update k.removed t false;
    },
  )
  where
    t : ℕ
    t = k.sched.current_thread core

-- The rest of `cv_wait`, once the thread runs again: it takes its waiter off the ring if nobody did,
-- and returns whether it was signalled.
unfoldable pub cv_resume : (core : ℕ) → CondVar → Kernel → Option (Bool × CondVar)
cv_resume core cv k =
    if k.removed t
    then some (k.signalled t, cv)
    else if k.signalled t
    then none
    else some (k.signalled t, remove_from_ring t cv)
  where
    t : ℕ
    t = k.sched.current_thread core

-- `cv_signal`: waiters are taken off until one was asleep.
unfoldable pub cv_signal : CondVar → Kernel → Option (CondVar × Kernel)
cv_signal [] k = some ([], k)
cv_signal (w ∷ ws) k = do
  (s, woken) ← wakeup w k.sched
  let k' : Kernel = record k { sched = s; removed = update k.removed w true }
  if woken then some (ws, record k' { signalled = update k.signalled w true }) else cv_signal ws k'

unfoldable pub cond_signal : CondVar → Kernel → Option (CondVar × Kernel)
cond_signal cv k = cv_signal cv k

-- The loop of `Cond_Broadcast`. Each round shortens the ring.
unfoldable pub broadcast_loop : ℕ → CondVar → Kernel → Option (CondVar × Kernel)
broadcast_loop zero cv k = none
broadcast_loop (suc n) cv k = elim cv [
  | [] ↦ some ([], k)
  | w ∷ ws ↦ do (cv', k') ← cv_signal (w ∷ ws) k; broadcast_loop n cv' k'
]

unfoldable pub cond_broadcast : CondVar → Kernel → Option (CondVar × Kernel)
cond_broadcast cv k = broadcast_loop (suc (length cv)) cv k
