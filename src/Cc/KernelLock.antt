-- ===== src/Cc/KernelLock.antt =====
-- The kernel lock: a semaphore implemented as a monitor.
use disasteros.Common.{ℕ, ◌+◌, ◌-◌, Bool, Option, none, some, ltb, if◌then◌else◌, ◌>>=◌}
use disasteros.Sched.Thread.{ThreadState, SchedCause, user, no_timeout}
use disasteros.Sched.Switch.{sleep_releasing}
use disasteros.Cc.CondVar.{CondVar, Kernel, cv_wait, cv_resume, cond_signal}

-- The test of `while (kernel_sem <= 0)` and the decrement behind it; `none` is another wait.
unfoldable pub kernel_try : Kernel → Option Kernel
kernel_try k =
    if ltb 0 k.kernel_sem then some (record k { kernel_sem = k.kernel_sem - 1 }) else none

-- The body of that loop, `Cond_Wait` on `kernel_sem_cv`, up to the context switch.
unfoldable pub kernel_block : (core curtime later : ℕ) → Kernel → Option (Bool × Kernel)
kernel_block core curtime later k = do
  (preempt, cv, k') ← cv_wait core user no_timeout curtime later k.kernel_sem_cv k
  some (preempt, record k' { kernel_sem_cv = cv })

-- The end of that `Cond_Wait`; the test follows.
unfoldable pub kernel_unblock : (core : ℕ) → Kernel → Option Kernel
kernel_unblock core k = do
  (signalled, cv) ← cv_resume core k.kernel_sem_cv k
  some (record k { kernel_sem_cv = cv })

-- What `kernel_lock` does first: it enters, or it goes to sleep.
pub data Entry : Type 0 where
  entered : Kernel → Entry
  asleep : Bool → Kernel → Entry

unfoldable pub kernel_lock : (core curtime later : ℕ) → Kernel → Option Entry
kernel_lock core curtime later k = elim (kernel_try k) [
  | some k' ↦ some (entered k')
  | none ↦ do (preempt, k') ← kernel_block core curtime later k; some (asleep preempt k')
]

-- `kernel_unlock`
unfoldable pub kernel_unlock : Kernel → Option Kernel
kernel_unlock k = do
  (cv, k') ← cond_signal k.kernel_sem_cv (record k { kernel_sem = k.kernel_sem + 1 })
  some (record k' { kernel_sem_cv = cv })

-- `kernel_wait_wchan` up to the context switch: the semaphore is released, and the thread sleeps on
-- `cv`. Behind it come `cv_resume` and `kernel_lock`'s loop.
unfoldable pub kernel_wait :
    (core : ℕ)
    → SchedCause
    → (timeout curtime later : ℕ) → CondVar
    → Kernel
    → Option (Bool × CondVar × Kernel)
kernel_wait core cause timeout curtime later cv k = do
  k' ← kernel_unlock k
  cv_wait core cause timeout curtime later cv k'

-- `kernel_sleep`
unfoldable pub kernel_sleep :
    (core : ℕ) → ThreadState → SchedCause → (curtime later : ℕ) → Kernel → Option (Bool × Kernel)
kernel_sleep core state cause curtime later k = do
  k' ← kernel_unlock k
  (preempt, s) ← sleep_releasing core state cause no_timeout curtime later k'.sched
  some (preempt, record k' { sched = s })
