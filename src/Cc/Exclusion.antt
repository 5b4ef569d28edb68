-- ===== src/Cc/Exclusion.antt =====
-- The kernel lock as a system of steps: at most one thread is in the kernel.
use disasteros.Common.{
  ℕ, suc, ◌+◌, ◌≤◌, ◌<◌, ◌≡◌, Bool, true, none, some, [], ◌∷◌, arith, >>=-eq-some, Bool-cases, inl,
  inr, update,
}
use disasteros.Sched.Thread.{ThreadState, SchedCause, user, no_timeout}
use disasteros.Sched.Queue.{wakeup}
use disasteros.Sched.Switch.{sleep_releasing}
use disasteros.Cc.CondVar.{CondVar, Kernel, cv_wait, cv_resume, cv_signal, cond_signal}
use disasteros.Cc.KernelLock.{
  kernel_try, kernel_block, kernel_unblock, kernel_unlock, kernel_wait, kernel_sleep,
}

-- Signals leave the semaphore alone, and the ring of the semaphore too.
cv_signal-sem :
    (ws : CondVar) (k : Kernel) {cv : CondVar} {k' : Kernel}
    → cv_signal ws k ≡ some (cv, k')
    → k'.kernel_sem ≡ k.kernel_sem
unfolding cv_signal
cv_signal-sem [] k e = ground arith
cv_signal-sem (w ∷ ws) k e =
    let ((s, b), f, g) = >>=-eq-some (wakeup w k.sched) _ e in
    let later = cv_signal-sem ws (record k { sched = s; removed = update k.removed w true }) in
    elim (Bool-cases b) [ inl h ↦ ground arith | inr h ↦ later (rw h at g) ]

kernel_unlock-sem :
    (k : Kernel) {k' : Kernel} → kernel_unlock k ≡ some k' → k'.kernel_sem ≡ k.kernel_sem + 1
unfolding kernel_unlock cond_signal
kernel_unlock-sem k {k'} e =
    let ((cv, k₁), f, g) =
      >>=-eq-some (cond_signal k.kernel_sem_cv (record k { kernel_sem = k.kernel_sem + 1 })) _ e in
    ground (arith, cv_signal-sem k.kernel_sem_cv (record k { kernel_sem = k.kernel_sem + 1 }) f)

cv_wait-sem :
    (core : ℕ) (cause : SchedCause) (timeout curtime later : ℕ) (cv : CondVar) (k : Kernel)
    {p : Bool} {cv' : CondVar} {k' : Kernel}
    → cv_wait core cause timeout curtime later cv k ≡ some (p, cv', k')
    → k'.kernel_sem ≡ k.kernel_sem
unfolding cv_wait
cv_wait-sem core cause timeout curtime later cv k e =
    let (r, f, g) =
      >>=-eq-some (sleep_releasing core ThreadState.stopped cause timeout curtime later k.sched) _
        e in
    ground arith

-- The steps that the threads of the system take at the kernel lock, with the number of threads that
-- are in the kernel. A thread enters by the test of `kernel_lock`, or goes to sleep there; it leaves
-- by `kernel_unlock`, `kernel_wait` or `kernel_sleep`. A step of the scheduler alone, or one of a
-- thread in the kernel that does not touch the semaphore, is `other`.
pub data LockStep : Kernel → ℕ → Kernel → ℕ → Type 0 where
  enter : {k k' : Kernel} {n : ℕ} → kernel_try k ≡ some k' → LockStep k n k' (suc n)
  block :
      {k k' : Kernel} {n : ℕ} (core curtime later : ℕ) (p : Bool)
      → kernel_block core curtime later k ≡ some (p, k')
      → LockStep k n k' n
  unblock : {k k' : Kernel} {n : ℕ} (core : ℕ) → kernel_unblock core k ≡ some k' → LockStep k n k' n
  leave : {k k' : Kernel} {n : ℕ} → kernel_unlock k ≡ some k' → LockStep k (suc n) k' n
  wait :
      {k k' : Kernel} {n : ℕ} (core : ℕ) (cause : SchedCause) (timeout curtime later : ℕ)
      (cv cv' : CondVar) (p : Bool)
      → kernel_wait core cause timeout curtime later cv k ≡ some (p, cv', k')
      → LockStep k (suc n) k' n
  sleep :
      {k k' : Kernel} {n : ℕ} (core : ℕ) (st : ThreadState) (cause : SchedCause) (curtime later : ℕ)
      (p : Bool)
      → kernel_sleep core st cause curtime later k ≡ some (p, k')
      → LockStep k (suc n) k' n
  other : {k k' : Kernel} {n : ℕ} → k'.kernel_sem ≡ k.kernel_sem → LockStep k n k' n

pub data LockRun (k : Kernel) (n : ℕ) : Kernel → ℕ → Type 0 where
  here : LockRun k n k n
  next : {k₁ k₂ : Kernel} {n₁ n₂ : ℕ} → LockRun k n k₁ n₁ → LockStep k₁ n₁ k₂ n₂ → LockRun k n k₂ n₂

LockStep-sum :
    {k k' : Kernel} {n n' : ℕ} → LockStep k n k' n' → k'.kernel_sem + n' ≡ k.kernel_sem + n
unfolding kernel_try kernel_block kernel_unblock kernel_wait kernel_sleep
LockStep-sum (enter e) = ground arith
LockStep-sum {k} (block core curtime later p e) =
    let ((q, cv, k₁), f, g) =
      >>=-eq-some (cv_wait core user no_timeout curtime later k.kernel_sem_cv k) _ e in
    ground (arith, cv_wait-sem core user no_timeout curtime later k.kernel_sem_cv k f)
LockStep-sum {k} (unblock core e) =
    let ((q, cv), f, g) = >>=-eq-some (cv_resume core k.kernel_sem_cv k) _ e in ground arith
LockStep-sum {k} (leave e) = ground (arith, kernel_unlock-sem k e)
LockStep-sum {k} (wait core cause timeout curtime later cv cv' p e) =
    let (k₁, f, g) = >>=-eq-some (kernel_unlock k) _ e in
    ground (arith, kernel_unlock-sem k f, cv_wait-sem core cause timeout curtime later cv k₁ g)
LockStep-sum {k} (sleep core st cause curtime later p e) =
    let (k₁, f, g) = >>=-eq-some (kernel_unlock k) _ e in
    let ((q, s), f', g') =
      >>=-eq-some (sleep_releasing core st cause no_timeout curtime later k₁.sched) _ g in
    ground (arith, kernel_unlock-sem k f)
LockStep-sum (other e) = ground arith

-- However the threads interleave, from a kernel with the semaphore at 1 and nobody inside, the
-- semaphore and the number of threads in the kernel add up to 1: never two are inside, and while one
-- is, the test of `kernel_lock` fails.
pub LockRun-exclusive :
    {k k' : Kernel} {n : ℕ}
    → k.kernel_sem ≡ 1
    → LockRun k 0 k' n
    → (k'.kernel_sem + n ≡ 1) × (n ≤ 1) × (0 < n → kernel_try k' ≡ none)
unfolding kernel_try
LockRun-exclusive {k} {k'} {n} e r =
    let s : k'.kernel_sem + n ≡ 1 = sum r in (s, omega arith, λ h. ground arith)
  where
    sum : {k₁ : Kernel} {m : ℕ} → LockRun k 0 k₁ m → k₁.kernel_sem + m ≡ 1
    sum here = omega arith
    sum (next r st) = omega (arith, sum r, LockStep-sum st)
