-- ===== src/Boot/Calls.antt =====
-- A system call while nobody holds the kernel lock or waits for it, and the first two calls of `Exec`.
use disasteros.Common.{ℕ, ◌+◌, ◌-◌, ◌≡◌, ◌∙◌, refl, ap, true, some, [], ltb, arith}
use disasteros.Cc.CondVar.{Kernel, cond_signal, cv_signal}
use disasteros.Cc.KernelLock.{entered, kernel_lock, kernel_try, kernel_unlock}
use disasteros.World.{World, Outcome, returned, and_then, Cpu, set_kernel}
use disasteros.Boot.{syscall, post_call}

-- The lock is free, and nobody waits for it.
pub record Unlocked (k : Kernel) : Type 0 where
  pub sem : k.kernel_sem ≡ 1
  pub nobody : k.kernel_sem_cv ≡ []

abbrev pub locked : Kernel → Kernel
locked k = record k { kernel_sem = 0 }

abbrev pub unlocked : Kernel → Kernel
unlocked k = record k { kernel_sem = k.kernel_sem + 1; kernel_sem_cv = [] }

unlock_lem : (k : Kernel) → k.kernel_sem_cv ≡ [] → kernel_unlock k ≡ some (unlocked k)
unfolding kernel_unlock cond_signal cv_signal
unlock_lem k e = rw e refl

try_lem : (k : Kernel) → k.kernel_sem ≡ 1 → kernel_try k ≡ some (locked k)
unfolding kernel_try
try_lem k e =
    let p : ltb 0 k.kernel_sem ≡ true = ground (arith, e) in
    let q : k.kernel_sem - 1 ≡ 0 = omega (arith, e) in
    rw p (ap (λ n. some (record k { kernel_sem = n })) q)

lock_lem :
    (core curtime later : ℕ) (k : Kernel)
    → k.kernel_sem ≡ 1
    → kernel_lock core curtime later k ≡ some (entered (locked k))
unfolding kernel_lock
lock_lem core curtime later k e = rw (kernel_lock, try_lem k e) refl

-- With the kernel lock free and nobody waiting for it, a system call enters at once. If its function
-- returns, and has left nobody waiting for the lock, the call returns the same value, in the state
-- that the function left with the lock given back.
pub syscall_lem {ℓ} :
    {A : Type ℓ} (c : Cpu) (body : World → Outcome A) (w : World) {a : A} {w' : World}
    → Unlocked w.kernel
    → body (set_kernel (locked w.kernel) w) ≡ returned a w'
    → w'.kernel.kernel_sem_cv ≡ []
    → syscall c body w ≡ returned a (set_kernel (unlocked w'.kernel) w')
unfolding syscall post_call
syscall_lem c body w {a} {w'} u e n =
    rw (syscall, lock_lem c.core c.curtime c.later w.kernel u.sem)
      (ap (λ o. and_then o post_call) e ∙ rw (unlock_lem w'.kernel n) refl)
