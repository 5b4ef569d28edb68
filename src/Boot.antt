-- ===== src/Boot.antt =====
-- kernel_sys.c, kernel_init.c: the system calls around the functions that serve them, and the boot of
-- the kernel on its first core.
pub mod Calls
pub mod First
pub mod Start
use disasteros.Common.{ℕ, Option, none, some, ◌==◌, if◌then◌else◌, ◌>>=◌}
use disasteros.Common.Int.{ℤ, pos, negsuc}
use disasteros.Cc.KernelLock.{Entry, entered, kernel_lock, kernel_unlock}
use disasteros.Sched.Start.{initialize_scheduler}
use disasteros.World.{World, Outcome, returned, asleep, fault, and_then, or_fault, Cpu, set_kernel}
use disasteros.Devices.{initialize_devices}
use disasteros.Streams.Table.{initialize_files}
use disasteros.Proc.Table.{initialize_processes}
use disasteros.Proc.Exec.{sys_exec}

-- What POST_CALL does with the result of the function behind a system call.
unfoldable pub post_call {ℓ} : {A : Type ℓ} → A → World → Outcome A
post_call a w = or_fault (kernel_unlock w.kernel) (λ k. returned a (set_kernel k w))

-- SYSCALL: PRE_CALL, the function `body`, and POST_CALL. A thread that waits for the kernel lock, or
-- in the body, is asleep.
unfoldable pub syscall {ℓ} : {A : Type ℓ} → Cpu → (World → Outcome A) → World → Outcome A
syscall c body w = elim (kernel_lock c.core c.curtime c.later w.kernel) [
  | none ↦ fault
  | some (Entry.asleep preempt k) ↦ asleep (set_kernel k w)
  | some (entered k) ↦ and_then (body (set_kernel k w)) post_call
]

-- The blocks that the allocator gives to an `Exec`: the PTCB, the thread and the copy of the arguments.
pub record Blocks : Type 0 where
  pub ptcb : ℕ
  pub thread : ℕ
  pub copy : ℕ

-- `Exec`
unfoldable pub exec :
    Cpu → (call : Option ℕ) → (argl : ℕ) → (args : Option ℕ) → Blocks → World → Outcome ℤ
exec c call argl args b w = syscall c (sys_exec c call argl args b.ptcb b.thread b.copy) w

-- A test of the pid that `Exec` returned; another one is FATAL.
unfoldable pub expect_pid : (pid : ℕ) → ℤ → World → Outcome ℤ
expect_pid pid (pos p) w = if pid == p then returned (pos p) w else fault
expect_pid pid (negsuc p) w = fault

-- The whole of `initialize_processes`: the table, and the process with pid 0.
unfoldable pub start_processes : Cpu → Blocks → World → Outcome ℤ
start_processes c b w = and_then (exec c none 0 none b (initialize_processes w)) (expect_pid 0)

-- `boot_tinyos_kernel` on core 0 behind `initialize_processes`, up to the barrier.
unfoldable pub start_init :
    Cpu → (init_task argl : ℕ) → (args : Option ℕ) → Blocks → World → Outcome ℤ
start_init c init_task argl args b w =
    let w₁ = initialize_files (initialize_devices w) in
    let w₂ = set_kernel (record w₁.kernel { sched = initialize_scheduler w₁.kernel.sched }) w₁ in
    and_then (exec c (some init_task) argl args b w₂) (expect_pid 1)

-- `boot_tinyos_kernel` on core 0, up to the barrier: the kernel's data, and the initial task.
unfoldable pub boot_tinyos_kernel :
    Cpu → (init_task argl : ℕ) → (args : Option ℕ) → (b₀ b₁ : Blocks) → World → Outcome ℤ
boot_tinyos_kernel c init_task argl args b₀ b₁ w =
    and_then (start_processes c b₀ w) (λ pid. start_init c init_task argl args b₁)
