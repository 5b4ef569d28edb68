-- ===== src/Cc.antt =====
-- kernel_cc.c: mutexes, condition variables and the kernel lock, over the scheduler. The mutexes that
-- protect the state of the last two (`waitset_lock`, `kernel_mutex`) make each of their functions one
-- atomic step.
pub mod CondVar
pub mod KernelLock
pub mod Signal
pub mod Exclusion
pub mod Mutex
pub mod Spin
pub mod Frame
