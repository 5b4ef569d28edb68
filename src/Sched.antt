-- ===== src/Sched.antt =====
-- kernel_sched.c and kernel_sched.h: the thread control blocks, the multilevel feedback queue with
-- its timeout list, and the context switch. Each function runs with `sched_spinlock` held, so it is
-- one atomic step on the state.
pub mod Thread
pub mod Queue
pub mod Switch
pub mod Valid
pub mod Waking
pub mod Boost
pub mod Priority
pub mod Handoff
pub mod Yield
pub mod Gain
pub mod Sleep
pub mod Expiry
pub mod Start
