-- ===== src/Proc.antt =====
-- kernel_proc.c and kernel_threads.c: the process table, processes and their threads.
pub mod Table
pub mod Exec
pub mod Wait
pub mod Exit
pub mod OpenInfo
pub mod Threads
pub mod Hazards
pub mod FreeList
pub mod Spawn
pub mod Inherit
pub mod Collect
pub mod Start
