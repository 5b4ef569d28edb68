-- ===== src/Streams.antt =====
-- kernel_streams.c: the table of file control blocks, the fileid tables of the processes, and the
-- system calls on streams; with the null device of kernel_dev.c.
pub mod Table
pub mod Calls
pub mod Refs
pub mod Frame
pub mod Closing
pub mod Duplicate
pub mod Start
pub mod Acquire
pub mod Reserve
pub mod Rest
pub mod Open
