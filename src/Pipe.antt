-- ===== src/Pipe.antt =====
-- kernel_pipe.c: the ring buffer of a pipe, its two ends, and `sys_Pipe`.
pub mod Ring
pub mod Ends
pub mod Window
pub mod Fifo
pub mod Stream
pub mod Calls
pub mod Closing
