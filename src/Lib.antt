-- ===== src/Lib.antt =====
-- DisasterOS, a teaching kernel in C, modelled component by component.
--
-- The program runs simulated processes on simulated cores. The scheduler (kernel_sched.c) gives the
-- cores to threads; condition variables and the kernel lock (kernel_cc.c) put threads to sleep and
-- wake them through it; pipes (kernel_pipe.c) and streams (kernel_streams.c) are shared objects that
-- the system calls reach through the fileid table of a process (kernel_proc.h), with the kernel lock
-- held. Processes are created, awaited and ended by kernel_proc.c, their threads by kernel_threads.c.
--
-- Files:
--   Common           tests, lists, association by functions, aborting code, integers
--   Sched.Thread     kernel_sched.h: TCB and its enumerations; spawn_thread, release_TCB, and the
--                    parts of yield that move a priority
--   Sched.Queue      kernel_sched.c: sched_register_timeout, sched_queue_add, sched_make_ready,
--                    sched_queue_select, sched_boost, wakeup
--   Sched.Switch     kernel_sched.c: yield, gain, sleep_releasing
--   Sched.Start      kernel_sched.c: initialize_scheduler, run_scheduler, idle_thread
--   Sched.Valid      the invariant of the scheduler; Waking, Boost, Priority, Expiry, Handoff, Yield,
--                    Gain and Sleep hold the proofs about the operation that each is named for
--   Cc.CondVar       kernel_cc.c: cv_wait, cv_signal, Cond_Signal, Cond_Broadcast
--   Cc.Mutex         kernel_cc.c: Mutex_Lock, Mutex_Unlock; Cc.Spin the rounds of its inner loop
--   Cc.KernelLock    kernel_cc.c: kernel_lock, kernel_unlock, kernel_wait_wchan, kernel_sleep
--   Bios             bios.c: the cores, their interrupts and halting, the timers; Bios.Serial the serial
--                    devices and PIC_daemon, Bios.Boot vm_boot and the steps of the machine; Valid, Runs,
--                    Interrupts, Wakeup, Timer, Later and Rounds hold the proofs
--   Boot             kernel_sys.c: the wrapper of a system call; kernel_init.c: boot_tinyos_kernel;
--                    Calls, First and Start hold the proofs
--   Argv             util.h: argument vectors; Argv.Execute tinyoslib.c: Execute, exec_wrapper,
--                    ParseProcInfo; Layout, Packing and Counting hold proofs
--   Rlist            util.h: intrusive lists on the pointers of their nodes; Rlist.Ring what a list is;
--                    Splice, Lists, Removal and Loops hold the proofs
--   World            kernel_pipe.h, kernel_streams.h, kernel_proc.h, kernel_socket.c: the control
--                    blocks, and the state of the kernel as one record
--   Devices          kernel_dev.c: the serial driver, the device table
--   Socket           kernel_socket.c: socket_read, socket_write, socket_close, sys_ShutDown
--   Socket.Calls     kernel_socket.c: sys_Socket, sys_Listen, sys_Accept, create_pipe; Socket.Connect
--                    sys_Connect
--   Socket.Connection what two connected sockets are; Establish, Answer, Accept, Closing, Dangling,
--                    Opening and Frame hold proofs too
--   Pipe.Ring        kernel_pipe.c: the copying loops of pipe_read and pipe_write
--   Pipe.Ends        kernel_pipe.c: pipe_read, pipe_write, reader_close, writer_close, get_pipe
--   Pipe.Fifo        the ring buffer as a queue; Window, Stream, Calls and Closing hold proofs too
--   Streams.Table    kernel_streams.c: the FCB table, FCB_reserve, FCB_unreserve, get_fcb
--   Streams.Refs     the invariant of the reference counts; Start, Acquire, Reserve, Frame, Closing
--                    and Duplicate hold the proofs
--   Streams.Open     kernel_streams.c: open_stream, sys_OpenNull, sys_OpenTerminal
--   Streams.Calls    kernel_streams.c: FCB_decref, sys_Read, sys_Write, sys_Close, sys_Dup2;
--                    kernel_pipe.c: sys_Pipe
--   Proc.Table       kernel_proc.c: the process table, acquire_PCB, release_PCB, initialize_processes
--   Proc.Exec        kernel_proc.c: sys_Exec, sys_GetPid, sys_GetPPid; kernel_threads.c: Create_PTCB
--   Proc.Wait        kernel_proc.c: sys_WaitChild
--   Proc.Exit        kernel_proc.c: sys_Exit
--   Proc.OpenInfo    kernel_proc.c: sys_OpenInfo
--   Proc.Threads     kernel_threads.c: sys_CreateThread, sys_ThreadJoin, sys_ThreadDetach,
--                    sys_ThreadExit
--   Proc.FreeList    the free list of the process table; Start, Collect, Inherit, Spawn and Hazards
--                    hold proofs too
--   Symposium        symposium.c: the dining philosophers; Seats and Meal hold the proofs
--   Shell            tinyos_shell.c: Capitalize, LowerCase, LineEnum, WordCount, hanoi; Filters and Hanoi
--                    hold proofs
--   Shell.Line       tinyos_shell.c: how process_line splits a line up; Shell.Split the proofs
--   Shell.Pipeline   tinyos_shell.c: getprog_byname, savefid, the pipeline of process_line
--   Shell.Process    what process_line starts for a line
--   Shell.Remote     tinyos_shell.c: send_message, recv_message, and the request of a remote client;
--                    Shell.Messages the proofs
--   Tests            examples on a small machine
--
-- State. A C global is a field of a record: Sched for the scheduler, Kernel for it with the waiters
-- and the kernel semaphore, World for the whole kernel. Objects on the heap go by numbers; an intrusive
-- list is the sequence of the numbers of its owners, as Rlist.Ring relates pointers to sequences. The number of a new object is an argument of the
-- operation that calls malloc, which here does not fail. A failed assert, and an access to an object
-- that has been freed, is none or fault.
--
-- Sleeping. A function that gives up the core ends there in the model: yield hands the core to the
-- next thread, which goes on with gain; cv_wait goes on with cv_resume, pipe_read with read_resume,
-- pipe_write with write_resume, and likewise a wait for a child
-- (resume_specific, resume_any), a join (resume_join), an exit (resume_exit, resume_exit_thread), a read
-- from a terminal (serial_resume), Accept (accept_resume), Connect (connect_resume) and the close of a
-- listener (close_listener_resume, decref_resume). Where sys_Exit closes a listener whose close has to
-- wait, nothing in the model goes on with the rest of the exit.
-- What happens in between is any sequence of steps of other threads.
-- Mutexes that are held over a whole function (sched_spinlock, waitset_lock, kernel_mutex) make that
-- function one step, and are not in the state. sleep_releasing gives sched_spinlock back before it calls
-- yield, which takes it again: it is the two sections one after the other, and the theorems about yield
-- hold of a current thread that another core has made READY in between. Its preempt_off spans both, so
-- the flag that yield saves is 0, and the one that the model returns is that of sleep_releasing. Cc.Mutex models a mutex by itself, by the operations on its
-- lock byte.
--
-- Integers. uint32_t and uint64_t wrap round as in C, written out (% 2 ^ 32, % 2 ^ 64); the length that Execute gives to Exec is converted to int (to_int), and the
-- loops up to an int that is negative make no round; the bytes of a
-- pipe are only moved, and are any numbers.
--
-- Fuel. The loop over the timeout list runs on one more than its length, since each round takes a
-- thread off it; Cond_Broadcast on one more than the number of waiters, for the same reason. The loop
-- of the initial task in sys_Exit has one round more than there are children, each of which takes one
-- away; the loop of a main thread over the threads of its process (Proc.Threads.join_all) takes its fuel
-- as an argument, and says when it ran out. The loops over a list or a string take their fuel as an
-- argument too: one more than the length of the list, or the length of the argument buffer, is enough.
--
-- The virtual machine (bios.c) is modelled by itself: the kernel above takes the clock and the bytes at
-- the serial ports as part of its state. A handler of an interrupt is a function on the state of the
-- machine, and the results of select, poll, read and write on the host are arguments. raise_interrupt,
-- dispatch_interrupts and PIC_daemon hold no lock: the functions that model them, and the theorems about
-- those, are for what one thread does with no other in between. In the steps of Bios.Boot only what
-- runs under core_halt_mutex is one step, and each assignment else is a step of its own. cpu_core_halt
-- begins behind the masking of SIGUSR1, which is not in the state. The counters irq_raised,
-- irq_delivered and irq_count have no bound.
--
-- The shell makes its system calls through a parameter (Shell.Pipeline.Calls), and the remote client and
-- server read and write through one (Shell.Remote.Channel); nothing is assumed of either. The format of
-- a number that LineEnum prints is an argument.
--
-- Not modelled: machine contexts and stacks; the threads, signals and timers of the host, and the
-- shutdown of the virtual machine; a malloc that fails; rlist_reverse and the exception macros of
-- util.h; the programs of the shell but those named above, how it reads a line into words, the example
-- programs, and the tests. The union of a socket is a listener's or a peer's; reading it as the other
-- is fault.
pub mod Argv
pub mod Bios
pub mod Boot
pub mod Common
pub mod Sched
pub mod Rlist
pub mod Cc
pub mod World
pub mod Pipe
pub mod Devices
pub mod Socket
pub mod Streams
pub mod Proc
pub mod Symposium
pub mod Shell
pub mod Tests
