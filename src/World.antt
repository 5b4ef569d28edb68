-- ===== src/World.antt =====
-- The state of the kernel: the control blocks of kernel_pipe.h, kernel_streams.h and kernel_proc.h,
-- and the tables that hold them. Objects on the heap are named by numbers; the number of a new one
-- is an argument of the operation that calls the allocator, and `none` stands at an address that
-- holds no object.
use disasteros.Common.{ℕ, Bool, Option, none, some, List, update}
use disasteros.Common.Int.{ℤ}
use disasteros.Cc.CondVar.{CondVar, Kernel}

-- `PipeCB`. The bytes are only moved, so a byte is any number. The back pointer `pipe` is never read.
pub record Pipe : Type 0 where
  pub buffer : ℕ → ℕ
  pub write_p : ℕ
  pub read_p : ℕ
  pub available_space : ℕ
  pub has_space : CondVar
  pub has_data : CondVar
  pub reader_closed : Bool
  pub writer_closed : Bool

-- The `file_ops` tables of pipes, of the null device, of process information, of the serial device
-- and of sockets, one constructor each.
pub data FileOps : Type 0 where
  reader_ops writer_ops nulldev_fops info_ops serial_fops socket_ops : FileOps

-- `FCB`. The node of the free list is the FCB's number in that list.
pub record Fcb : Type 0 where
  pub refcount : ℕ
  pub streamobj : ℕ
  pub streamfunc : FileOps

-- `pid_state`
pub data PidState : Type 0 where
  free alive zombie : PidState

-- `PCB`. A NULL pointer is `none`; a process is named by its pid, the index in `PT`, and a list of
-- nodes is the list of the owners. `fidt` is the fileid table.
pub record Pcb : Type 0 where
  pub pstate : PidState
  pub parent : Option ℕ
  pub exitval : ℤ
  pub main_thread : Option ℕ
  pub children_list : List ℕ
  pub exited_list : List ℕ
  pub child_exit : CondVar
  pub fidt : ℕ → Option ℕ
  pub ptcb_list : List ℕ
  pub thread_count : ℕ

-- `PTCB`. Tasks and argument blocks are opaque numbers, and NULL is `none`.
pub record Ptcb : Type 0 where
  pub owner_pcb : ℕ
  pub thread : Option ℕ
  pub exitval : ℤ
  pub waiting : CondVar
  pub thread_join : CondVar
  pub waiting_threads : ℕ
  pub detached : Bool
  pub main_task : Option ℕ
  pub argl : ℕ
  pub args : Option ℕ

-- `procinfo`
pub record Procinfo : Type 0 where
  pub pid : ℕ
  pub ppid : ℕ
  pub alive : Bool
  pub thread_count : ℕ
  pub main_task : Option ℕ
  pub argl : ℕ
  pub args : List ℕ

-- `InfoCB`
pub record Info : Type 0 where
  pub info_table : ℕ → Procinfo
  pub index : ℕ

-- `Socket_type`
pub data SocketType : Type 0 where
  unbound listener peer : SocketType

-- `Socket_t`, a union: its bytes are a listener's or a peer's. NULL pointers are `none`, and the union
-- of the other socket goes by the address of its SCB. A new socket is all zeros.
pub data SocketUnion : Type 0 where
  as_listener : (reqs_cv : CondVar) (req_queue : List ℕ) → SocketUnion
  as_peer : (peer send receive : Option ℕ) → SocketUnion

-- `SCB`
pub record Scb : Type 0 where
  pub refcount : ℕ
  pub port : ℕ
  pub type : SocketType
  pub socket : SocketUnion
  pub fid : ℕ

-- `Conn_req`. Its node in a queue of requests is its own address there.
pub record ConnReq : Type 0 where
  pub socket : ℕ
  pub conn_cv : CondVar
  pub accepted : Bool

-- A serial port: the bytes that have come in, those that went out, how many more it takes at the
-- moment, and `rx_ready` of its `serial_dcb_t`.
pub record Serial : Type 0 where
  pub input : List ℕ
  pub output : List ℕ
  pub room : ℕ
  pub rx_ready : CondVar

pub record World : Type 0 where
  pub kernel : Kernel
  pub pipes : ℕ → Option Pipe
  pub fcb : ℕ → Fcb
  pub fcb_freelist : List ℕ
  pub pcb : ℕ → Pcb
  pub pcb_freelist : Option ℕ
  pub process_count : ℕ
  pub ptcbs : ℕ → Option Ptcb
  pub infos : ℕ → Option Info
  pub scbs : ℕ → Option Scb
  pub port_map : ℕ → Option ℕ
  pub requests : ℕ → Option ConnReq
  pub serial_ports : ℕ
  pub serial : ℕ → Serial

-- What a call that may block does: it returns, or its thread goes to sleep in `kernel_wait`, or it
-- faults: a failed assertion, or an access to an object that is not there.
pub data Outcome {ℓ} (A : Type ℓ) : Type ℓ where
  returned : A → World → Outcome A
  asleep : World → Outcome A
  fault : Outcome A

-- A step that returns is followed by the next one.
abbrev pub and_then {ℓ κ} :
    {A : Type ℓ} {B : Type κ} → Outcome A → (A → World → Outcome B) → Outcome B
and_then (returned a w) f = f a w
and_then (asleep w) f = asleep w
and_then fault f = fault

-- A step of the kernel below, which may fault.
abbrev pub or_fault {ℓ κ} : {A : Type ℓ} {B : Type κ} → Option A → (A → Outcome B) → Outcome B
or_fault none f = fault
or_fault (some a) f = f a

-- The core that runs a call, and what `bios_clock` returns to it.
pub record Cpu : Type 0 where
  pub core : ℕ
  pub curtime : ℕ
  pub later : ℕ

abbrev pub set_kernel : Kernel → World → World
set_kernel k w = record w { kernel = k }

abbrev pub set_pcb : ℕ → Pcb → World → World
set_pcb p b w = record w { pcb = update w.pcb p b }

abbrev pub set_fcb : ℕ → Fcb → World → World
set_fcb f b w = record w { fcb = update w.fcb f b }

-- CURTHREAD and CURPROC.
abbrev pub curthread : Cpu → World → ℕ
curthread c w = w.kernel.sched.current_thread c.core

abbrev pub curproc : Cpu → World → ℕ
curproc c w = (w.kernel.sched.tcb (curthread c w)).owner_pcb

abbrev pub max_fileid : ℕ
max_fileid = 16

abbrev pub max_proc : ℕ
max_proc = 65536
