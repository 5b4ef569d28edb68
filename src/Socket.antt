-- ===== src/Socket.antt =====
-- kernel_socket.c: the read, write, shutdown and close of sockets. A socket goes by the address of its
-- SCB. The kernel lock is held; a call that waits goes on with its `_resume`.

pub mod Calls
pub mod Connect
pub mod Connection
pub mod Establish
pub mod Opening
pub mod Closing
pub mod Dangling
pub mod Answer
pub mod Accept
pub mod Frame
use disasteros.Common.{
  ℕ, Bool, true, false, ◌&&◌, ◌||◌, not, Option, none, some, List, [], leb, ◌==◌, if◌then◌else◌,
  update, ◌>>=◌,
}
use disasteros.Common.Int.{ℤ, pos, minus_one}
use disasteros.Sched.Thread.{user}
use disasteros.Sched.Switch.{yield}
use disasteros.Cc.CondVar.{CondVar, cond_broadcast}
use disasteros.World.{
  World, FileOps, reader_ops, writer_ops, nulldev_fops, info_ops, serial_fops, socket_ops,
  SocketType, SocketUnion, as_listener, as_peer, Scb, Outcome, returned, asleep, fault, or_fault,
  and_then, Cpu, set_kernel,
}
use disasteros.Pipe.Ends.{pipe_read, pipe_write, reader_close, writer_close}
use disasteros.Streams.Table.{get_fcb}

abbrev ReadResult : Type 0
ReadResult = ℤ × List ℕ

abbrev pub set_scb : ℕ → Option Scb → World → World
set_scb a s w = record w { scbs = update w.scbs a s }

abbrev pub is_peer : SocketType → Bool
is_peer SocketType.peer = true
is_peer SocketType.listener = false
is_peer SocketType.unbound = false

abbrev pub is_listener : SocketType → Bool
is_listener SocketType.listener = true
is_listener SocketType.peer = false
is_listener SocketType.unbound = false

abbrev pub is_unbound : SocketType → Bool
is_unbound SocketType.unbound = true
is_unbound SocketType.listener = false
is_unbound SocketType.peer = false

-- `streamfunc == &socket_ops`
abbrev pub is_socket : FileOps → Bool
is_socket socket_ops = true
is_socket reader_ops = false
is_socket writer_ops = false
is_socket nulldev_fops = false
is_socket info_ops = false
is_socket serial_fops = false

-- `socket_read`
unfoldable pub socket_read : Cpu → ℕ → (size : ℕ) → World → Outcome ReadResult
socket_read c a size w = or_fault (w.scbs a) λ scb.
    if is_peer scb.type
    then elim scb.socket [
      | as_listener cv q ↦ fault
      | as_peer none send receive ↦ returned (minus_one, []) w
      | as_peer (some b) send (some p) ↦ pipe_read c p size w
      | as_peer (some b) send none ↦ returned (pos 0, []) w
    ]
    else returned (minus_one, []) w

-- `socket_write`
unfoldable pub socket_write : Cpu → ℕ → (buf : ℕ → ℕ) → (size : ℕ) → World → Outcome ℤ
socket_write c a buf size w = or_fault (w.scbs a) λ scb.
    if is_peer scb.type
    then elim scb.socket [
      | as_listener cv q ↦ fault
      | as_peer none send receive ↦ returned minus_one w
      | as_peer (some b) (some p) receive ↦ pipe_write c p buf size w
      | as_peer (some b) none receive ↦ returned minus_one w
    ]
    else returned minus_one w

-- Writes to the pointers of a union that is a peer's; it is `none` on a listener's.
abbrev pub with_send : (p : Option ℕ) → SocketUnion → Option SocketUnion
with_send p (as_listener cv q) = none
with_send p (as_peer b send receive) = some (as_peer b p receive)

abbrev pub with_receive : (p : Option ℕ) → SocketUnion → Option SocketUnion
with_receive p (as_listener cv q) = none
with_receive p (as_peer b send receive) = some (as_peer b send p)

unfoldable pub set_send : (a : ℕ) (p : Option ℕ) → World → Option World
set_send a p w = do
  scb ← w.scbs a
  u ← with_send p scb.socket
  some (set_scb a (some (record scb { socket = u })) w)

unfoldable pub set_receive : (a : ℕ) (p : Option ℕ) → World → Option World
set_receive a p w = do
  scb ← w.scbs a
  u ← with_receive p scb.socket
  some (set_scb a (some (record scb { socket = u })) w)

abbrev pub shutdown_read : ℕ
shutdown_read = 1

abbrev pub shutdown_write : ℕ
shutdown_write = 2

abbrev pub shutdown_both : ℕ
shutdown_both = 3

-- The part of `sys_ShutDown` that closes the receiving direction, of the socket at `a` with its peer
-- at `b`.
unfoldable pub shut_receive : (a b : ℕ) → (receive : Option ℕ) → World → Outcome ℤ
shut_receive a b none w = returned (pos 0) w
shut_receive a b (some p) w = and_then (reader_close p w) λ _ w₁.
    or_fault (set_receive a none w₁) λ w₂. or_fault (set_send b none w₂) λ w₃. returned (pos 0) w₃

-- The part that closes the sending direction.
unfoldable pub shut_send : (a : ℕ) → (send : Option ℕ) → World → Outcome ℤ
shut_send a none w = returned (pos 0) w
shut_send a (some p) w =
    and_then (writer_close p w) λ _ w₁. or_fault (set_send a none w₁) λ w₂. returned (pos 0) w₂

-- The pointers `peer`, `send` and `receive`; `none` where the union is a listener's or the SCB is not
-- there.
abbrev pub peer_fields : SocketUnion → Option (Option ℕ × Option ℕ × Option ℕ)
peer_fields (as_listener cv q) = none
peer_fields (as_peer b send receive) = some (b, send, receive)

unfoldable pub peer_of : ℕ → World → Option (Option ℕ × Option ℕ × Option ℕ)
peer_of a w = do scb ← w.scbs a; peer_fields scb.socket

-- The two directions, each closed if `how` says so.
unfoldable pub shut_reading : (a b : ℕ) (receive : Option ℕ) (how : ℕ) → World → Outcome ℤ
shut_reading a b receive how w =
    if how == shutdown_read || how == shutdown_both
    then shut_receive a b receive w
    else returned (pos 0) w

unfoldable pub shut_writing : (a : ℕ) (how : ℕ) → World → Outcome ℤ
shut_writing a how w =
    if how == shutdown_write || how == shutdown_both
    then (or_fault (peer_of a w) λ (_, send, _). shut_send a send w)
    else returned (pos 0) w

-- Both, on a peer that is not NULL.
unfoldable pub shut_both : (a : ℕ) (b receive : Option ℕ) (how : ℕ) → World → Outcome ℤ
shut_both a none receive how w = returned minus_one w
shut_both a (some b) receive how w =
    and_then (shut_reading a b receive how w)
      λ _ w₁. and_then (shut_writing a how w₁) λ _ w₂. returned (pos 0) w₂

-- `sys_ShutDown` from the test of `type` on, for the socket at `a`.
unfoldable pub shut_down : (a : ℕ) → (how : ℕ) → World → Outcome ℤ
shut_down a how w = or_fault (w.scbs a) λ scb.
    if is_peer scb.type
    then (or_fault (peer_fields scb.socket) λ (b, _, receive). shut_both a b receive how w)
    else returned minus_one w

-- `sys_ShutDown` on the FCB that `get_fcb` found.
unfoldable pub shut_fcb : (f : Option ℕ) (how : ℕ) → World → Outcome ℤ
shut_fcb none how w = returned minus_one w
shut_fcb (some f) how w =
    if is_socket (w.fcb f).streamfunc
    then shut_down (w.fcb f).streamobj how w
    else returned minus_one w

-- `sys_ShutDown`
unfoldable pub sys_shut_down : Cpu → (sock : ℤ) → (how : ℕ) → World → Outcome ℤ
sys_shut_down c sock how w =
    if how == 0 then returned minus_one w else shut_fcb (get_fcb c sock w) how w

-- `socket_close` on a listener, up to the context switch of its `yield`.
unfoldable pub close_listener : Cpu → (a : ℕ) → Scb → SocketUnion → World → Outcome ℤ
close_listener c a scb (as_peer b send receive) w = fault
close_listener c a scb (as_listener cv q) w = or_fault (cond_broadcast cv w.kernel) λ (cv', k).
    or_fault (yield c.core user c.curtime k.sched) λ (_, s). asleep (
      set_scb a (some (record scb { refcount = 0; socket = as_listener cv' q }))
        (set_kernel (record k { sched = s }) w))

-- The rest of that call, when its thread runs again.
unfoldable pub close_listener_resume : (a : ℕ) → World → Outcome ℤ
close_listener_resume a w = or_fault (w.scbs a) λ scb. returned (pos 0) (
    set_scb a none (elim (w.port_map scb.port) [
      | none ↦ w
      | some b ↦ if b == a then record w { port_map = update w.port_map scb.port none } else w
    ]))

-- `socket_close` on a peer: "close both sides", and the pipe that the other side receives from is
-- forgotten there. The SCB of the other side must be there still.
unfoldable pub close_peer : Cpu → (a : ℕ) → Scb → World → Outcome ℤ
close_peer c a scb w = and_then (sys_shut_down c (pos scb.fid) shutdown_both w) λ _ w₁.
    or_fault (peer_of a w₁) λ (peer, _, _).
      or_fault peer λ b. or_fault (set_receive b none w₁) λ w₂. returned (pos 0) (set_scb a none w₂)

-- `socket_close` by the type of the socket.
unfoldable pub close_type : Cpu → (a : ℕ) → SocketType → Scb → World → Outcome ℤ
close_type c a SocketType.listener scb w = close_listener c a scb scb.socket w
close_type c a SocketType.peer scb w = close_peer c a scb w
close_type c a SocketType.unbound scb w = returned (pos 0) (set_scb a none w)

-- `socket_close`
unfoldable pub socket_close : Cpu → (a : ℕ) → World → Outcome ℤ
socket_close c a w =
    or_fault (w.scbs a)
      λ scb. if leb scb.refcount 1 then close_type c a scb.type scb w else returned minus_one w
