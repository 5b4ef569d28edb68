-- ===== src/Socket/Calls.antt =====
-- kernel_socket.c: Socket, Listen and Accept. A listener's queue holds the addresses of
-- connection requests; the addresses of new objects are arguments.
use disasteros.Common.{
  ℕ, suc, Bool, true, false, ◌&&◌, ◌||◌, not, Option, none, some, is_some, List, [], ◌∷◌, is_empty,
  leb, ◌==◌, if◌then◌else◌, update, ◌>>=◌,
}
use disasteros.Common.Int.{ℤ, pos, negsuc, minus_one}
use disasteros.Sched.Thread.{pipe, no_timeout}
use disasteros.Cc.CondVar.{CondVar, cond_signal, cv_resume}
use disasteros.Cc.KernelLock.{kernel_wait}
use disasteros.World.{
  World, socket_ops, SocketType, SocketUnion, as_listener, as_peer, Scb, Outcome, returned, asleep,
  fault, or_fault, Cpu, curproc, set_kernel,
}
use disasteros.Pipe.Ends.{get_pipe}
use disasteros.Streams.Table.{get_fcb, fcb_reserve}
use disasteros.Streams.Calls.{attach}
use disasteros.Socket.{set_scb, set_send, set_receive, peer_of, is_listener, is_socket}

abbrev pub max_port : ℕ
max_port = 1023

abbrev pub is_port : ℤ → Bool
is_port (pos p) = leb p max_port
is_port (negsuc n) = false

abbrev pub port_of : ℤ → ℕ
port_of (pos p) = p
port_of (negsuc n) = 0

-- The SCB of a new socket: zeros, with the port and the file id if there is a port.
unfoldable pub new_scb : (port fid : ℕ) → Scb
new_scb port fid = record {
  refcount = 0;
  port = port;
  type = SocketType.unbound;
  socket = as_peer none none none;
  fid = if port == 0 then 0 else fid;
}

-- `sys_Socket` behind `FCB_reserve`.
unfoldable pub finish_socket : (port a : ℕ) → Option (List ℕ × List ℕ) → World → Option ℕ × World
finish_socket port a none w = (none, w)
finish_socket port a (some ([], fcbs)) w = (none, w)
finish_socket port a (some (fid ∷ _, [])) w = (none, w)
finish_socket port a (some (fid ∷ _, f ∷ _)) w =
    (some fid, attach f a socket_ops (set_scb a (some (new_scb port fid)) w))

-- `sys_Socket`, where the allocator gives the SCB the address `a`: the file id, or `none` for NOFILE.
unfoldable pub sys_socket : Cpu → (port : ℤ) → (a : ℕ) → World → Option ℕ × World
sys_socket c port a w =
    if is_port port
    then (let (o, w') = fcb_reserve (curproc c w) 1 w in finish_socket (port_of port) a o w')
    else (none, w)

-- `sys_Listen` on the socket at `a`.
unfoldable pub listen_on : (a : ℕ) → World → Outcome ℤ
listen_on a w = or_fault (w.scbs a) λ scb.
    if scb.port == 0 || is_some (w.port_map scb.port) || not (scb.refcount == 0)
    then returned minus_one w
    else (let bound = record scb {
      socket = as_listener [] [];
      refcount = suc scb.refcount;
      type = SocketType.listener;
    } in
        returned (pos 0)
          (record (set_scb a (some bound) w) { port_map = update w.port_map scb.port (some a) }))

-- A system call on the socket of a file id; it fails if there is none.
abbrev pub on_fcb : (f : Option ℕ) → (ℕ → World → Outcome ℤ) → World → Outcome ℤ
on_fcb none call w = returned minus_one w
on_fcb (some f) call w =
    if is_socket (w.fcb f).streamfunc then call (w.fcb f).streamobj w else returned minus_one w

abbrev pub on_socket : Cpu → (sock : ℤ) → (ℕ → World → Outcome ℤ) → World → Outcome ℤ
on_socket c sock call w = on_fcb (get_fcb c sock w) call w

-- `sys_Listen`
unfoldable pub sys_listen : Cpu → (sock : ℤ) → World → Outcome ℤ
sys_listen c sock w = on_socket c sock listen_on w

-- The fields of a listener, `none` where the union is a peer's.
abbrev pub listener_fields : SocketUnion → Option (CondVar × List ℕ)
listener_fields (as_listener cv q) = some (cv, q)
listener_fields (as_peer b send receive) = none

-- The pointer to the other socket is written; the other two are overwritten behind it.
abbrev pub with_peer : (b : ℕ) → SocketUnion → SocketUnion
with_peer b (as_peer _ send receive) = as_peer (some b) send receive
with_peer b (as_listener cv q) = as_peer (some b) none none

-- A socket becomes the peer of the one at `b`.
unfoldable pub become_peer : (a b : ℕ) → World → Option World
become_peer a b w = do
  scb ← w.scbs a
  some (
      set_scb a
        (some
          (record scb { refcount = 1; type = SocketType.peer; socket = with_peer b scb.socket }))
        w)

-- `create_pipe`, on the socket at `a`, where the allocator gives the pipes `r` and `s`.
unfoldable pub create_pipe : (a r s : ℕ) → World → Option World
create_pipe a r s w = do
  (peer, _, _) ← peer_of a w
  b ← peer
  w₁ ← set_send a (some s) (get_pipe s (get_pipe r w))
  w₂ ← set_receive a (some r) w₁
  w₃ ← set_send b (some r) w₂
  set_receive b (some s) w₃

-- `Cond_Signal(&conn_struct->conn_cv)`, for the request at `r`.
unfoldable pub signal_request : (r : ℕ) → World → Option World
signal_request r w = do
  req ← w.requests r
  (cv, k) ← cond_signal req.conn_cv w.kernel
  some (record (set_kernel k w) {
    requests = update w.requests r (some (record req { conn_cv = cv }));
  })

-- The steps 3 to 6 of `sys_Accept`: the peers, their pipes, and the client's answer.
unfoldable pub establish : (server client x y r : ℕ) → World → Option World
establish server client x y r w = do
  w₁ ← become_peer server client w
  w₂ ← become_peer client server w₁
  w₃ ← create_pipe server x y w₂
  req ← w₃.requests r
  signal_request r
      (record w₃ { requests = update w₃.requests r (some (record req { accepted = true })) })

-- `sys_Accept` behind "Create server socket", which made the file id `fid`, or failed.
unfoldable pub answer_client :
    Cpu → (client r : ℕ) → (x y : ℕ) → (fid : Option ℕ) → World → Outcome ℤ
answer_client c client r x y none w = or_fault (signal_request r w) λ w'. returned minus_one w'
answer_client c client r x y (some fid) w =
    or_fault (get_fcb c (pos fid) w)
      λ f. or_fault (establish (w.fcb f).streamobj client x y r w) λ w'. returned (pos fid) w'

-- `sys_Accept` from "Create server socket" on, for the request `r` of the socket `client`.
unfoldable pub accept_client : Cpu → (port client r : ℕ) → (a x y : ℕ) → World → Outcome ℤ
accept_client c port client r a x y w =
    let (o, w') = sys_socket c (pos port) a w in answer_client c client r x y o w'

-- The listener's queue of requests is written.
abbrev pub set_queue : (l : ℕ) → Scb → CondVar → List ℕ → World → World
set_queue l scb cv q w = set_scb l (some (record scb { socket = as_listener cv q })) w

-- `sys_Accept` from "Creating the peer sockets" on, for the listener at `l`. The head of an empty
-- queue is the queue's own node, whose key is NULL.
unfoldable pub accept_request : Cpu → (l : ℕ) → (a x y : ℕ) → World → Outcome ℤ
accept_request c l a x y w = or_fault (w.scbs l) λ scb.
    or_fault (listener_fields scb.socket) λ (cv, q). elim q [
      | [] ↦ fault
      | r ∷ rs ↦
          let w₁ = set_queue l scb cv rs w in
          or_fault (w₁.requests r) λ req. or_fault (w₁.scbs req.socket) λ client.
            accept_client c scb.port req.socket r a x y
              (set_scb req.socket (some (record client { refcount = 1 })) w₁)
    ]

-- `kernel_wait(&l_scb->socket.reqs_cv, SCHED_PIPE)`, up to the context switch.
unfoldable pub wait_request : Cpu → (l : ℕ) → Scb → CondVar → List ℕ → World → Outcome ℤ
wait_request c l scb cv q w =
    or_fault (kernel_wait c.core pipe no_timeout c.curtime c.later cv w.kernel)
      λ (_, cv', k). asleep (set_queue l scb cv' q (set_kernel k w))

-- `sys_Accept` on the socket at `l`, where the allocator gives the new SCB the address `a` and its
-- pipes the addresses `x` and `y`.
unfoldable pub accept_on : Cpu → (a x y : ℕ) → (l : ℕ) → World → Outcome ℤ
accept_on c a x y l w = or_fault (w.scbs l) λ scb.
    if is_listener scb.type && is_some (w.port_map scb.port)
    then (or_fault (listener_fields scb.socket)
        λ (cv, q). if is_empty q then wait_request c l scb cv q w else accept_request c l a x y w)
    else returned minus_one w

-- `sys_Accept`
unfoldable pub sys_accept : Cpu → (lsock : ℤ) → (a x y : ℕ) → World → Outcome ℤ
sys_accept c lsock a x y w = on_socket c lsock (accept_on c a x y) w

-- The end of the wait in `sys_Accept`, and the rest of the call.
unfoldable pub accept_resume : Cpu → (l : ℕ) → (a x y : ℕ) → World → Outcome ℤ
accept_resume c l a x y w = or_fault (w.scbs l) λ scb.
    or_fault (listener_fields scb.socket) λ (cv, q).
      or_fault (cv_resume c.core cv w.kernel) λ (_, cv').
        let w' = set_queue l scb cv' q w in
        if scb.refcount == 0 then returned minus_one w' else accept_request c l a x y w'
