-- ===== src/Socket/Connect.antt =====
-- kernel_socket.c: Connect, which sends a request to a listener and waits for the answer.
use disasteros.Common.{ℕ, ◌*◌, ◌%◌, false, ◌&&◌, none, some, [], ◌∷◌, ◌++◌, if◌then◌else◌, update}
use disasteros.Common.Int.{ℤ, pos, minus_one}
use disasteros.Sched.Thread.{user}
use disasteros.Cc.CondVar.{cond_signal, cv_resume}
use disasteros.Cc.KernelLock.{kernel_wait}
use disasteros.World.{World, ConnReq, Outcome, returned, asleep, or_fault, Cpu, set_kernel}
use disasteros.Streams.Table.{get_fcb}
use disasteros.Socket.{is_listener, is_unbound}
use disasteros.Socket.Calls.{is_port, port_of, listener_fields, set_queue}

-- `kernel_timedwait` on the request at `r`, up to the context switch.
unfoldable pub wait_accepted : Cpu → (r timeout : ℕ) → ConnReq → World → Outcome ℤ
wait_accepted c r timeout req w =
    or_fault
      (kernel_wait c.core user (1000 * timeout % 18446744073709551616) c.curtime c.later req.conn_cv
        w.kernel)
      λ (_, cv, k). asleep (record (set_kernel k w) {
        requests = update w.requests r (some (record req { conn_cv = cv }));
      })

-- `sys_Connect` from "Create and fill connection struct" on: the request `r` of the socket at `a` is
-- sent to the listener at `l`.
unfoldable pub send_request : Cpu → (l a r timeout : ℕ) → World → Outcome ℤ
send_request c l a r timeout w =
    let req : ConnReq = record { socket = a; conn_cv = []; accepted = false } in
    or_fault (w.scbs l) λ scb. or_fault (listener_fields scb.socket) λ (cv, q).
      or_fault (cond_signal cv w.kernel) λ (cv', k).
        wait_accepted c r timeout req (set_queue l scb cv' (q ++ r ∷ []) (set_kernel k w))

-- `sys_Connect`, where the allocator gives the request the address `r`. The file id is not tested for
-- being a socket's; `fault` is the access to an object that is none.
unfoldable pub sys_connect : Cpu → (sock port : ℤ) → (timeout r : ℕ) → World → Outcome ℤ
sys_connect c sock port timeout r w =
    if is_port port
    then elim (w.port_map (port_of port)) [
      | none ↦ returned minus_one w
      | some l ↦ or_fault (w.scbs l) λ lsocket.
          if is_listener lsocket.type
          then elim (get_fcb c sock w) [
            | none ↦ returned minus_one w
            | some f ↦ or_fault (w.scbs (w.fcb f).streamobj) λ scb.
                if is_unbound scb.type
                then send_request c l (w.fcb f).streamobj r timeout w
                else returned minus_one w
          ]
          else returned minus_one w
    ]
    else returned minus_one w

-- The end of the wait in `sys_Connect`, and the rest of the call: the loop ends in every case.
unfoldable pub connect_resume : Cpu → (r : ℕ) → World → Outcome ℤ
connect_resume c r w = or_fault (w.requests r) λ req.
    or_fault (cv_resume c.core req.conn_cv w.kernel) λ (flag, cv).
      returned (if flag && req.accepted then pos 0 else minus_one)
        (record w { requests = update w.requests r (some (record req { conn_cv = cv })) })
