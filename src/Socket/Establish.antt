-- ===== src/Socket/Establish.antt =====
-- kernel_socket.c: the steps of Accept that connect two sockets.
use disasteros.Common.{ℕ, ◌≡◌, ◌≢◌, refl, true, Option, none, some, update, arith, All}
use disasteros.Sched.Valid
use disasteros.Cc.Signal.{CanWait, cv_signal-Signalled}
use disasteros.Cc.CondVar.{CondVar, Kernel, cv_signal, cond_signal}
use disasteros.World.{World, SocketType, as_peer, Scb, ConnReq}
use disasteros.Pipe.Ends.{new_pipe, get_pipe}
use disasteros.Socket.{set_scb, set_send, set_receive, peer_of}
use disasteros.Socket.Calls.{become_peer, create_pipe, signal_request, establish}
use disasteros.Socket.Connection.{Connected}

become_peer_of :
    (a b : ℕ) (w : World) (s : Scb)
    → w.scbs a ≡ some s
    → s.socket ≡ as_peer none none none
    → become_peer a b w
      ≡ some (
          set_scb a
            (some (record s {
              refcount = 1;
              type = SocketType.peer;
              socket = as_peer (some b) none none;
            }))
            w)
unfolding become_peer
become_peer_of a b w s e f = rw e (rw f refl)

module _ (a : ℕ) (w : World) (s : Scb) (p q r v : Option ℕ) (e : w.scbs a ≡ some s)
    (f : s.socket ≡ as_peer p q r) where
  pub set_send_of : set_send a v w ≡ some (set_scb a (some (record s { socket = as_peer p v r })) w)
  unfolding set_send
  set_send_of = rw e (rw f refl)

  pub set_receive_of :
      set_receive a v w ≡ some (set_scb a (some (record s { socket = as_peer p q v })) w)
  unfolding set_receive
  set_receive_of = rw e (rw f refl)

  pub peer_of_of : peer_of a w ≡ some (p, q, r)
  unfolding peer_of
  peer_of_of = rw e (rw f refl)

module _ (a b x y : ℕ) (w : World) (s t : Scb) (ne : a ≢ b) (ne' : x ≢ y) (ea : w.scbs a ≡ some s)
    (eb : w.scbs b ≡ some t) (us : s.socket ≡ as_peer (some b) none none)
    (ut : t.socket ≡ as_peer (some a) none none) where
  -- The four writes of `create_pipe`, one after the other.
  abbrev send_a : World
  send_a =
      set_scb a (some (record s { socket = as_peer (some b) (some y) none }))
        (get_pipe y (get_pipe x w))

  abbrev both_a : World
  both_a = set_scb a (some (record s { socket = as_peer (some b) (some y) (some x) })) send_a

  abbrev send_b : World
  send_b = set_scb b (some (record t { socket = as_peer (some a) (some x) none })) both_a

  abbrev piped : World
  piped = set_scb b (some (record t { socket = as_peer (some a) (some x) (some y) })) send_b

  create_pipe_of : create_pipe a x y w ≡ some piped
  unfolding create_pipe get_pipe
  create_pipe_of =
      let e₂ : send_a.scbs a ≡ some (record s { socket = as_peer (some b) (some y) none }) =
        ground arith in
      let e₃ : both_a.scbs b ≡ some t = ground (arith, eb) in
      let e₄ : send_b.scbs b ≡ some (record t { socket = as_peer (some a) (some x) none }) =
        ground arith in
      rw (peer_of_of a w s (some b) none none none ea us) (
        rw (set_send_of a (get_pipe y (get_pipe x w)) s (some b) none none (some y) ea us) (
          rw
            (set_receive_of a send_a (record s { socket = as_peer (some b) (some y) none }) (some b)
              (some y) none (some x) e₂ refl)
            (rw (set_send_of b both_a t (some a) none none (some x) e₃ ut) (
              set_receive_of b send_b (record t { socket = as_peer (some a) (some x) none })
                (some a) (some x) none (some y) e₄ refl))))

pub signal_request_of :
    (r : ℕ) (w : World) (req : ConnReq) (cv : CondVar) (k : Kernel)
    → w.requests r ≡ some req
    → cv_signal req.conn_cv w.kernel ≡ some (cv, k)
    → signal_request r w
      ≡ some (record w {
        kernel = k;
        requests = update w.requests r (some (record req { conn_cv = cv }));
      })
unfolding signal_request cond_signal
signal_request_of r w req cv k e f = rw e (rw f refl)

-- What becomes of the two sockets and the request.
pub record Established (a b x y r : ℕ) (w w' : World) : Type 0 where
  pub connected : Connected a b x y w'
  pub pipe_x : w'.pipes x ≡ some new_pipe
  pub pipe_y : w'.pipes y ≡ some new_pipe
  pub accepted : (req : ConnReq) × (w'.requests r ≡ some req) × (req.accepted ≡ true)
  pub others : (j : ℕ) → j ≢ a → j ≢ b → w'.scbs j ≡ w.scbs j
  pub fcb : w'.fcb ≡ w.fcb
  pub fcb_freelist : w'.fcb_freelist ≡ w.fcb_freelist
  pub pcb : w'.pcb ≡ w.pcb

-- On two sockets that are not connected yet, a request of the second one, two fresh pipes, and a
-- kernel that can wake the client, the steps of `sys_Accept` that establish the connection succeed:
-- the sockets are peers of each other, what one sends the other receives, both pipes are empty and
-- open, the client's request is accepted, and no other socket and no file id has changed.
pub establish_lem :
    (a b x y r : ℕ) (s t : Scb) (req : ConnReq) {w : World}
    → a ≢ b
    → x ≢ y
    → w.scbs a ≡ some s
    → w.scbs b ≡ some t
    → s.socket ≡ as_peer none none none
    → t.socket ≡ as_peer none none none
    → w.requests r ≡ some req
    → Valid.IsValid w.kernel.sched
    → All (CanWait w.kernel.sched) req.conn_cv
    → (w' : World) × (establish a b x y r w ≡ some w') × Established a b x y r w w'
unfolding establish get_pipe
establish_lem a b x y r s t req {w} ne ne' ea eb us ut er v can =
    let (cv, k, e, _) = cv_signal-Signalled req.conn_cv w.kernel v can in
    let sa : Scb = record s {
      refcount = 1;
      type = SocketType.peer;
      socket = as_peer (some b) none none;
    } in
    let tb : Scb = record t {
      refcount = 1;
      type = SocketType.peer;
      socket = as_peer (some a) none none;
    } in
    let w₁ = set_scb a (some sa) w in
    let w₂ = set_scb b (some tb) w₁ in
    let eb₁ : w₁.scbs b ≡ some t = ground (arith, eb) in
    let ea₂ : w₂.scbs a ≡ some sa = ground arith in
    let eb₂ : w₂.scbs b ≡ some tb = ground arith in
    let w₃ = piped a b x y w₂ sa tb ne ne' ea₂ eb₂ refl refl in
    let answered = update w₃.requests r (some (record req { accepted = true })) in
    let done = record w₃ {
      kernel = k;
      requests = update answered r (some (record req { accepted = true; conn_cv = cv }));
    } in
    (
      done,
      rw (become_peer_of a b w s ea us) (
          rw (become_peer_of b a w₁ t eb₁ ut) (
            rw (create_pipe_of a b x y w₂ sa tb ne ne' ea₂ eb₂ refl refl) (
              rw er (
                signal_request_of r (record w₃ { requests = answered })
                  (record req { accepted = true }) cv k (ground arith) e)))),
      record {
        connected = (
          record {
            scb = record sa { socket = as_peer (some b) (some y) (some x) };
            at = ground arith;
            type = refl;
            socket = refl;
          },
          record {
            scb = record tb { socket = as_peer (some a) (some x) (some y) };
            at = ground arith;
            type = refl;
            socket = refl;
          },
        );
        pipe_x = ground arith;
        pipe_y = ground arith;
        accepted = (record req { accepted = true; conn_cv = cv }, ground arith, refl);
        others = λ j h h'. ground arith;
        fcb = refl;
        fcb_freelist = refl;
        pcb = refl;
      },
    )
