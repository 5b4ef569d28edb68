-- ===== src/Socket/Accept.antt =====
-- kernel_socket.c: what Accept does with a request.
use disasteros.Common.{
  ℕ, ◌≡◌, ◌≢◌, ◌<◌, refl, sym, ◌∙◌, ap, true, Option, none, some, List, ◌∷◌, update_self, update_ne,
  is_some, All,
}
use disasteros.Common.Int.{ℤ, pos, negsuc}
use disasteros.Sched.Valid
use disasteros.Cc.CondVar.{CondVar}
use disasteros.Cc.Signal.{CanWait}
use disasteros.World.{
  World, SocketType, as_listener, as_peer, Scb, ConnReq, socket_ops, Pcb, Outcome, returned, Cpu,
  curproc, max_proc,
}
use disasteros.Streams.Table.{get_fcb}
use disasteros.Streams.Refs
use disasteros.Streams.Open.{IsValid-same}
use disasteros.Socket.{set_scb}
use disasteros.Socket.Calls.{
  set_queue, on_fcb, accept_on, sys_accept, accept_client, accept_request,
}
use disasteros.Socket.Answer.{Answered, accept_client_lem}

-- A listener with a request on its queue, of a socket that is not connected yet, in a kernel that can
-- wake the client.
pub record Pending (c : Cpu) (lsock : ℤ) (l client r : ℕ) (rs : List ℕ) (scb : Scb) (cv : CondVar)
    (w : World) : Type 0 where
  pub fcb : ℕ
  pub stands_for : get_fcb c lsock w ≡ some fcb
  pub streamobj : (w.fcb fcb).streamobj ≡ l
  pub streamfunc : (w.fcb fcb).streamfunc ≡ socket_ops
  pub at : w.scbs l ≡ some scb
  pub type : scb.type ≡ SocketType.listener
  pub bound : is_some (w.port_map scb.port) ≡ true
  pub socket : scb.socket ≡ as_listener cv (r ∷ rs)
  pub req : ConnReq
  pub requests : w.requests r ≡ some req
  pub from : req.socket ≡ client
  pub other : l ≢ client
  pub peer : Scb
  pub client_at : w.scbs client ≡ some peer
  pub alone : peer.socket ≡ as_peer none none none
  pub sched : Valid.IsValid w.kernel.sched
  pub can_wake : All (CanWait w.kernel.sched) req.conn_cv

accept_request_of :
    (c : Cpu) (l client r a x y : ℕ) (rs : List ℕ) (cv : CondVar) (scb t : Scb) (req : ConnReq)
    (w : World)
    → w.scbs l ≡ some scb
    → scb.socket ≡ as_listener cv (r ∷ rs)
    → w.requests r ≡ some req
    → (set_queue l scb cv rs w).scbs req.socket ≡ some t
    → accept_request c l a x y w
      ≡ accept_client c scb.port req.socket r a x y
          (set_scb req.socket (some (record t { refcount = 1 })) (set_queue l scb cv rs w))
unfolding accept_request
accept_request_of c l client r a x y rs cv scb t req w e u q f = rw e (rw u (rw q (rw f refl)))

accept_on_of :
    (c : Cpu) (l r a x y : ℕ) (rs : List ℕ) (cv : CondVar) (scb : Scb) (w : World)
    → w.scbs l ≡ some scb
    → scb.type ≡ SocketType.listener
    → is_some (w.port_map scb.port) ≡ true
    → scb.socket ≡ as_listener cv (r ∷ rs)
    → accept_on c a x y l w ≡ accept_request c l a x y w
unfolding accept_on
accept_on_of c l r a x y rs cv scb w e t b u = rw e (rw (t, b) (rw u refl))

on_fcb_of :
    (f : ℕ) (call : ℕ → World → Outcome ℤ) (w : World) {l : ℕ}
    → (w.fcb f).streamobj ≡ l
    → (w.fcb f).streamfunc ≡ socket_ops
    → on_fcb (some f) call w ≡ call l w
on_fcb_of f call w o e = rw (e, o) refl

sys_accept_of :
    (c : Cpu) (lsock : ℤ) (l client r a x y : ℕ) (rs : List ℕ) (scb : Scb) (cv : CondVar)
    (w : World) (h : Pending c lsock l client r rs scb cv w)
    → sys_accept c lsock a x y w
      ≡ accept_client c scb.port client r a x y
          (set_scb client (some (record h.peer { refcount = 1 })) (set_queue l scb cv rs w))
unfolding sys_accept
sys_accept_of c lsock l client r a x y rs scb cv w h =
    let still : (set_queue l scb cv rs w).scbs client ≡ some h.peer =
      update_ne w.scbs l client _ (λ e. h.other (sym e)) ∙ h.client_at in
    let w₁ = set_queue l scb cv rs w in
    ap (λ (o : Option ℕ). on_fcb o (accept_on c a x y) w) h.stands_for
    ∙ on_fcb_of h.fcb (accept_on c a x y) w h.streamobj h.streamfunc
    ∙ (accept_on_of c l r a x y rs cv scb w h.at h.type h.bound h.socket
        ∙ accept_request_of c l client r a x y rs cv scb h.peer h.req w h.at h.socket h.requests
            (ap w₁.scbs h.from ∙ still)
        ∙ ap
            (λ (k : ℕ).
              accept_client c scb.port k r a x y
                (set_scb k (some (record h.peer { refcount = 1 })) w₁))
            h.from)

-- What `sys_Accept` answers does not hang on the sockets that were there before.
Answered-of_pcb :
    (p a client x y r : ℕ) (w w₂ : World) (q : ℤ) (w' : World)
    → w₂.pcb ≡ w.pcb
    → Answered p a client x y r w₂ q w'
    → Answered p a client x y r w q w'
Answered-of_pcb p a client x y r w w₂ (negsuc n) w' e (k, h) = (k, h ∙ e)
Answered-of_pcb p a client x y r w w₂ (pos fid) w' e (new, connected, accepted) = (
  record {
    free = ap (λ (g : ℕ → Pcb). (g p).fidt fid) (sym e) ∙ new.free;
    in_range = new.in_range;
    fcb = new.fcb;
    stands_for = new.stands_for;
    streamobj = new.streamobj;
    streamfunc = new.streamfunc;
  },
  connected,
  accepted,
)

-- With the reference counts right, an Accept by a process of the table, on a listener with a request
-- on its queue, does not sleep, and takes the request off the queue. The new socket and its two pipes
-- come to addresses of their own. It leaves the reference counts right. If it returns a file id, that
-- was free, and stands for the stream of the new socket; this socket and the client's are connected,
-- each receiving what the other sends, and the request is accepted. Else it returns -1, and no fileid
-- table has changed.
pub sys_accept_lem :
    (c : Cpu) (lsock : ℤ) (l client r a x y : ℕ) (rs : List ℕ) (scb : Scb) (cv : CondVar)
    {w : World}
    → Refs.IsValid w
    → curproc c w < max_proc
    → (h : Pending c lsock l client r rs scb cv w) → a ≢ client
    → a ≢ l
    → x ≢ y
    → (q : ℤ) × (w' : World) × (sys_accept c lsock a x y w ≡ returned q w')
      × Refs.IsValid w'
      × Answered (curproc c w) a client x y r w q w'
      × (w'.scbs l ≡ some (record scb { socket = as_listener cv rs }))
sys_accept_lem c lsock l client r a x y rs scb cv {w} v p h ne nl ne' =
    let w₁ = set_queue l scb cv rs w in
    let t : Scb = record h.peer { refcount = 1 } in
    let w₂ = set_scb client (some t) w₁ in
    let v₂ = IsValid-same w w₂ refl (λ f. refl) refl v in
    let (q, w', e, valid, answered, others) =
      accept_client_lem c scb.port client r a x y t h.req {w = w₂} v₂ p ne ne'
        (update_self w₁.scbs client (some t)) h.alone h.requests h.sched h.can_wake in
    (
      q,
      w',
      sys_accept_of c lsock l client r a x y rs scb cv w h ∙ e,
      valid,
      Answered-of_pcb (curproc c w) a client x y r w w₂ q w' refl answered,
      others l (λ k. nl (sym k)) h.other
          ∙ update_ne w₁.scbs client l (some t) h.other
          ∙ update_self w.scbs l (some (record scb { socket = as_listener cv rs })),
    )
