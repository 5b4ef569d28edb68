-- ===== src/Socket/Answer.antt =====
-- kernel_socket.c: the server's socket that Accept makes, and its answer to the client.
use disasteros.Common.{
  ℕ, ◌≡◌, ◌≢◌, ◌<◌, refl, sym, ◌∙◌, ap, subst, true, Option, none, some, List, [], ◌∷◌, inl, inr,
  Bool-cases, update, arith, All,
}
use disasteros.Common.Int.{ℤ, pos, negsuc, minus_one}
use disasteros.Sched.Valid
use disasteros.Cc.CondVar.{Kernel}
use disasteros.Cc.Signal.{CanWait, cv_signal-Signalled}
use disasteros.World.{
  World, as_peer, Scb, ConnReq, socket_ops, Fcb, Pcb, returned, Cpu, curproc, max_proc,
}
use disasteros.Streams.Table.{get_fcb, fcb_reserve}
use disasteros.Streams.Refs
use disasteros.Streams.Open.{IsValid-same, NewStream}
use disasteros.Streams.Rest.{fcb_reserve-SameRest}
use disasteros.Socket.Calls.{
  new_scb, finish_socket, sys_socket, is_port, port_of, answer_client, accept_client,
}
use disasteros.Socket.Connection.{Connected}
use disasteros.Socket.Establish.{establish_lem, signal_request_of}
use disasteros.Socket.Opening.{Made, sys_socket_lem}

-- What `sys_Socket` leaves alone.
record Beside (a : ℕ) (w w' : World) : Type 0 where
  kernel : w'.kernel ≡ w.kernel
  requests : w'.requests ≡ w.requests
  scbs : (j : ℕ) → j ≢ a → w'.scbs j ≡ w.scbs j

finish_socket-Beside :
    (port a : ℕ) (o : Option (List ℕ × List ℕ)) (w : World)
    → Beside a w (finish_socket port a o w).1
unfolding finish_socket
finish_socket-Beside port a none w = record { kernel = refl; requests = refl; scbs = λ j h. refl }
finish_socket-Beside port a (some ([], fcbs)) w = record {
  kernel = refl;
  requests = refl;
  scbs = λ j h. refl;
}
finish_socket-Beside port a (some (i ∷ is, [])) w = record {
  kernel = refl;
  requests = refl;
  scbs = λ j h. refl;
}
finish_socket-Beside port a (some (i ∷ is, f ∷ fs)) w = record {
  kernel = refl;
  requests = refl;
  scbs = λ j h. ground arith;
}

sys_socket-Beside : (c : Cpu) (port : ℤ) (a : ℕ) (w : World) → Beside a w (sys_socket c port a w).1
unfolding sys_socket
sys_socket-Beside c port a w = elim (Bool-cases (is_port port)) [
  | inr e ↦ rw e (record { kernel = refl; requests = refl; scbs = λ j h. refl })
  | inl e ↦
      let r = fcb_reserve-SameRest (curproc c w) 1 w in
      let (o, w₁) = fcb_reserve (curproc c w) 1 w in
      let b = finish_socket-Beside (port_of port) a o w₁ in
      rw e (record {
        kernel = b.kernel ∙ r.kernel;
        requests = b.requests ∙ r.requests;
        scbs = λ j h. b.scbs j h ∙ ap (λ (t : ℕ → Option Scb). t j) r.scbs;
      })
]

-- What `sys_Accept` answers: the file id of the server's socket, or NOFILE.
abbrev pub Answered : (p a client x y r : ℕ) (w : World) → ℤ → World → Type 0
Answered p a client x y r w (pos fid) w' =
    NewStream p fid a socket_ops w w'
    × Connected a client x y w'
    × ((req : ConnReq) × (w'.requests r ≡ some req) × (req.accepted ≡ true))
Answered p a client x y r w (negsuc n) w' = (n ≡ 0) × (w'.pcb ≡ w.pcb)

answer_client_lem :
    (c : Cpu) (port client r a x y : ℕ) (t : Scb) (req : ConnReq) (o : Option ℕ) {w w₁ : World}
    → a ≢ client
    → x ≢ y
    → w.scbs client ≡ some t
    → t.socket ≡ as_peer none none none
    → w.requests r ≡ some req
    → Valid.IsValid w.kernel.sched
    → All (CanWait w.kernel.sched) req.conn_cv
    → Beside a w w₁
    → Refs.IsValid w₁
    → Made (curproc c w) (pos port) a w (o, w₁)
    → (q : ℤ) × (w' : World) × (answer_client c client r x y o w₁ ≡ returned q w')
      × Refs.IsValid w'
      × Answered (curproc c w) a client x y r w q w'
      × ((j : ℕ) → j ≢ a → j ≢ client → w'.scbs j ≡ w.scbs j)
unfolding answer_client get_fcb new_scb
answer_client_lem c port client r a x y t req none {w} {w₁} ne ne' et ut er sv can b v made =
    let sv₁ = subst (λ (k : Kernel). Valid.IsValid k.sched) (sym b.kernel) sv in
    let can₁ = subst (λ (k : Kernel). All (CanWait k.sched) req.conn_cv) (sym b.kernel) can in
    let (cv, k, e, _) = cv_signal-Signalled req.conn_cv w₁.kernel sv₁ can₁ in
    let at = ap (λ (f : ℕ → Option ConnReq). f r) b.requests ∙ er in
    let w' = record w₁ {
      kernel = k;
      requests = update w₁.requests r (some (record req { conn_cv = cv }));
    } in
    (
      minus_one,
      w',
      rw (signal_request_of r w₁ req cv k at e) refl,
      IsValid-same w₁ w' refl (λ f. refl) refl v,
      (refl, made),
      λ j na nc. b.scbs j na,
    )
answer_client_lem c port client r a x y t req (some fid) {w} {w₁} ne ne' et ut er sv can b v
      (new, (scb, ea, unbound)) =
    let sv₁ = subst (λ (k : Kernel). Valid.IsValid k.sched) (sym b.kernel) sv in
    let can₁ = subst (λ (k : Kernel). All (CanWait k.sched) req.conn_cv) (sym b.kernel) can in
    let at = ap (λ (f : ℕ → Option ConnReq). f r) b.requests ∙ er in
    let cp : curproc c w₁ ≡ curproc c w =
      ap (λ (k : Kernel). (k.sched.tcb (k.sched.current_thread c.core)).owner_pcb) b.kernel in
    let found : get_fcb c (pos fid) w₁ ≡ some new.fcb =
      ground (arith, cp, new.in_range, ap (λ (p : ℕ). (w₁.pcb p).fidt fid) cp, new.stands_for) in
    let (w', e, est) =
      establish_lem a client x y r scb t req {w = w₁} ne ne' ea
        (b.scbs client (λ q. ne (sym q)) ∙ et) unbound.socket ut at sv₁ can₁ in
    (
      pos fid,
      w',
      rw found (rw new.streamobj (rw e refl)),
      IsValid-same w₁ w' est.pcb (λ f. ap (λ (g : ℕ → Fcb). (g f).refcount) est.fcb)
          est.fcb_freelist v,
      (
        record {
          free = new.free;
          in_range = new.in_range;
          fcb = new.fcb;
          stands_for = ap (λ (g : ℕ → Pcb). (g (curproc c w)).fidt fid) est.pcb ∙ new.stands_for;
          streamobj = ap (λ (g : ℕ → Fcb). (g new.fcb).streamobj) est.fcb ∙ new.streamobj;
          streamfunc = ap (λ (g : ℕ → Fcb). (g new.fcb).streamfunc) est.fcb ∙ new.streamfunc;
        },
        est.connected,
        est.accepted,
      ),
      λ j na nc. est.others j na nc ∙ b.scbs j na,
    )

pub accept_client_lem :
    (c : Cpu) (port client r a x y : ℕ) (t : Scb) (req : ConnReq) {w : World}
    → Refs.IsValid w
    → curproc c w < max_proc
    → a ≢ client
    → x ≢ y
    → w.scbs client ≡ some t
    → t.socket ≡ as_peer none none none
    → w.requests r ≡ some req
    → Valid.IsValid w.kernel.sched
    → All (CanWait w.kernel.sched) req.conn_cv
    → (q : ℤ) × (w' : World) × (accept_client c port client r a x y w ≡ returned q w')
      × Refs.IsValid w'
      × Answered (curproc c w) a client x y r w q w'
      × ((j : ℕ) → j ≢ a → j ≢ client → w'.scbs j ≡ w.scbs j)
unfolding accept_client
accept_client_lem c port client r a x y t req {w} v h ne ne' et ut er sv can =
    let (valid, made) = sys_socket_lem c (pos port) a v h in
    let b = sys_socket-Beside c (pos port) a w in
    let (o, w₁) = sys_socket c (pos port) a w in
    answer_client_lem c port client r a x y t req o {w = w} {w₁ = w₁} ne ne' et ut er sv can b valid
      made
