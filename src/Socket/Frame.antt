-- ===== src/Socket/Frame.antt =====
-- What closing a socket leaves alone: the FCB table and the fileid tables.
use disasteros.Common.{
  ℕ, ◌≡◌, refl, inl, inr, Option, subst, >>=-eq-some, none, some, ◌==◌, ◌||◌, arith, leb,
  Bool-cases,
}
use disasteros.Common.Int.{ℤ, pos}
use disasteros.World.{World, SocketUnion, as_listener, as_peer, SocketType, Scb, returned, Cpu}
use disasteros.Sched.Thread.{user}
use disasteros.Sched.Switch.{yield}
use disasteros.Cc.CondVar.{cond_broadcast}
use disasteros.Pipe.Ends.{reader_close, writer_close}
use disasteros.Streams.Table.{get_fcb}
use disasteros.Streams.Frame.{
  SameTables, SameTables-refl, SameTables-trans, or_fault-returned, and_then-returned, else_of,
  then_of, reader_close-SameTables, writer_close-SameTables,
}
use disasteros.Socket.{
  set_scb, with_send, with_receive, peer_fields, shut_reading, shut_writing, shut_both, shut_fcb,
  close_type, set_send, set_receive, shut_receive, shut_send, shut_down, sys_shut_down,
  close_listener, close_peer, socket_close, is_peer, is_socket, peer_of, shutdown_read,
  shutdown_write, shutdown_both,
}

set_scb-SameTables : (a : ℕ) (s : Option Scb) (w : World) → SameTables w (set_scb a s w)
set_scb-SameTables a s w = record {
  fcb = refl;
  freelist = refl;
  pcb = refl;
  owners = record { current = λ core. refl; owner = λ u. refl };
}

set_send-SameTables :
    (a : ℕ) (p : Option ℕ) (w : World) {w' : World} → set_send a p w ≡ some w' → SameTables w w'
unfolding set_send
set_send-SameTables a p w e =
    let (scb, f, g) = >>=-eq-some (w.scbs a) _ e in
    let (u, h, k) = >>=-eq-some (with_send p scb.socket) _ g in
    subst (SameTables w) (ground arith) (set_scb-SameTables a (some (record scb { socket = u })) w)

set_receive-SameTables :
    (a : ℕ) (p : Option ℕ) (w : World) {w' : World} → set_receive a p w ≡ some w' → SameTables w w'
unfolding set_receive
set_receive-SameTables a p w e =
    let (scb, f, g) = >>=-eq-some (w.scbs a) _ e in
    let (u, h, k) = >>=-eq-some (with_receive p scb.socket) _ g in
    subst (SameTables w) (ground arith) (set_scb-SameTables a (some (record scb { socket = u })) w)

shut_receive-SameTables :
    (a b : ℕ) (r : Option ℕ) (w : World) {q : ℤ} {w' : World}
    → shut_receive a b r w ≡ returned q w'
    → SameTables w w'
unfolding shut_receive
shut_receive-SameTables a b none w e = SameTables-refl e
shut_receive-SameTables a b (some p) w e =
    let (_, w₁, f₁, e₁) = and_then-returned (reader_close p w) _ e in
    let (w₂, f₂, e₂) = or_fault-returned (set_receive a none w₁) _ e₁ in
    let (w₃, f₃, e₃) = or_fault-returned (set_send b none w₂) _ e₂ in
    SameTables-trans (reader_close-SameTables p w f₁) (
      SameTables-trans (set_receive-SameTables a none w₁ f₂)
        (SameTables-trans (set_send-SameTables b none w₂ f₃) (SameTables-refl e₃)))

shut_send-SameTables :
    (a : ℕ) (r : Option ℕ) (w : World) {q : ℤ} {w' : World}
    → shut_send a r w ≡ returned q w'
    → SameTables w w'
unfolding shut_send
shut_send-SameTables a none w e = SameTables-refl e
shut_send-SameTables a (some p) w e =
    let (_, w₁, f₁, e₁) = and_then-returned (writer_close p w) _ e in
    let (w₂, f₂, e₂) = or_fault-returned (set_send a none w₁) _ e₁ in
    SameTables-trans (writer_close-SameTables p w f₁)
      (SameTables-trans (set_send-SameTables a none w₁ f₂) (SameTables-refl e₂))

shut_reading-SameTables :
    (a b : ℕ) (r : Option ℕ) (how : ℕ) (w : World) {q : ℤ} {w' : World}
    → shut_reading a b r how w ≡ returned q w'
    → SameTables w w'
unfolding shut_reading
shut_reading-SameTables a b r how w e =
    let t = how == shutdown_read || how == shutdown_both in
    elim (Bool-cases t) [
      | inl h ↦ shut_receive-SameTables a b r w (then_of _ t h e)
      | inr h ↦ SameTables-refl (else_of _ t h e)
    ]

shut_writing-SameTables :
    (a how : ℕ) (w : World) {q : ℤ} {w' : World}
    → shut_writing a how w ≡ returned q w'
    → SameTables w w'
unfolding shut_writing
shut_writing-SameTables a how w e =
    let t = how == shutdown_write || how == shutdown_both in
    elim (Bool-cases t) [
      | inl h ↦
          let ((_, send, _), _, g) = or_fault-returned (peer_of a w) _ (then_of _ t h e) in
          shut_send-SameTables a send w g
      | inr h ↦ SameTables-refl (else_of _ t h e)
    ]

-- The end of `shut_down`, by the peer pointer.
shut_both-SameTables :
    (a : ℕ) (b : Option ℕ) (r : Option ℕ) (how : ℕ) (w : World) {q : ℤ} {w' : World}
    → shut_both a b r how w ≡ returned q w'
    → SameTables w w'
unfolding shut_both
shut_both-SameTables a none r how w e = SameTables-refl e
shut_both-SameTables a (some b) r how w e =
    let (_, w₁, f₁, e₁) = and_then-returned (shut_reading a b r how w) _ e in
    let (_, w₂, f₂, e₂) = and_then-returned (shut_writing a how w₁) _ e₁ in
    SameTables-trans (shut_reading-SameTables a b r how w f₁)
      (SameTables-trans (shut_writing-SameTables a how w₁ f₂) (SameTables-refl e₂))

pub shut_down-SameTables :
    (a how : ℕ) (w : World) {q : ℤ} {w' : World}
    → shut_down a how w ≡ returned q w'
    → SameTables w w'
unfolding shut_down
shut_down-SameTables a how w e =
    let (scb, _, f) = or_fault-returned (w.scbs a) _ e in
    elim (Bool-cases (is_peer scb.type)) [
      | inl h ↦
          let ((b, _, r), _, g) =
            or_fault-returned (peer_fields scb.socket) _ (then_of _ (is_peer scb.type) h f) in
          shut_both-SameTables a b r how w g
      | inr h ↦ SameTables-refl (else_of _ (is_peer scb.type) h f)
    ]

shut_fcb-SameTables :
    (o : Option ℕ) (how : ℕ) (w : World) {q : ℤ} {w' : World}
    → shut_fcb o how w ≡ returned q w'
    → SameTables w w'
unfolding shut_fcb
shut_fcb-SameTables none how w e = SameTables-refl e
shut_fcb-SameTables (some f) how w e =
    let t = is_socket (w.fcb f).streamfunc in
    elim (Bool-cases t) [
      | inl h ↦ shut_down-SameTables (w.fcb f).streamobj how w (then_of _ t h e)
      | inr h ↦ SameTables-refl (else_of _ t h e)
    ]

pub sys_shut_down-SameTables :
    (c : Cpu) (sock : ℤ) (how : ℕ) (w : World) {q : ℤ} {w' : World}
    → sys_shut_down c sock how w ≡ returned q w'
    → SameTables w w'
unfolding sys_shut_down
sys_shut_down-SameTables c sock how w e = elim (Bool-cases (how == 0)) [
  | inl h ↦ SameTables-refl (then_of _ (how == 0) h e)
  | inr h ↦ shut_fcb-SameTables (get_fcb c sock w) how w (else_of _ (how == 0) h e)
]

close_peer-SameTables :
    (c : Cpu) (a : ℕ) (s : Scb) (w : World) {q : ℤ} {w' : World}
    → close_peer c a s w ≡ returned q w'
    → SameTables w w'
unfolding close_peer
close_peer-SameTables c a s w e =
    let (_, w₁, f₁, e₁) = and_then-returned (sys_shut_down c (pos s.fid) shutdown_both w) _ e in
    let ((peer, _, _), _, e₂) = or_fault-returned (peer_of a w₁) _ e₁ in
    let (b, _, e₃) = or_fault-returned peer _ e₂ in
    let (w₂, f₂, e₄) = or_fault-returned (set_receive b none w₁) _ e₃ in
    SameTables-trans (sys_shut_down-SameTables c (pos s.fid) shutdown_both w f₁) (
      SameTables-trans (set_receive-SameTables b none w₁ f₂)
        (SameTables-trans (set_scb-SameTables a none w₂) (SameTables-refl e₄)))

-- The close of a listener does not return before its thread has run again.
close_listener-sleeps :
    (c : Cpu) (a : ℕ) (s : Scb) (u : SocketUnion) (w : World) {q : ℤ} {w' : World}
    → close_listener c a s u w ≡ returned q w'
    → ⊥
unfolding close_listener
close_listener-sleeps c a s (as_peer b send receive) w e = cc
close_listener-sleeps c a s (as_listener cv queue) w e =
    let ((cv', k), _, f) = or_fault-returned (cond_broadcast cv w.kernel) _ e in
    let ((_, s'), _, g) = or_fault-returned (yield c.core user c.curtime k.sched) _ f in cc

close_type-SameTables :
    (c : Cpu) (a : ℕ) (t : SocketType) (s : Scb) (w : World) {q : ℤ} {w' : World}
    → close_type c a t s w ≡ returned q w'
    → SameTables w w'
unfolding close_type
close_type-SameTables c a SocketType.listener s w e =
    absurd (close_listener-sleeps c a s s.socket w e)
close_type-SameTables c a SocketType.peer s w e = close_peer-SameTables c a s w e
close_type-SameTables c a SocketType.unbound s w e =
    SameTables-trans (set_scb-SameTables a none w) (SameTables-refl e)

pub socket_close-SameTables :
    (c : Cpu) (a : ℕ) (w : World) {q : ℤ} {w' : World}
    → socket_close c a w ≡ returned q w'
    → SameTables w w'
unfolding socket_close
socket_close-SameTables c a w e =
    let (s, _, f) = or_fault-returned (w.scbs a) _ e in
    elim (Bool-cases (leb s.refcount 1)) [
      | inl h ↦ close_type-SameTables c a s.type s w (then_of _ (leb s.refcount 1) h f)
      | inr h ↦ SameTables-refl (else_of _ (leb s.refcount 1) h f)
    ]
