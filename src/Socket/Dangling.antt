-- ===== src/Socket/Dangling.antt =====
-- kernel_socket.c: what is left of a connection when one of its ends is closed.
use disasteros.Common.{
  ℕ, ◌<◌, ◌≡◌, ◌≢◌, refl, ◌∙◌, ap, Option, none, some, ◌==◌, leb, if◌then◌else◌, arith,
}
use disasteros.Common.Int.{pos, minus_one}
use disasteros.World.{
  World, SocketType, as_peer, Scb, socket_ops, returned, fault, or_fault, and_then, Cpu, curproc,
}
use disasteros.Streams.Table.{drop_ref, release_fcb, set_fidt, get_fcb}
use disasteros.Streams.Calls.{close_stream, fcb_decref, sys_close, is_fid}
use disasteros.Socket.{
  set_scb, set_receive, shut_fcb, sys_shut_down, close_peer, close_type, socket_close,
}
use disasteros.Socket.Establish.{peer_of_of, set_receive_of}

-- The file id `i` of the process that runs is the only one for the FCB `f` of the socket at `a`, which
-- was made with a port and whose other end is at `b`.
pub record LastPeer (c : Cpu) (i f a b : ℕ) (w : World) : Type 0 where
  pub scb : Scb
  pub send : Option ℕ
  pub receive : Option ℕ
  pub at : w.scbs a ≡ some scb
  pub type : scb.type ≡ SocketType.peer
  pub socket : scb.socket ≡ as_peer (some b) send receive
  pub fid : scb.fid ≡ i
  pub connections : scb.refcount ≡ 1
  pub in_range : i < 16
  pub stands_for : (w.pcb (curproc c w)).fidt i ≡ some f
  pub once : (w.fcb f).refcount ≡ 1
  pub streamobj : (w.fcb f).streamobj ≡ a
  pub streamfunc : (w.fcb f).streamfunc ≡ socket_ops

-- The close of a peer whose file id stands for nothing any more.
close_peer_of :
    (c : Cpu) (a b : ℕ) (s : Scb) (send receive : Option ℕ) (w : World)
    → w.scbs a ≡ some s
    → s.socket ≡ as_peer (some b) send receive
    → get_fcb c (pos s.fid) w ≡ none
    → close_peer c a s w
      ≡ or_fault (set_receive b none w) (λ w₂. returned (pos 0) (set_scb a none w₂))
unfolding close_peer sys_shut_down shut_fcb
close_peer_of c a b s send receive w e u g =
    rw g (rw (peer_of_of a w s (some b) send receive none e u) refl)

socket_close_of :
    (c : Cpu) (a b : ℕ) (s : Scb) (send receive : Option ℕ) (w : World)
    → w.scbs a ≡ some s
    → s.type ≡ SocketType.peer
    → s.refcount ≡ 1
    → s.socket ≡ as_peer (some b) send receive
    → get_fcb c (pos s.fid) w ≡ none
    → socket_close c a w
      ≡ or_fault (set_receive b none w) (λ w₂. returned (pos 0) (set_scb a none w₂))
unfolding socket_close close_type
socket_close_of c a b s send receive w e t n u g = rw e (
    ap (λ k. if leb k 1 then close_type c a s.type s w else returned minus_one w) n
    ∙ ap (λ k. close_type c a k s w) t
    ∙ close_peer_of c a b s send receive w e u g)

-- The world in which the `Close` of the stream runs.
abbrev dropped : Cpu → (i f : ℕ) → World → World
dropped c i f w = drop_ref f (set_fidt (curproc c w) i none w)

-- The last reference to a socket is dropped.
decref_socket :
    (c : Cpu) (f a : ℕ) (w : World)
    → (w.fcb f).refcount ≡ 1
    → (w.fcb f).streamobj ≡ a
    → (w.fcb f).streamfunc ≡ socket_ops
    → fcb_decref c f w
      ≡ and_then (socket_close c a (drop_ref f w)) (λ r w'. returned r (release_fcb f w'))
unfolding fcb_decref drop_ref close_stream
decref_socket c f a w n o s =
    let u = drop_ref f w in
    let zero : (u.fcb f).refcount ≡ 0 = ground arith in
    let obj : (u.fcb f).streamobj ≡ a = ground arith in
    let func : (u.fcb f).streamfunc ≡ socket_ops = ground arith in
    ap
      (λ k.
        if k == 0
        then and_then (close_stream c (u.fcb f).streamfunc (u.fcb f).streamobj u)
            (λ r w'. returned r (release_fcb f w'))
        else returned (pos 0) u)
      zero
    ∙ ap
        (λ k.
          and_then (close_stream c k (u.fcb f).streamobj u) (λ r w'. returned r (release_fcb f w')))
        func
    ∙ ap (λ k. and_then (socket_close c k u) (λ r w'. returned r (release_fcb f w'))) obj

sys_close_of :
    (c : Cpu) (i f a b : ℕ) (w : World)
    → LastPeer c i f a b w
    → sys_close c (pos i) w
      ≡ and_then
          (or_fault
            (set_receive b none (dropped c i f w))
            (λ w₂. returned (pos 0) (set_scb a none w₂)))
          (λ r w'. returned r (release_fcb f w'))
unfolding sys_close get_fcb drop_ref
sys_close_of c i f a b w h =
    let found : get_fcb c (pos i) w ≡ some f = ground (arith, h.in_range, h.stands_for) in
    let u = dropped c i f w in
    let gone : get_fcb c (pos h.scb.fid) u ≡ none = ground (arith, h.fid, h.in_range) in
    ap
      (λ (o : Option ℕ). elim o [
        | none ↦ returned (if is_fid (pos i) then pos 0 else minus_one) w
        | some f ↦ fcb_decref c f (set_fidt (curproc c w) i none w)
      ])
      found
    ∙ decref_socket c f a (set_fidt (curproc c w) i none w) h.once h.streamobj h.streamfunc
    ∙ ap (λ o. and_then o (λ r w'. returned r (release_fcb f w')))
        (socket_close_of c a b h.scb h.send h.receive u h.at h.type h.connections h.socket gone)

set_receive_freed : (a : ℕ) (p : Option ℕ) (w : World) → w.scbs a ≡ none → set_receive a p w ≡ none
unfolding set_receive
set_receive_freed a p w e = rw e refl

-- When the two ends of a connection are closed one after the other, each by the last file id of its
-- socket and both made with a port, the first `Close` returns 0; but it shuts nothing down: neither a
-- pipe nor a thread that waits on one has changed. The second `Close` is an access to the freed
-- control block of the first socket.
pub close_twice :
    (c d : Cpu) (i j f g a b : ℕ) {w : World}
    → LastPeer c i f a b w
    → LastPeer d j g b a w
    → a ≢ b
    → f ≢ g
    → (w' : World) × (sys_close c (pos i) w ≡ returned (pos 0) w')
      × (w'.pipes ≡ w.pipes)
      × (w'.kernel ≡ w.kernel)
      × (sys_close d (pos j) w' ≡ fault)
unfolding drop_ref
close_twice c d i j f g a b {w} h k ne ne' =
    let u = dropped c i f w in
    let t : Scb = record k.scb { socket = as_peer (some a) k.send none } in
    let w₂ = set_scb a none (set_scb b (some t) u) in
    let w' = release_fcb f w₂ in
    let first : set_receive b none u ≡ some (set_scb b (some t) u) =
      set_receive_of b u k.scb (some a) k.send k.receive none k.at k.socket in
    let k' : LastPeer d j g b a w' = record {
      scb = t;
      send = k.send;
      receive = none;
      at = ground arith;
      type = k.type;
      socket = refl;
      fid = k.fid;
      connections = k.connections;
      in_range = k.in_range;
      stands_for = ground (arith, k.stands_for, h.stands_for, ne');
      once = ground (arith, k.once);
      streamobj = ground (arith, k.streamobj);
      streamfunc = ground (arith, k.streamfunc);
    } in
    let freed : (dropped d j g w').scbs a ≡ none = ground arith in
    (
      w',
      sys_close_of c i f a b w h ∙ rw first refl,
      refl,
      refl,
      sys_close_of d j g b a w' k' ∙ rw (set_receive_freed a none (dropped d j g w') freed) refl,
    )
