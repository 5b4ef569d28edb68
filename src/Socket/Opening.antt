-- ===== src/Socket/Opening.antt =====
-- kernel_socket.c: the reference counts under Socket, and the new socket.
use disasteros.Common.{
  ℕ, ◌≡◌, ◌<◌, refl, Option, none, some, List, [], ◌∷◌, inl, inr, Bool-cases, arith,
}
use disasteros.Common.Int.{ℤ, pos, negsuc}
use disasteros.World.{World, SocketType, as_peer, Scb, socket_ops, Cpu, curproc, max_proc}
use disasteros.Streams.Table.{fcb_reserve}
use disasteros.Streams.Refs.{IsValid}
use disasteros.Streams.Reserve.{Reserved, fcb_reserve_lem}
use disasteros.Streams.Open.{IsValid-same, attach-IsValid, NewStream, attach-NewStream}
use disasteros.Socket.{set_scb}
use disasteros.Socket.Calls.{new_scb, finish_socket, sys_socket, is_port}

-- A socket that is neither listening nor connected, with its port, and with its file id if it may
-- listen.
pub record Unbound (port : ℤ) (fid : ℕ) (scb : Scb) : Type 0 where
  pub bound_to : pos scb.port ≡ port
  pub type : scb.type ≡ SocketType.unbound
  pub socket : scb.socket ≡ as_peer none none none
  pub refcount : scb.refcount ≡ 0
  pub own_fid : 0 < scb.port → scb.fid ≡ fid

-- What `sys_Socket` answers.
abbrev pub Made : (p : ℕ) (port : ℤ) (a : ℕ) → World → Option ℕ × World → Type 0
Made p port a w (none, w') = w'.pcb ≡ w.pcb
Made p port a w (some fid, w') =
    NewStream p fid a socket_ops w w'
    × ((scb : Scb) × (w'.scbs a ≡ some scb) × Unbound port fid scb)

finish_socket_lem :
    (p n a : ℕ) (o : Option (List ℕ × List ℕ)) (w w₁ : World)
    → IsValid w₁
    → Reserved p 1 w (o, w₁)
    → IsValid (finish_socket n a o w₁).1 × Made p (pos n) a w (finish_socket n a o w₁)
unfolding finish_socket new_scb
finish_socket_lem p n a none w w₁ v r = (v, r.0)
finish_socket_lem p n a (some ([], fcbs)) w w₁ v r = absurd (omega (arith, r.0))
finish_socket_lem p n a (some (i ∷ is, [])) w w₁ v r = absurd (omega (arith, r.1))
finish_socket_lem p n a (some (i ∷ is, f ∷ fs)) w w₁ v r =
    let w₂ = set_scb a (some (new_scb n i)) w₁ in
    (
      attach-IsValid f a socket_ops w₂ (IsValid-same w₁ w₂ refl (λ g. refl) refl v),
      (
        attach-NewStream p i f a socket_ops w w₂ r.2.2 r.2.1 r.4.0,
        (
          new_scb n i,
          ground arith,
          record {
            bound_to = refl;
            type = refl;
            socket = refl;
            refcount = refl;
            own_fid = λ l. ground (arith, l);
          },
        ),
      ),
    )

-- With the reference counts right, and a calling process of the table, `sys_Socket` leaves them right,
-- whatever the port. If it returns a file id, that was free, and stands for an FCB of the new socket,
-- which is unbound, with its port; if it fails, no fileid table has changed.
pub sys_socket_lem :
    (c : Cpu) (port : ℤ) (a : ℕ) {w : World}
    → IsValid w
    → curproc c w < max_proc
    → IsValid (sys_socket c port a w).1 × Made (curproc c w) port a w (sys_socket c port a w)
unfolding sys_socket
sys_socket_lem c (negsuc n) a {w} v h = (v, refl)
sys_socket_lem c (pos port) a {w} v h = elim (Bool-cases (is_port (pos port))) [
  | inr n ↦ rw n (v, refl)
  | inl y ↦
      let (valid, r) = fcb_reserve_lem (curproc c w) 1 v h in
      let (o, w₁) = fcb_reserve (curproc c w) 1 w in
      rw y (finish_socket_lem (curproc c w) port a o w w₁ valid r)
]
