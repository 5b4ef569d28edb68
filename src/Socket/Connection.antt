-- ===== src/Socket/Connection.antt =====
-- kernel_socket.c: two connected sockets, what Accept makes of them, and what one sends the other.
use disasteros.Common.{
  ℕ, ◌-◌, ◌<◌, ◌≡◌, refl, ◌∙◌, ap, subst, false, Option, some, List, ◌++◌, length, take,
  length-append, arith,
}
use disasteros.Common.Int.{pos}
use disasteros.World.{Pipe, World, SocketType, as_peer, Scb, returned, Cpu}
use disasteros.Pipe.Ring.{buff_size}
use disasteros.Pipe.Window.{bytes_of, length-bytes_of}
use disasteros.Pipe.Fifo.{contents, moved}
use disasteros.Pipe.Ends.{pipe_read, pipe_write}
use disasteros.Pipe.Calls.{Ready, pipe_read_data, pipe_write_space}
use disasteros.Socket.{socket_read, socket_write}

-- The SCB at `a` is a peer of the socket at `b`, sends into `send` and receives from `receive`.
pub record IsPeer (a b send receive : ℕ) (w : World) : Type 0 where
  pub scb : Scb
  pub at : w.scbs a ≡ some scb
  pub type : scb.type ≡ SocketType.peer
  pub socket : scb.socket ≡ as_peer (some b) (some send) (some receive)

-- Two sockets that are each other's peers, with their pipes crossed: `x` runs from `b` to `a`, and
-- `y` from `a` to `b`.
abbrev pub Connected : (a b x y : ℕ) → World → Type 0
Connected a b x y w = IsPeer a b y x w × IsPeer b a x y w

IsPeer-same :
    (a b send receive : ℕ) (w w' : World)
    → w'.scbs ≡ w.scbs
    → IsPeer a b send receive w
    → IsPeer a b send receive w'
IsPeer-same a b send receive w w' e h = record {
  scb = h.scb;
  at = ap (λ (t : ℕ → Option Scb). t a) e ∙ h.at;
  type = h.type;
  socket = h.socket;
}

module _ {a b send receive : ℕ} {w : World} (c : Cpu) (h : IsPeer a b send receive w) where
  socket_write_of :
      (buf : ℕ → ℕ) (size : ℕ) → socket_write c a buf size w ≡ pipe_write c send buf size w
  unfolding socket_write
  socket_write_of buf size = rw h.at (rw (h.type, h.socket) refl)

  socket_read_of : (size : ℕ) → socket_read c a size w ≡ pipe_read c receive size w
  unfolding socket_read
  socket_read_of size = rw h.at (rw (h.type, h.socket) refl)

-- What one socket sends the other receives: of two connected sockets, with room in the pipe from the
-- first to the second and a kernel that can wake its waiters, `socket_write` on the first returns a
-- positive count `n`; the sockets stay connected; and then `socket_read` on the second does not wait,
-- and returns the oldest of the bytes that were in the pipe and, behind them, the `n` bytes of the
-- writer, in order.
pub socket_write-socket_read :
    (c d : Cpu) (a b x y : ℕ) (p : Pipe) {w : World} (buf : ℕ → ℕ) (size wanted : ℕ)
    → Connected a b x y w
    → Ready y p w
    → p.reader_closed ≡ false
    → length (contents p) < buff_size
    → let n = moved size (buff_size - length (contents p)) in
      let stream = contents p ++ bytes_of buf 0 n in
      let m = moved wanted (length stream) in
      (w₁ w₂ : World) × (socket_write c a buf size w ≡ returned (pos n) w₁)
      × (0 < n)
      × Connected a b x y w₁
      × (socket_read d b wanted w₁ ≡ returned (pos m, take m stream) w₂)
      × (0 < m)
socket_write-socket_read c d a b x y p {w} buf size wanted (pa, pb) ready opened room =
    let (w₁, q, e, n, grown, ready', stored) = pipe_write_space c ready buf size opened room in
    let some_bytes : 0 < length (contents q) = omega (
      arith,
      ap length grown,
      length-append (contents p) (bytes_of buf 0 (moved size (buff_size - length (contents p)))),
      length-bytes_of buf 0 (moved size (buff_size - length (contents p))),
    ) in
    let (w₂, _, f, m, _, _, _) = pipe_read_data d ready' wanted some_bytes in
    let pa' = IsPeer-same a b y x w w₁ stored.sockets pa in
    let pb' = IsPeer-same b a x y w w₁ stored.sockets pb in
    (
      w₁,
      w₂,
      socket_write_of c pa buf size ∙ e,
      n,
      (pa', pb'),
      subst
          (λ (l : List ℕ).
            socket_read d b wanted w₁
            ≡ returned (pos (moved wanted (length l)), take (moved wanted (length l)) l) w₂)
          grown (socket_read_of d pb' wanted ∙ f),
      subst (λ (l : List ℕ). 0 < moved wanted (length l)) grown m,
    )
