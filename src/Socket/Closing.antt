-- ===== src/Socket/Closing.antt =====
-- kernel_socket.c: shutting a connection down, and closing a connected socket.
use disasteros.Common.{ℕ, ◌≡◌, ◌≢◌, refl, ◌∙◌, ap, false, Option, none, some, [], arith}
use disasteros.Common.Int.{pos, minus_one}
use disasteros.World.{Pipe, World, SocketType, as_peer, Scb, returned, Cpu}
use disasteros.Pipe.Calls.{Ready}
use disasteros.Pipe.Closing.{reader_close_frees}
use disasteros.Socket.{
  set_scb, shut_receive, shut_reading, shut_writing, shut_both, shut_down, shutdown_read,
  socket_read, socket_write,
}
use disasteros.Socket.Connection.{Connected}
use disasteros.Socket.Establish.{set_send_of, set_receive_of}

shut_down_of :
    (a how : ℕ) (w : World) (s : Scb) (p q r : Option ℕ)
    → w.scbs a ≡ some s
    → s.type ≡ SocketType.peer
    → s.socket ≡ as_peer p q r
    → shut_down a how w ≡ shut_both a p r how w
unfolding shut_down
shut_down_of a how w s p q r e t u = rw e (rw (t, u) refl)

-- A peer without a pipe to send into, and one without a pipe to receive from.
write_without :
    (c : Cpu) (a : ℕ) (buf : ℕ → ℕ) (size : ℕ) (w : World) (s : Scb) (b r : Option ℕ)
    → w.scbs a ≡ some s
    → s.type ≡ SocketType.peer
    → s.socket ≡ as_peer b none r
    → socket_write c a buf size w ≡ returned minus_one w
unfolding socket_write
write_without c a buf size w s none r e t u = rw e (rw (t, u) refl)
write_without c a buf size w s (some b) r e t u = rw e (rw (t, u) refl)

read_without :
    (c : Cpu) (a size : ℕ) (w : World) (s : Scb) (b : ℕ) (p : Option ℕ)
    → w.scbs a ≡ some s
    → s.type ≡ SocketType.peer
    → s.socket ≡ as_peer (some b) p none
    → socket_read c a size w ≡ returned (pos 0, []) w
unfolding socket_read
read_without c a size w s b p e t u = rw e (rw (t, u) refl)

-- `ShutDown` of the read direction of one of two connected sockets, whose pipe is open and whose
-- waiters the kernel can wake, returns 0 and frees the pipe. From then on every write on the other
-- socket returns -1, and every read on this one 0, the end of the file.
pub shut_down_read :
    (a b x y : ℕ) (p : Pipe) {w : World}
    → a ≢ b
    → Connected a b x y w
    → Ready x p w
    → p.reader_closed ≡ false
    → (w' : World) × (shut_down a shutdown_read w ≡ returned (pos 0) w')
      × (w'.pipes x ≡ none)
      × ((c : Cpu) (buf : ℕ → ℕ) (size : ℕ) → socket_write c b buf size w' ≡ returned minus_one w')
      × ((c : Cpu) (size : ℕ) → socket_read c a size w' ≡ returned (pos 0, []) w')
unfolding shut_both shut_reading shut_receive shut_writing
shut_down_read a b x y p {w} ne (pa, pb) ready opened =
    let (w₁, e, freed) = reader_close_frees ready opened in
    let ea : w₁.scbs a ≡ some pa.scb = ap (λ (t : ℕ → Option Scb). t a) freed.sockets ∙ pa.at in
    let eb : w₁.scbs b ≡ some pb.scb = ap (λ (t : ℕ → Option Scb). t b) freed.sockets ∙ pb.at in
    let sa : Scb = record pa.scb { socket = as_peer (some b) (some y) none } in
    let sb : Scb = record pb.scb { socket = as_peer (some a) none (some y) } in
    let w₂ = set_scb a (some sa) w₁ in
    let w₃ = set_scb b (some sb) w₂ in
    let eb₂ : w₂.scbs b ≡ some pb.scb = ground (arith, eb) in
    let ea₃ : w₃.scbs a ≡ some sa = ground arith in
    let eb₃ : w₃.scbs b ≡ some sb = ground arith in
    (
      w₃,
      shut_down_of a shutdown_read w pa.scb (some b) (some y) (some x) pa.at pa.type pa.socket
          ∙ rw e (
              rw (set_receive_of a w₁ pa.scb (some b) (some y) (some x) none ea pa.socket)
                (rw (set_send_of b w₂ pb.scb (some a) (some x) (some y) none eb₂ pb.socket) refl)),
      freed.gone,
      λ c buf size. write_without c b buf size w₃ sb (some a) (some y) eb₃ pb.type refl,
      λ c size. read_without c a size w₃ sa b (some y) ea₃ pa.type refl,
    )
