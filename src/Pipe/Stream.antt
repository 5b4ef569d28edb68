-- ===== src/Pipe/Stream.antt =====
-- A pipe over time: any sequence of reads and writes.
use disasteros.Common.{
  ℕ, ◌≡◌, refl, ap, ap₂, ◌∙◌, sym, List, [], ◌++◌, append_assoc, append-nil, length,
  take-append_drop,
}
use disasteros.World.{Pipe}
use disasteros.Pipe.Ring.{take_bytes, put_bytes}
use disasteros.Pipe.Window.{bytes_of}
use disasteros.Pipe.Fifo.{IsValid, contents, moved, take_bytes_lem, put_bytes_lem}

-- What may happen to a pipe, with the bytes that a writer put in and those that a reader took out.
-- The flags, the waiters and the back pointer may change at any time.
pub data PipeStep (p : Pipe) : (written taken : List ℕ) → Pipe → Type 0 where
  reads : (size : ℕ) → PipeStep p [] (take_bytes size p).0 (take_bytes size p).2
  writes :
      (buf : ℕ → ℕ) (size : ℕ)
      → PipeStep p (bytes_of buf 0 (put_bytes buf size p).0) [] (put_bytes buf size p).1
  other :
      {q : Pipe}
      → q.buffer ≡ p.buffer
      → q.write_p ≡ p.write_p
      → q.read_p ≡ p.read_p
      → q.available_space ≡ p.available_space
      → PipeStep p [] [] q

pub data PipeRun (p : Pipe) : (written taken : List ℕ) → Pipe → Type 0 where
  here : PipeRun p [] [] p
  next :
      {ws rs a b : List ℕ} {q r : Pipe}
      → PipeRun p ws rs q
      → PipeStep q a b r
      → PipeRun p (ws ++ a) (rs ++ b) r

PipeStep-fifo :
    {p q : Pipe} {a b : List ℕ}
    → IsValid p
    → PipeStep p a b q
    → IsValid q × (contents p ++ a ≡ b ++ contents q)
PipeStep-fifo {p} v (reads size) =
    let (n, bytes, rest, v') = take_bytes_lem size v in
    let m = moved size (length (contents p)) in
    (
      v',
      append-nil (contents p)
          ∙ sym (take-append_drop m (contents p))
          ∙ ap₂ ◌++◌ (sym bytes) (sym rest),
    )
PipeStep-fifo {p} v (writes buf size) =
    let (n, rest, v') = put_bytes_lem buf size v in
    (v', ap (λ k. contents p ++ bytes_of buf 0 k) n ∙ sym rest)
PipeStep-fifo v (other e f g h) = (
  record { space = rw h v.space; read_in = rw g v.read_in; write_at = rw (f, g, h) v.write_at },
  append-nil _ ∙ rw (e, g, h) refl,
)

-- However reads and writes interleave, a pipe is first in, first out, and loses nothing: the bytes it
-- held at the start, followed by all that was written, are all that was read, followed by the bytes
-- it holds at the end.
pub PipeRun-fifo :
    {p q : Pipe} {ws rs : List ℕ}
    → IsValid p
    → PipeRun p ws rs q
    → IsValid q × (contents p ++ ws ≡ rs ++ contents q)
PipeRun-fifo {p} v here = (v, append-nil (contents p))
PipeRun-fifo {p} v (next {ws} {rs} {a} {b} {q} {r} run step) =
    let (v₁, e) = PipeRun-fifo v run in
    let (v₂, f) = PipeStep-fifo v₁ step in
    (
      v₂,
      sym (append_assoc (contents p) ws a)
          ∙ ap (λ l. l ++ a) e
          ∙ append_assoc rs (contents q) a
          ∙ ap (◌++◌ rs) f
          ∙ sym (append_assoc rs b (contents r)),
    )
