-- ===== src/Pipe/Closing.antt =====
-- `reader_close` and `writer_close`, and what is left of the pipe.
use disasteros.Common.{
  ℕ, ◌≡◌, ◌≢◌, refl, ap, ◌∙◌, Bool, true, false, none, some, [], arith, if◌then◌else◌, All, All-map,
  Bool-cases, inl, inr,
}
use disasteros.Common.Int.{pos}
use disasteros.Cc.Signal.{IsAwake, Roused}
use disasteros.World.{Pipe, World, returned, fault, or_fault, and_then, Cpu}
use disasteros.Pipe.Ends.{
  set_pipe, broadcast_space, broadcast_data, pipe_write, writer_close, reader_close, write_resume,
}
use disasteros.Pipe.Calls.{Ready, Stored, broadcast_space-Stored, broadcast_data-Stored}

-- `writer_close` on a pipe whose writer is open marks the writer as closed and wakes every reader
-- that waits for data; the bytes stay.
pub writer_close_open :
    {a : ℕ} {p : Pipe} {w : World}
    → Ready a p w
    → p.writer_closed ≡ false
    → (w' : World) × (writer_close a w ≡ returned (pos 0) w')
      × Stored a (record p { writer_closed = true; has_data = [] }) p.has_data w w'
unfolding writer_close
writer_close_open {a} {p} {w} h e =
    let q : Pipe = record p { writer_closed = true } in
    let (w', b, s) = broadcast_data-Stored a q w h.sched h.readers in
    (
      w',
      rw h.at (
          ap
            (λ (c : Bool).
              if c then returned (pos 0) w else or_fault (broadcast_data a q w) (returned (pos 0)))
            e
          ∙ rw b refl),
      s,
    )

-- Closing a closed writer does nothing.
writer_close_closed :
    (a : ℕ) (p : Pipe) (w : World)
    → w.pipes a ≡ some p
    → p.writer_closed ≡ true
    → writer_close a w ≡ returned (pos 0) w
unfolding writer_close
writer_close_closed a p w at e = rw at (
    ap
      (λ (c : Bool).
        if c
        then returned (pos 0) w
        else or_fault (broadcast_data a (record p { writer_closed = true }) w) (returned (pos 0)))
      e)

-- What is left when the reader has closed.
pub record Freed (a : ℕ) (p : Pipe) (w w' : World) : Type 0 where
  pub gone : w'.pipes a ≡ none
  pub others : (b : ℕ) → b ≢ a → w'.pipes b ≡ w.pipes b
  pub sockets : w'.scbs ≡ w.scbs
  pub roused : Roused w.kernel.sched w'.kernel.sched
  pub writers_awake : All (IsAwake w'.kernel.sched) p.has_space

close_both :
    (a : ℕ) (p : Pipe) {w w₁ : World}
    → Ready a p w
    → Stored a (record p { reader_closed = true; has_space = [] }) p.has_space w w₁
    → (w₂ : World) × (writer_close a w₁ ≡ returned (pos 0) w₂)
      × Roused w₁.kernel.sched w₂.kernel.sched
      × ((b : ℕ) → b ≢ a → w₂.pipes b ≡ w₁.pipes b)
      × (w₂.scbs ≡ w₁.scbs)
close_both a p {w} {w₁} h s = elim (Bool-cases p.writer_closed) [
  | inl e ↦ (
    w₁,
    writer_close_closed a _ w₁ s.at e,
    record { valid = s.roused.valid; can_wait = λ u k. k; awake = λ u k. k },
    λ b k. refl,
    refl,
  )
  | inr e ↦
      let q : Pipe = record p { reader_closed = true; has_space = [] } in
      let ready : Ready a q w₁ = record {
        at = s.at;
        ring = record {
          space = h.ring.space;
          read_in = h.ring.read_in;
          write_at = h.ring.write_at;
        };
        sched = s.roused.valid;
        readers = All-map p.has_data s.roused.can_wait h.readers;
        writers = tt;
      } in
      let (w₂, f, t) = writer_close_open ready e in (w₂, f, t.roused, t.others, t.sockets)
]

-- `reader_close` on an open pipe frees it, whether or not its writer is still open. It first wakes
-- every writer that waits for space.
pub reader_close_frees :
    {a : ℕ} {p : Pipe} {w : World}
    → Ready a p w
    → p.reader_closed ≡ false
    → (w' : World) × (reader_close a w ≡ returned (pos 0) w') × Freed a p w w'
unfolding reader_close
reader_close_frees {a} {p} {w} h e =
    let q : Pipe = record p { reader_closed = true } in
    let (w₁, b, s) = broadcast_space-Stored a q w h.sched h.writers in
    let (w₂, f, r, o, k) = close_both a p h s in
    (
      set_pipe a none w₂,
      rw h.at (
          ap
            (λ (c : Bool).
              if c
              then returned (pos 0) w
              else or_fault (broadcast_space a q w)
                  λ w₃. and_then (writer_close a w₃) λ _ w₄. returned (pos 0) (set_pipe a none w₄))
            e
          ∙ rw (b, f) refl),
      record {
        gone = ground arith;
        others = λ u h'. ground (arith, o u, s.others u);
        sockets = k ∙ s.sockets;
        roused = record {
          valid = r.valid;
          can_wait = λ u k. r.can_wait u (s.roused.can_wait u k);
          awake = λ u k. r.awake u (s.roused.awake u k);
        };
        writers_awake = All-map p.has_space r.awake s.nobody_sleeps;
      },
    )

-- Every call on a pipe that has been freed is an access to freed memory: the writer's end does not
-- learn from a flag that the reader is gone.
dangling :
    (c : Cpu) (a size : ℕ) (buf : ℕ → ℕ) (w : World)
    → w.pipes a ≡ none
    → (pipe_write c a buf size w ≡ fault)
      × (write_resume c a buf size w ≡ fault)
      × (writer_close a w ≡ fault)
unfolding pipe_write write_resume writer_close
dangling c a size buf w e = (rw e refl, rw e refl, rw e refl)

-- Once a reader of an open pipe has closed, the writer's end dangles: a write, the rest of a write
-- that slept for space, and the closing of the writer's end all use freed memory. The test of
-- `reader_closed` that should make `pipe_write` return -1 is never reached on such a pipe.
pub reader_close_leaves_dangling_writer :
    (c : Cpu) (size : ℕ) (buf : ℕ → ℕ) {a : ℕ} {p : Pipe} {w : World}
    → Ready a p w
    → p.reader_closed ≡ false
    → (w' : World) × (reader_close a w ≡ returned (pos 0) w')
      × (pipe_write c a buf size w' ≡ fault)
      × (write_resume c a buf size w' ≡ fault)
      × (writer_close a w' ≡ fault)
reader_close_leaves_dangling_writer c size buf {a} h e =
    let (w', f, g) = reader_close_frees h e in
    let (x, y, z) = dangling c a size buf w' g.gone in (w', f, x, y, z)
