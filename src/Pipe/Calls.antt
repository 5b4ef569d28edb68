-- ===== src/Pipe/Calls.antt =====
-- What `pipe_read`, `pipe_write` and the two closing calls do, on each branch.
use disasteros.Common.{
  ℕ, ◌-◌, ◌<◌, ◌≡◌, ◌≢◌, refl, ap, ◌∙◌, sym, subst, Bool, true, false, some, List, [], ◌++◌, arith,
  length, take, drop, ◌==◌, if◌then◌else◌, All, All-map, ltb,
}
use disasteros.Common.Int.{pos, minus_one}
use disasteros.Sched.Valid
use disasteros.Cc.Signal.{CanWait, IsAwake, Roused, cond_broadcast-Broadcasted}
use disasteros.World.{Pipe, World, returned, Cpu, set_kernel}
use disasteros.Pipe.Ring.{buff_size, is_drained, is_full, take_bytes, put_bytes}
use disasteros.Pipe.Window.{bytes_of, length-window}
use disasteros.Pipe.Fifo.{IsValid, contents, moved, take_bytes_lem, put_bytes_lem}
use disasteros.Pipe.Ends.{
  set_pipe, broadcast_space, broadcast_data, wait_data, wait_space, read_available, pipe_read,
  write_available, write_loop, pipe_write,
}

-- A pipe at the address `a`, in a kernel that can wake the threads that wait on it.
pub record Ready (a : ℕ) (p : Pipe) (w : World) : Type 0 where
  pub at : w.pipes a ≡ some p
  pub ring : IsValid p
  pub sched : Valid.IsValid w.kernel.sched
  pub readers : All (CanWait w.kernel.sched) p.has_data
  pub writers : All (CanWait w.kernel.sched) p.has_space

length-contents : (p : Pipe) → length (contents p) ≡ buff_size - p.available_space
length-contents p = length-window p.buffer p.read_p (buff_size - p.available_space)

pub drained_iff : {p : Pipe} → IsValid p → is_drained p ≡ (length (contents p) == 0)
drained_iff {p} v = ground (arith, length-contents p, v.space, v.write_at, v.read_in)

pub full_iff : {p : Pipe} → IsValid p → is_full p ≡ (length (contents p) == buff_size)
full_iff {p} v = ground (arith, length-contents p, v.space, v.write_at, v.read_in)

-- What a broadcast on a pipe's condition variable leaves in the world.
pub record Stored (a : ℕ) (q : Pipe) (woken : List ℕ) (w w' : World) : Type 0 where
  pub at : w'.pipes a ≡ some q
  pub others : (b : ℕ) → b ≢ a → w'.pipes b ≡ w.pipes b
  pub sockets : w'.scbs ≡ w.scbs
  pub roused : Roused w.kernel.sched w'.kernel.sched
  pub nobody_sleeps : All (IsAwake w'.kernel.sched) woken

module _ (a : ℕ) (q : Pipe) (w : World) (v : Valid.IsValid w.kernel.sched) where
  pub broadcast_space-Stored :
      All (CanWait w.kernel.sched) q.has_space
      → (w' : World) × (broadcast_space a q w ≡ some w')
        × Stored a (record q { has_space = [] }) q.has_space w w'
  unfolding broadcast_space
  broadcast_space-Stored c =
      let (k, e, b) = cond_broadcast-Broadcasted q.has_space w.kernel v c in
      (
        set_pipe a (some (record q { has_space = [] })) (set_kernel k w),
        rw (e, broadcast_space) refl,
        record {
          at = ground arith;
          others = λ u h. ground arith;
          sockets = refl;
          roused = b.roused;
          nobody_sleeps = b.nobody_sleeps;
        },
      )

  pub broadcast_data-Stored :
      All (CanWait w.kernel.sched) q.has_data
      → (w' : World) × (broadcast_data a q w ≡ some w')
        × Stored a (record q { has_data = [] }) q.has_data w w'
  unfolding broadcast_data
  broadcast_data-Stored c =
      let (k, e, b) = cond_broadcast-Broadcasted q.has_data w.kernel v c in
      (
        set_pipe a (some (record q { has_data = [] })) (set_kernel k w),
        rw (e, broadcast_data) refl,
        record {
          at = ground arith;
          others = λ u h. ground arith;
          sockets = refl;
          roused = b.roused;
          nobody_sleeps = b.nobody_sleeps;
        },
      )

-- The bytes that move leave the rest of the pipe alone.
pub record SameEnds (p q : Pipe) : Type 0 where
  pub has_space : q.has_space ≡ p.has_space
  pub has_data : q.has_data ≡ p.has_data
  pub reader_closed : q.reader_closed ≡ p.reader_closed
  pub writer_closed : q.writer_closed ≡ p.writer_closed

take_bytes-SameEnds : (size : ℕ) (p : Pipe) → SameEnds p (take_bytes size p).2
unfolding take_bytes
take_bytes-SameEnds size p = record {
  has_space = refl;
  has_data = refl;
  reader_closed = refl;
  writer_closed = refl;
}

put_bytes-SameEnds : (buf : ℕ → ℕ) (size : ℕ) (p : Pipe) → SameEnds p (put_bytes buf size p).1
unfolding put_bytes
put_bytes-SameEnds buf size p = record {
  has_space = refl;
  has_data = refl;
  reader_closed = refl;
  writer_closed = refl;
}

read_available_of :
    (a size n : ℕ) (bytes : List ℕ) (p : Pipe) (w w' : World)
    → (take_bytes size p).0 ≡ bytes
    → (take_bytes size p).1 ≡ n
    → 0 < n
    → broadcast_space a (take_bytes size p).2 w ≡ some w'
    → read_available a size p w ≡ returned (pos n, bytes) w'
unfolding read_available
read_available_of a size n bytes p w w' f e l b =
    let t : ltb 0 n ≡ true = ground arith in rw (e, t, b, f) refl

write_available_of :
    (a : ℕ) (buf : ℕ → ℕ) (size n : ℕ) (p : Pipe) (w w' : World)
    → (put_bytes buf size p).0 ≡ n
    → 0 < n
    → broadcast_data a (put_bytes buf size p).1 w ≡ some w'
    → write_available a buf size p w ≡ returned (pos n) w'
unfolding write_available
write_available_of a buf size n p w w' e l b =
    let t : ltb 0 n ≡ true = ground arith in rw (e, t, b) refl

module _ {a : ℕ} {p : Pipe} {w : World} (c : Cpu) (h : Ready a p w) where
  -- An empty pipe: end of file if the writer is closed, and else the reader sleeps on `hasData`.
  pub pipe_read_empty :
      (size : ℕ)
      → length (contents p) ≡ 0
      → pipe_read c a size w
        ≡ (if p.writer_closed then returned (pos 0, []) w else wait_data c a p w)
  unfolding pipe_read
  pipe_read_empty size e =
      let d : is_drained p ≡ true = ground (arith, drained_iff h.ring) in rw h.at (rw d refl)

  -- On a valid pipe with data, in a kernel that can wake its waiters, `pipe_read` does not wait.
  -- It returns a positive count, the oldest bytes, in order, and no more than `size` of them,
  -- unless the size is 0, where it returns all there are. Those bytes are gone from the pipe, the
  -- kernel can still wake its waiters, and no writer that waited for space is left asleep.
  pub pipe_read_data :
      (size : ℕ)
      → 0 < length (contents p)
      → let n = moved size (length (contents p)) in
        (w' : World) × (q : Pipe) × (pipe_read c a size w
          ≡ returned (pos n, take n (contents p)) w')
        × (0 < n)
        × (contents q ≡ drop n (contents p))
        × Ready a q w'
        × Stored a q p.has_space w w'
  unfolding pipe_read
  pipe_read_data size l =
      let d : is_drained p ≡ false = ground (arith, drained_iff h.ring) in
      let n = moved size (length (contents p)) in
      let r = (take_bytes size p).2 in
      let ends = take_bytes-SameEnds size p in
      let (e, f, g, v) = take_bytes_lem size h.ring in
      let (w', b, s) =
        broadcast_space-Stored a r w h.sched
          (subst (All (CanWait w.kernel.sched)) (sym ends.has_space) h.writers) in
      let more : 0 < n = ground arith in
      (
        w',
        record r { has_space = [] },
        rw h.at (rw d (read_available_of a size n (take n (contents p)) p w w' f e more b)),
        more,
        g,
        record {
          at = s.at;
          ring = record { space = v.space; read_in = v.read_in; write_at = v.write_at };
          sched = s.roused.valid;
          readers =
              subst (All (CanWait w'.kernel.sched)) (sym ends.has_data)
                (All-map p.has_data s.roused.can_wait h.readers);
          writers = tt;
        },
        subst (λ l. Stored a (record r { has_space = [] }) l w w') ends.has_space s,
      )

  -- With the reader closed `pipe_write` fails, and changes nothing.
  pub pipe_write_closed :
      (buf : ℕ → ℕ) (size : ℕ)
      → p.reader_closed ≡ true
      → pipe_write c a buf size w ≡ returned minus_one w
  unfolding pipe_write
  pipe_write_closed buf size e = rw h.at (rw e refl)

  pipe_write_open :
      (buf : ℕ → ℕ) (size : ℕ)
      → p.reader_closed ≡ false
      → pipe_write c a buf size w
        ≡ (if is_full p then wait_space c a p w else write_available a buf size p w)
  unfolding pipe_write write_loop
  pipe_write_open buf size e = rw h.at (
      ap
        (λ (b : Bool).
          if b
          then returned minus_one w
          else if is_full p
          then wait_space c a p w
          else write_available a buf size p w)
        e)

  -- A full pipe: the writer sleeps on `hasSpace`.
  pub pipe_write_full :
      (buf : ℕ → ℕ) (size : ℕ)
      → p.reader_closed ≡ false
      → length (contents p) ≡ buff_size
      → pipe_write c a buf size w ≡ wait_space c a p w
  pipe_write_full buf size e l =
      let d : is_full p ≡ true = ground (arith, full_iff h.ring) in
      pipe_write_open buf size e ∙ rw d refl

  -- On a valid pipe with space and an open reader, in a kernel that can wake its waiters,
  -- `pipe_write` does not wait. It returns a positive count, at most `size` unless that is 0,
  -- where it fills the pipe. That many bytes of the caller's stand behind those that were there,
  -- the kernel can still wake the waiters of the pipe, and no reader that waited for data is left
  -- asleep.
  pub pipe_write_space :
      (buf : ℕ → ℕ) (size : ℕ)
      → p.reader_closed ≡ false
      → length (contents p) < buff_size
      → let n = moved size (buff_size - length (contents p)) in
        (w' : World) × (q : Pipe) × (pipe_write c a buf size w ≡ returned (pos n) w')
        × (0 < n)
        × (contents q ≡ contents p ++ bytes_of buf 0 n)
        × Ready a q w'
        × Stored a q p.has_data w w'
  pipe_write_space buf size o l =
      let d : is_full p ≡ false = ground (arith, full_iff h.ring) in
      let sp : p.available_space ≡ buff_size - length (contents p) =
        omega (arith, length-contents p, h.ring.space) in
      let n = moved size (buff_size - length (contents p)) in
      let r = (put_bytes buf size p).1 in
      let ends = put_bytes-SameEnds buf size p in
      let m : moved size p.available_space ≡ n = ap (moved size) sp in
      let (e, g, v) = put_bytes_lem buf size h.ring in
      let (w', b, s) =
        broadcast_data-Stored a r w h.sched
          (subst (All (CanWait w.kernel.sched)) (sym ends.has_data) h.readers) in
      let more : 0 < n = ground arith in
      (
        w',
        record r { has_data = [] },
        pipe_write_open buf size o ∙ rw d (write_available_of a buf size n p w w' (e ∙ m) more b),
        more,
        g ∙ ap (λ (k : ℕ). contents p ++ bytes_of buf 0 k) m,
        record {
          at = s.at;
          ring = record { space = v.space; read_in = v.read_in; write_at = v.write_at };
          sched = s.roused.valid;
          readers = tt;
          writers =
              subst (All (CanWait w'.kernel.sched)) (sym ends.has_space)
                (All-map p.has_space s.roused.can_wait h.writers);
        },
        subst (λ l. Stored a (record r { has_data = [] }) l w w') ends.has_data s,
      )
