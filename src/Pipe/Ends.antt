-- ===== src/Pipe/Ends.antt =====
-- `pipe_read`, `pipe_write`, `reader_close`, `writer_close` and `get_pipe`, on the pipe at an
-- address. The kernel lock is held. A call that waits gives up the core; when its thread runs again
-- it goes on with `read_resume` or `write_resume`.
use disasteros.Common.{ℕ, true, false, Option, none, some, List, [], if◌then◌else◌, ltb, update}
use disasteros.Common.Int.{ℤ, pos, minus_one}
use disasteros.Sched.Thread.{pipe, no_timeout}
use disasteros.Cc.CondVar.{cond_broadcast, cv_resume}
use disasteros.Cc.KernelLock.{kernel_wait}
use disasteros.World.{Pipe, World, Outcome, returned, asleep, or_fault, and_then, Cpu, set_kernel}
use disasteros.Pipe.Ring.{is_drained, is_full, take_bytes, put_bytes, buff_size}

abbrev pub set_pipe : ℕ → Option Pipe → World → World
set_pipe a p w = record w { pipes = update w.pipes a p }

-- `Cond_Broadcast(&pipe->hasSpace)` and `Cond_Broadcast(&pipe->hasData)`, on a pipe that is then
-- stored.
unfoldable pub broadcast_space : ℕ → Pipe → World → Option World
broadcast_space a p w = elim (cond_broadcast p.has_space w.kernel) [
  | none ↦ none
  | some (cv, k) ↦ some (set_pipe a (some (record p { has_space = cv })) (set_kernel k w))
]

unfoldable pub broadcast_data : ℕ → Pipe → World → Option World
broadcast_data a p w = elim (cond_broadcast p.has_data w.kernel) [
  | none ↦ none
  | some (cv, k) ↦ some (set_pipe a (some (record p { has_data = cv })) (set_kernel k w))
]

-- `kernel_wait(&pipe->hasData, SCHED_PIPE)`, and the same on `hasSpace`, up to the context switch.
unfoldable pub wait_data {ℓ} : {A : Type ℓ} → Cpu → ℕ → Pipe → World → Outcome A
wait_data c a p w =
    or_fault (kernel_wait c.core pipe no_timeout c.curtime c.later p.has_data w.kernel)
      λ (_, cv, k). asleep (set_pipe a (some (record p { has_data = cv })) (set_kernel k w))

unfoldable pub wait_space {ℓ} : {A : Type ℓ} → Cpu → ℕ → Pipe → World → Outcome A
wait_space c a p w =
    or_fault (kernel_wait c.core pipe no_timeout c.curtime c.later p.has_space w.kernel)
      λ (_, cv, k). asleep (set_pipe a (some (record p { has_space = cv })) (set_kernel k w))

-- What `pipe_read` returns, and what it stores in `buf`.
abbrev pub ReadResult : Type 0
ReadResult = ℤ × List ℕ

unfoldable pub read_available : ℕ → (size : ℕ) → Pipe → World → Outcome ReadResult
read_available a size p w =
    let (bytes, bytes_read, p') = take_bytes size p in
    if ltb 0 bytes_read
    then or_fault (broadcast_space a p' w) (returned (pos bytes_read, bytes))
    else returned (minus_one, bytes) w

-- `pipe_read`. The test of its loop is its first step, so a thread that was woken begins anew.
unfoldable pub pipe_read : Cpu → ℕ → (size : ℕ) → World → Outcome ReadResult
pipe_read c a size w = or_fault (w.pipes a) λ p.
    if is_drained p
    then if p.writer_closed then returned (pos 0, []) w else wait_data c a p w
    else read_available a size p w

-- The end of the wait in `pipe_read`, and the rest of the call.
unfoldable pub read_resume : Cpu → ℕ → (size : ℕ) → World → Outcome ReadResult
read_resume c a size w = or_fault (w.pipes a) λ p.
    or_fault (cv_resume c.core p.has_data w.kernel)
      λ (_, cv). pipe_read c a size (set_pipe a (some (record p { has_data = cv })) w)

unfoldable pub write_available : ℕ → (buf : ℕ → ℕ) → (size : ℕ) → Pipe → World → Outcome ℤ
write_available a buf size p w =
    let (bytes_writen, p') = put_bytes buf size p in
    if ltb 0 bytes_writen
    then or_fault (broadcast_data a p' w) (returned (pos bytes_writen))
    else returned minus_one w

-- `pipe_write` from the test of its loop on. `reader_closed` is not looked at again.
unfoldable pub write_loop : Cpu → ℕ → (buf : ℕ → ℕ) → (size : ℕ) → World → Outcome ℤ
write_loop c a buf size w =
    or_fault (w.pipes a)
      λ p. if is_full p then wait_space c a p w else write_available a buf size p w

unfoldable pub pipe_write : Cpu → ℕ → (buf : ℕ → ℕ) → (size : ℕ) → World → Outcome ℤ
pipe_write c a buf size w =
    or_fault (w.pipes a)
      λ p. if p.reader_closed then returned minus_one w else write_loop c a buf size w

unfoldable pub write_resume : Cpu → ℕ → (buf : ℕ → ℕ) → (size : ℕ) → World → Outcome ℤ
write_resume c a buf size w = or_fault (w.pipes a) λ p.
    or_fault (cv_resume c.core p.has_space w.kernel)
      λ (_, cv). write_loop c a buf size (set_pipe a (some (record p { has_space = cv })) w)

-- `writer_close`. The argument is never NULL here.
unfoldable pub writer_close : ℕ → World → Outcome ℤ
writer_close a w = or_fault (w.pipes a) λ p.
    if p.writer_closed
    then returned (pos 0) w
    else or_fault (broadcast_data a (record p { writer_closed = true }) w) (returned (pos 0))

-- `reader_close`: it closes the writer's end too, and frees the pipe.
unfoldable pub reader_close : ℕ → World → Outcome ℤ
reader_close a w = or_fault (w.pipes a) λ p.
    if p.reader_closed
    then returned (pos 0) w
    else or_fault (broadcast_space a (record p { reader_closed = true }) w)
        λ w₁. and_then (writer_close a w₁) λ _ w₂. returned (pos 0) (set_pipe a none w₂)

-- `get_pipe`, where the allocator gives it the address `a`.
abbrev pub new_pipe : Pipe
new_pipe = record {
  buffer = λ _. 0;
  write_p = 0;
  read_p = 0;
  available_space = buff_size;
  has_space = [];
  has_data = [];
  reader_closed = false;
  writer_closed = false;
}

unfoldable pub get_pipe : ℕ → World → World
get_pipe a w = set_pipe a (some new_pipe) w
