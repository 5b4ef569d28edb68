-- ===== src/Tests/Pipes.antt =====
-- The condition variables, the kernel lock and the pipes on the small machine.
use disasteros.Common.{
  ◌+◌, ◌-◌, ◌≡◌, ◌≤◌, ◌<◌, refl, false, none, some, [], ◌∷◌, ◌++◌, ◌==◌, if◌then◌else◌, arith,
  length, take, drop,
}
use disasteros.Common.Int.{pos}
use disasteros.Cc.CondVar.{Kernel, cond_broadcast}
use disasteros.Cc.KernelLock.{kernel_try}
use disasteros.Cc.Signal.{Broadcasted, cond_broadcast-Broadcasted}
use disasteros.Cc.Exclusion.{enter, here, next, LockRun-exclusive}
use disasteros.World.{Pipe, World, returned, fault}
use disasteros.Pipe.Ring.{buff_size, take_bytes, put_bytes}
use disasteros.Pipe.Window.{bytes_of}
use disasteros.Pipe.Fifo.{IsValid, contents, moved}
use disasteros.Pipe.Stream.{PipeRun, reads, writes, PipeRun-fifo}
use disasteros.Pipe.Ends.{pipe_read, pipe_write, writer_close, reader_close, write_resume}
use disasteros.Pipe.Calls.{Ready, Stored, pipe_read_data, pipe_write_space}
use disasteros.Pipe.Closing.{reader_close_leaves_dangling_writer}
use disasteros.Tests.Machine.{machine-IsValid, kernel, world, cpu}

cond_broadcast_example :
    (k' : Kernel) × (cond_broadcast (43 ∷ 44 ∷ []) kernel ≡ some ([], k'))
    × Broadcasted (43 ∷ 44 ∷ []) kernel k'
cond_broadcast_example =
    cond_broadcast-Broadcasted (43 ∷ 44 ∷ []) kernel machine-IsValid
      ((refl, refl), ((refl, refl), tt))

abbrev locked : Kernel
locked = record kernel { kernel_sem = 0 }

enter_test : kernel_try kernel ≡ some locked
unfolding kernel_try
enter_test = refl

LockRun-exclusive_example :
    (locked.kernel_sem + 1 ≡ 1) × (1 ≤ 1) × (0 < 1 → kernel_try locked ≡ none)
LockRun-exclusive_example =
    LockRun-exclusive {k = kernel} {k' = locked} {n = 1} refl (next here (enter enter_test))

-- A pipe with the bytes 7, 8 and 9, the first of them at the end of the buffer.
abbrev pub some_bytes : Pipe
some_bytes = record {
  buffer = λ i. if i == 16383 then 7 else 8 + i;
  write_p = 2;
  read_p = 16383;
  available_space = 16381;
  has_space = 44 ∷ [];
  has_data = 41 ∷ [];
  reader_closed = false;
  writer_closed = false;
}

some_bytes-IsValid : IsValid some_bytes
some_bytes-IsValid = record { space = omega arith; read_in = omega arith; write_at = refl }

some_bytes-Ready : Ready 9 some_bytes (world some_bytes)
some_bytes-Ready = record {
  at = refl;
  ring = some_bytes-IsValid;
  sched = machine-IsValid;
  readers = ((refl, refl), tt);
  writers = ((refl, refl), tt);
}

pipe_read_data_example :
    let n = moved 2 (length (contents some_bytes)) in
    (w' : World) × (q : Pipe) × (pipe_read cpu 9 2 (world some_bytes)
      ≡ returned (pos n, take n (contents some_bytes)) w')
    × (0 < n)
    × (contents q ≡ drop n (contents some_bytes))
    × Ready 9 q w'
    × Stored 9 q (44 ∷ []) (world some_bytes) w'
pipe_read_data_example = pipe_read_data cpu some_bytes-Ready 2 (omega arith)

pipe_write_space_example :
    let n = moved 5 (buff_size - length (contents some_bytes)) in
    (w' : World) × (q : Pipe) × (pipe_write cpu 9 (λ i. i) 5 (world some_bytes)
      ≡ returned (pos n) w')
    × (0 < n)
    × (contents q ≡ contents some_bytes ++ bytes_of (λ i. i) 0 n)
    × Ready 9 q w'
    × Stored 9 q (41 ∷ []) (world some_bytes) w'
pipe_write_space_example = pipe_write_space cpu some_bytes-Ready (λ i. i) 5 refl (omega arith)

reader_close_leaves_dangling_writer_example :
    (w' : World) × (reader_close 9 (world some_bytes) ≡ returned (pos 0) w')
    × (pipe_write cpu 9 (λ i. i) 5 w' ≡ fault)
    × (write_resume cpu 9 (λ i. i) 5 w' ≡ fault)
    × (writer_close 9 w' ≡ fault)
reader_close_leaves_dangling_writer_example =
    reader_close_leaves_dangling_writer cpu 5 (λ i. i) some_bytes-Ready refl

abbrev filled : Pipe
filled = (put_bytes (λ i. i) 5 some_bytes).1

-- Five bytes are written, and then two are read.
PipeRun-fifo_example :
    IsValid (take_bytes 2 filled).2
    × (contents some_bytes ++ (bytes_of (λ i. i) 0 (put_bytes (λ i. i) 5 some_bytes).0 ++ [])
        ≡ (take_bytes 2 filled).0 ++ contents (take_bytes 2 filled).2)
PipeRun-fifo_example =
    PipeRun-fifo {p = some_bytes} some_bytes-IsValid
      (PipeRun.next (PipeRun.next PipeRun.here (writes (λ i. i) 5)) (reads 2))
