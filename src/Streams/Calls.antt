-- ===== src/Streams/Calls.antt =====
-- The file operations of each stream, and the system calls that go through them.
use disasteros.Common.{
  ℕ, zero, suc, ◌+◌, ◌%◌, Bool, false, ◌&&◌, not, Option, none, some, List, [], ◌∷◌, ltb, ◌==◌,
  if◌then◌else◌,
}
use disasteros.Common.Int.{ℤ, pos, negsuc, minus_one}
use disasteros.World.{
  World, FileOps, reader_ops, writer_ops, nulldev_fops, info_ops, serial_fops, socket_ops, Outcome,
  returned, or_fault, and_then, Cpu, curproc, max_fileid, set_fcb, Procinfo,
}
use disasteros.Pipe.Ends.{pipe_read, pipe_write, reader_close, writer_close, get_pipe}
use disasteros.Devices.{serial_read, serial_write}
use disasteros.Socket.{socket_read, socket_write, socket_close, close_listener_resume}
use disasteros.Streams.Table.{
  fcb_incref, drop_ref, release_fcb, set_fidt, get_fcb, holds, fcb_reserve,
}

-- The zeros of `nulldev_read`'s `memset`.
unfoldable pub zeros : ℕ → List ℕ
zeros zero = []
zeros (suc n) = 0 ∷ zeros n

-- The `Close` of each table. `info_close` frees its object; `nulldev_close` and
-- `serial_close` do nothing.
unfoldable pub close_stream : Cpu → FileOps → ℕ → World → Outcome ℤ
close_stream c reader_ops a w = reader_close a w
close_stream c writer_ops a w = writer_close a w
close_stream c nulldev_fops a w = returned (pos 0) w
close_stream c serial_fops a w = returned (pos 0) w
close_stream c socket_ops a w = socket_close c a w
close_stream c info_ops a w =
    returned (pos 0) (record w { infos = λ b. if b == a then none else w.infos b })

-- `FCB_decref`
unfoldable pub fcb_decref : Cpu → ℕ → World → Outcome ℤ
fcb_decref c f w =
    if (w'.fcb f).refcount == 0
    then and_then (close_stream c (w'.fcb f).streamfunc (w'.fcb f).streamobj w')
        (λ retval w''. returned retval (release_fcb f w''))
    else returned (pos 0) w'
  where
    w' : World
    w' = drop_ref f w

-- The rest of an `FCB_decref` that went to sleep in the close of the listener at `a`.
unfoldable pub decref_resume : (f a : ℕ) → World → Outcome ℤ
decref_resume f a w =
    and_then (close_listener_resume a w) (λ retval w'. returned retval (release_fcb f w'))

-- `info_read`, with the size of a `procinfo` as `entry_size` and the bytes of an entry given by
-- `entry_bytes`, which the compiler lays out. The index is a uint32_t, compared with -1.
abbrev pub ReadResult : Type 0
ReadResult = ℤ × List ℕ

module _ (entry_size : ℕ) (entry_bytes : Procinfo → List ℕ) where
  unfoldable pub info_read : ℕ → (size : ℕ) → World → Outcome ReadResult
  info_read a size w = or_fault (w.infos a) λ info.
      if not (size == entry_size)
      then returned (minus_one, []) w
      else if not (info.index == 4294967295)
      then returned (pos size, entry_bytes (info.info_table info.index))
          (record w {
            infos = λ b.
                if b == a
                then some (record info { index = (info.index + 4294967295) % 4294967296 })
                else w.infos b;
          })
      else returned (pos 0, []) w

  -- The `Read` of each table; NULL gives -1.
  unfoldable pub read_stream : Cpu → FileOps → ℕ → (size : ℕ) → World → Outcome ReadResult
  read_stream c reader_ops a size w = pipe_read c a size w
  read_stream c writer_ops a size w = returned (minus_one, []) w
  read_stream c nulldev_fops a size w = returned (pos size, zeros size) w
  read_stream c info_ops a size w = info_read a size w
  read_stream c serial_fops a size w = serial_read c a size w
  read_stream c socket_ops a size w = socket_read c a size w

  -- `sys_Read`. A read that sleeps keeps its reference, and drops it when it returns.
  unfoldable pub sys_read : Cpu → ℤ → (size : ℕ) → World → Outcome ReadResult
  sys_read c fd size w = elim (get_fcb c fd w) [
    | none ↦ returned (minus_one, []) w
    | some f ↦
        and_then (read_stream c (w.fcb f).streamfunc (w.fcb f).streamobj size (fcb_incref f w))
          λ retcode w'. and_then (fcb_decref c f w') λ _ w''. returned retcode w''
  ]

-- The `Write` of each table.
unfoldable pub write_stream : Cpu → FileOps → ℕ → (buf : ℕ → ℕ) → (size : ℕ) → World → Outcome ℤ
write_stream c reader_ops a buf size w = returned minus_one w
write_stream c writer_ops a buf size w = pipe_write c a buf size w
write_stream c nulldev_fops a buf size w = returned (pos size) w
write_stream c info_ops a buf size w = returned minus_one w
write_stream c serial_fops a buf size w = serial_write c a buf size w
write_stream c socket_ops a buf size w = socket_write c a buf size w

-- `sys_Write`
unfoldable pub sys_write : Cpu → ℤ → (buf : ℕ → ℕ) → (size : ℕ) → World → Outcome ℤ
sys_write c fd buf size w = elim (get_fcb c fd w) [
  | none ↦ returned minus_one w
  | some f ↦
      and_then (write_stream c (w.fcb f).streamfunc (w.fcb f).streamobj buf size (fcb_incref f w))
        λ retcode w'. and_then (fcb_decref c f w') λ _ w''. returned retcode w''
]

-- The legality of a file id.
abbrev pub is_fid : ℤ → Bool
is_fid (pos i) = ltb i max_fileid
is_fid (negsuc n) = false

abbrev pub index_of : ℤ → ℕ
index_of (pos i) = i
index_of (negsuc n) = 0

-- `sys_Close`. Closing a closed file id is legal.
unfoldable pub sys_close : Cpu → ℤ → World → Outcome ℤ
sys_close c fd w = elim (get_fcb c fd w) [
  | none ↦ returned (if is_fid fd then pos 0 else minus_one) w
  | some f ↦ fcb_decref c f (set_fidt (curproc c w) (index_of fd) none w)
]

-- `sys_Dup2`: first `if (new) FCB_decref(new)`, then the copy.
abbrev pub drop_new : Cpu → Option ℕ → World → Outcome ℤ
drop_new c none w = returned (pos 0) w
drop_new c (some f) w = fcb_decref c f w

unfoldable pub sys_dup2 : Cpu → (oldfd newfd : ℤ) → World → Outcome ℤ
sys_dup2 c oldfd newfd w =
    if is_fid oldfd && is_fid newfd
    then elim (get_fcb c oldfd w) [
      | none ↦ returned minus_one w
      | some old ↦
          if holds (get_fcb c newfd w) old
          then returned (pos 0) w
          else and_then (drop_new c (get_fcb c newfd w) w) λ _ w'.
            returned (pos 0)
              (set_fidt (curproc c w') (index_of newfd) (some old) (fcb_incref old w'))
    ]
    else returned minus_one w

-- The stream of an FCB is set.
abbrev pub attach : ℕ → ℕ → FileOps → World → World
attach f a ops w = set_fcb f (record (w.fcb f) { streamobj = a; streamfunc = ops }) w

abbrev attach_ends : ℕ → List ℕ → World → World
attach_ends a (r ∷ s ∷ _) w = attach s a writer_ops (attach r a reader_ops w)
attach_ends a (r ∷ []) w = w
attach_ends a [] w = w

-- `sys_Pipe`, where the allocator gives the pipe the address `a`: the two file ids, the reader's
-- first, or `none` for -1.
unfoldable pub sys_pipe : Cpu → (a : ℕ) → World → Option (List ℕ) × World
sys_pipe c a w =
    let (o, w') = fcb_reserve (curproc c w) 2 w in
    elim o [
      | none ↦ (none, w')
      | some (fids, fcbs) ↦ (some fids, attach_ends a fcbs (get_pipe a w'))
    ]
