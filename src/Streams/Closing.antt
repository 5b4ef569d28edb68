-- ===== src/Streams/Closing.antt =====
-- The reference counts under `FCB_decref` and `sys_Close`.
use disasteros.Common.{
  ℕ, ◌+◌, ◌-◌, ◌%◌, ◌<◌, ◌≡◌, ap, subst, inl, inr, none, some, [], ◌∷◌, ◌++◌, arith, count-append,
  ◌==◌, if◌then◌else◌, Bool-cases, Option-cases, ltb,
}
use disasteros.Common.Int.{ℤ, pos, negsuc}
use disasteros.World.{
  Fcb, FileOps, reader_ops, writer_ops, nulldev_fops, info_ops, serial_fops, socket_ops, World,
  returned, Cpu, curproc, max_fileid, max_proc,
}
use disasteros.Cc.Frame.{SameOwners}
use disasteros.Streams.Table.{u32_mod, drop_ref, set_fidt, get_fcb}
use disasteros.Streams.Calls.{close_stream, fcb_decref, sys_close}
use disasteros.Streams.Refs.{refs, refs-set_fidt, refs-bound, refs-of_pcb, IsValid}
use disasteros.Socket.Frame.{socket_close-SameTables}
use disasteros.Streams.Frame.{
  and_then-returned, else_of, then_of, SameTables, SameTables-refl, reader_close-SameTables,
  writer_close-SameTables,
}

close_stream-SameTables :
    (c : Cpu) (ops : FileOps) (a : ℕ) (w : World) {r : ℤ} {w' : World}
    → close_stream c ops a w ≡ returned r w'
    → SameTables w w'
unfolding close_stream
close_stream-SameTables c reader_ops a w e = reader_close-SameTables a w e
close_stream-SameTables c writer_ops a w e = writer_close-SameTables a w e
close_stream-SameTables c nulldev_fops a w e = SameTables-refl e
close_stream-SameTables c serial_fops a w e = SameTables-refl e
close_stream-SameTables c socket_ops a w e = socket_close-SameTables c a w e
close_stream-SameTables c info_ops a w e = record {
  fcb = ground arith;
  freelist = ground arith;
  pcb = ground arith;
  owners = record { current = λ core. ground arith; owner = λ u. ground arith };
}

-- The count that is left by `FCB_decref`.
abbrev pub less : ℕ → World → ℕ
less f w = ((w.fcb f).refcount + u32_mod - 1) % u32_mod

pub record Dropped (f : ℕ) (w w' : World) : Type 0 where
  pub pcb : w'.pcb ≡ w.pcb
  pub owners : SameOwners w.kernel.sched w'.kernel.sched
  pub refcount : (g : ℕ) → (w'.fcb g).refcount ≡ (if g == f then less f w else (w.fcb g).refcount)
  pub freelist :
      w'.fcb_freelist ≡ (if less f w == 0 then w.fcb_freelist ++ f ∷ [] else w.fcb_freelist)

pub fcb_decref-Dropped :
    (c : Cpu) (f : ℕ) (w : World) {r : ℤ} {w' : World}
    → fcb_decref c f w ≡ returned r w'
    → Dropped f w w'
unfolding fcb_decref drop_ref
fcb_decref-Dropped c f w {r} {w'} e =
    let u = drop_ref f w in
    let same : (u.fcb f).refcount ≡ less f w = ground arith in
    elim (Bool-cases ((u.fcb f).refcount == 0)) [
      | inr h ↦
          let g : returned (pos 0) u ≡ returned r w' = else_of _ ((u.fcb f).refcount == 0) h e in
          record {
            pcb = ground arith;
            owners = record { current = λ core. ground arith; owner = λ u. ground arith };
            refcount = λ x. ground arith;
            freelist = ground arith;
          }
      | inl h ↦
          let (q, v, x, d) =
            and_then-returned (close_stream c (u.fcb f).streamfunc (u.fcb f).streamobj u) _
              (then_of _ ((u.fcb f).refcount == 0) h e) in
          let s = close_stream-SameTables c (u.fcb f).streamfunc (u.fcb f).streamobj u x in
          record {
            pcb = ground (arith, s.pcb);
            owners = record {
              current = λ core. ground (arith, s.owners.current core);
              owner = λ x. ground (arith, s.owners.owner x);
            };
            refcount = λ x. ground (arith, ap (λ (t : ℕ → Fcb). (t x).refcount) s.fcb);
            freelist = ground (arith, s.freelist);
          }
    ]

-- What a valid table gives when one reference of `f` has gone from the fileid tables and its count
-- has not yet followed.
module _ (c : Cpu) {w : World} (p i f : ℕ) (v : IsValid w) (h : p < max_proc)
    (k : i < max_fileid) where
  drop-IsValid :
      {r : ℤ} {w' : World}
      → (w.pcb p).fidt i ≡ some f
      → fcb_decref c f (set_fidt p i none w) ≡ returned r w'
      → IsValid w'
  drop-IsValid {r} {w'} e g =
      let d = fcb_decref-Dropped c f (set_fidt p i none w) g in
      let same : (u : ℕ) → refs w' u ≡ refs (set_fidt p i none w) u =
        λ u. refs-of_pcb (set_fidt p i none w) w' u d.pcb in
      record {
        counted = λ u. ground (
          arith,
          d.refcount u,
          same u,
          refs-set_fidt p i u none w h k,
          v.counted u,
          refs-bound w u,
        );
        unused = λ u. ground (
          arith,
          d.freelist,
          d.refcount u,
          same u,
          same f,
          refs-set_fidt p i u none w h k,
          refs-set_fidt p i f none w h k,
          v.counted f,
          v.unused u,
          v.unused f,
          refs-bound w f,
          count-append u w.fcb_freelist (f ∷ []),
        );
        no_leak = λ u. ground (
          arith,
          d.freelist,
          d.refcount u,
          same u,
          same f,
          refs-set_fidt p i u none w h k,
          refs-set_fidt p i f none w h k,
          v.counted f,
          v.no_leak u,
          refs-bound w f,
          count-append u w.fcb_freelist (f ∷ []),
        );
      }

module _ (c : Cpu) {w : World} (v : IsValid w) (h : curproc c w < max_proc) where
  -- With the reference counts right, and a calling process of the table, a `sys_Close` that
  -- returns, on whatever file id, leaves them right: each FCB counts the file ids that stand for
  -- it, and the free list holds, once each, the FCBs that none stands for.
  pub sys_close-IsValid :
      (fd : ℤ) {r : ℤ} {w' : World} → sys_close c fd w ≡ returned r w' → IsValid w'
  unfolding sys_close get_fcb
  sys_close-IsValid (negsuc n) e = subst IsValid (ground arith) v
  sys_close-IsValid (pos i) {r} e = elim (Bool-cases (ltb i max_fileid)) [
    | inl k ↦ elim (Option-cases ((w.pcb (curproc c w)).fidt i)) [
      | inl o ↦ subst IsValid (ground arith) v
      | inr (f, o) ↦ drop-IsValid c (curproc c w) i f v h (ground arith) {r = r} o (ground arith)
    ]
    | inr k ↦ subst IsValid (ground arith) v
  ]
