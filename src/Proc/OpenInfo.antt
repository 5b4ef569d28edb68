-- ===== src/Proc/OpenInfo.antt =====
-- `sys_OpenInfo`: the stream of process information.
use disasteros.Common.{
  ℕ, zero, suc, ◌+◌, ◌==◌, false, ◌||◌, Option, none, some, List, [], ◌∷◌, ltb, if◌then◌else◌,
  update,
}
use disasteros.Common.Int.{ℤ, pos, minus_one}
use disasteros.World.{
  Pcb, Ptcb, Procinfo, Info, World, Outcome, returned, or_fault, Cpu, curproc, info_ops, max_proc,
}
use disasteros.Streams.Table.{fcb_reserve}
use disasteros.Streams.Calls.{attach}
use disasteros.Proc.Table.{is_free, is_alive}

-- `memset(info_table, 0, ...)`
abbrev pub no_info : Procinfo
no_info = record {
  pid = 0;
  ppid = 0;
  alive = false;
  thread_count = 0;
  main_task = none;
  argl = 0;
  args = [];
}

-- The entry of process `i`, whose main thread is `b`. The bytes of the arguments are what
-- `bytes_at` reads at their address: the block is not part of the state.
module _ (bytes_at : Option ℕ → ℕ → List ℕ) where
  unfoldable pub info_of : ℕ → Pcb → Ptcb → Procinfo
  info_of i proc b = record {
    pid = i;
    ppid = elim proc.parent [ none ↦ 0 | some q ↦ q ];
    alive = is_alive proc.pstate;
    thread_count = proc.thread_count;
    main_task = b.main_task;
    argl = b.argl;
    args = bytes_at b.args b.argl;
  }

  -- The loop over `PT`, from process `i` on, with the entries made and their number.
  unfoldable pub collect :
      (n i index cur_count : ℕ) → (ℕ → Procinfo) → World → Option ((ℕ → Procinfo) × ℕ)
  collect zero i index cur_count table w = some (table, index)
  collect (suc n) i index cur_count table w =
      if index == cur_count || ltb w.process_count index
      then some (table, index)
      else if is_free (w.pcb i).pstate
      then collect n (i + 1) index cur_count table w
      else elim ((w.pcb i).main_thread) [
        | none ↦ none
        | some q ↦ elim (w.ptcbs q) [
          | none ↦ none
          | some b ↦
              collect n (i + 1) (index + 1) cur_count (update table index (info_of i (w.pcb i) b)) w
        ]
      ]

  -- `sys_OpenInfo`, where the allocator gives the InfoCB the address `a`. `fault` is the access to
  -- the main thread of a process that has exited.
  unfoldable pub sys_open_info : Cpu → (a : ℕ) → World → Outcome ℤ
  sys_open_info c a w = elim reserved.0 [
    | some (fid ∷ _, f ∷ _) ↦
        or_fault (collect max_proc 0 0 reserved.1.process_count (λ _. no_info) reserved.1)
          λ (table, index).
            let info : Info = record { info_table = table; index = index } in
            returned (pos fid) (
              attach f a info_ops
                (record reserved.1 { infos = update reserved.1.infos a (some info) }))
    | _ ↦ returned minus_one reserved.1
  ]
    where
      reserved : Option (List ℕ × List ℕ) × World
      reserved = fcb_reserve (curproc c w) 1 w
