-- ===== src/Boot/First.antt =====
-- kernel_proc.c: the first two calls of `sys_Exec`, which make processes without a parent.
use disasteros.Common.{
  ℕ, ◌≡◌, ◌∙◌, refl, ap, true, Option, none, some, List, ◌∷◌, leb, count, arith,
}
use disasteros.Common.Int.{pos}
use disasteros.Sched.Thread.{Sched}
use disasteros.World.{World, Ptcb, Pcb, returned, Cpu, curproc, set_kernel, set_pcb}
use disasteros.Proc.Table.{get_pid}
use disasteros.Proc.Exec.{sys_exec, exec_acquired, adopt, start_thread, set_ptcb, create_ptcb}
use disasteros.Proc.FreeList.{Chain-update, FreeList, taken, acquire_pcb-of, taken-Acquires}

pub FreeList-of :
    (pids : List ℕ) (w w' : World)
    → w'.pcb ≡ w.pcb
    → w'.pcb_freelist ≡ w.pcb_freelist
    → w'.process_count ≡ w.process_count
    → FreeList pids w
    → FreeList pids w'
FreeList-of pids w w' a b c f = record {
  chain = rw (a, b) f.chain;
  exact = rw a f.exact;
  inside = f.inside;
  counted = rw c f.counted;
}

-- A change of a PCB that is not on the free list.
set_pcb-FreeList :
    (pids : List ℕ) (p : ℕ) (b : Pcb) (w : World)
    → count p pids ≡ 0
    → b.pstate ≡ (w.pcb p).pstate
    → FreeList pids w
    → FreeList pids (set_pcb p b w)
set_pcb-FreeList pids p b w n e f = record {
  chain = Chain-update w.pcb w.pcb_freelist pids p b n f.chain;
  exact = λ q l. ground (arith, f.exact q l, e);
  inside = f.inside;
  counted = f.counted;
}

-- What an `Exec` of the process `p` leaves: `rest` on the free list, and the files as they were.
pub record Execed (rest : List ℕ) (w w' : World) : Type 0 where
  pub freelist : FreeList rest w'
  pub files : w'.fcb ≡ w.fcb
  pub free_files : w'.fcb_freelist ≡ w.fcb_freelist
  pub fids : (p i : ℕ) → (w'.pcb p).fidt i ≡ (w.pcb p).fidt i

-- Where the kernel's copy of the arguments is.
abbrev pub copy_at : (a : ℕ) → Option ℕ → Option ℕ
copy_at a none = none
copy_at a (some x) = some a

-- The process `p` has no parent and one thread, the thread `t` with the block `q`, which is to run the
-- task `call` with arguments of the length `argl`; their copy, if there are any, is at `a`.
pub record RunsTask (p q call argl : ℕ) (args : Option ℕ) (t a : ℕ) (w : World) : Type 0 where
  pub orphan : (w.pcb p).parent ≡ none
  pub one_thread : (w.pcb p).thread_count ≡ 1
  pub main_thread : (w.pcb p).main_thread ≡ some q
  pub thread_block : Ptcb
  pub block_at : w.ptcbs q ≡ some thread_block
  pub thread : thread_block.thread ≡ some t
  pub main_task : thread_block.main_task ≡ some call
  pub argl_same : thread_block.argl ≡ argl
  pub copied : thread_block.args ≡ copy_at a args

copy_args : (a : ℕ) (args : Option ℕ) → elim args [ none ↦ none | some x ↦ some a ] ≡ copy_at a args
copy_args a none = refl
copy_args a (some x) = refl

-- The new process without a parent, and then with its main thread.
abbrev orphan : (p : ℕ) → World → World
orphan p w = let w₁ = taken w p in set_pcb p (record (w₁.pcb p) { parent = none }) w₁

abbrev headed : (p q : ℕ) → Ptcb → World → World
headed p q b w =
    let w₁ = orphan p w in set_ptcb q b (set_pcb p (record (w₁.pcb p) { main_thread = some q }) w₁)

abbrev counted_thread : (p q : ℕ) → (b b' : Ptcb) → World → World
counted_thread p q b b' w =
    let w₂ = headed p q b w in set_ptcb q b' (set_pcb p (record (w₂.pcb p) { thread_count = 1 }) w₂)

orphan-Execed :
    (p : ℕ) (rest : List ℕ) (w : World) → FreeList (p ∷ rest) w → Execed rest w (orphan p w)
orphan-Execed p rest w f =
    let (a, b, c, d, e, g) = taken-Acquires p rest w f in
    let n : count p rest ≡ 0 = ground (arith, f.exact p b) in
    record {
      freelist = set_pcb-FreeList rest p _ (taken w p) n refl g;
      files = refl;
      free_files = refl;
      fids = λ x i. ground arith;
    }

-- A further change of a PCB that is in use, but for its state and its file ids.
changed-Execed :
    (p q : ℕ) (x : Ptcb) (b : Pcb) (rest : List ℕ) (w w' : World)
    → count p rest ≡ 0
    → b.pstate ≡ (w'.pcb p).pstate
    → ((i : ℕ) → b.fidt i ≡ (w'.pcb p).fidt i)
    → Execed rest w w'
    → Execed rest w (set_ptcb q x (set_pcb p b w'))
changed-Execed p q x b rest w w' n e d f = record {
  freelist =
      FreeList-of rest (set_pcb p b w') _ refl refl refl
        (set_pcb-FreeList rest p b w' n e f.freelist);
  files = f.files;
  free_files = f.free_files;
  fids = λ y i. ground (arith, f.fids y i, d i);
}

off_list : (p : ℕ) (rest : List ℕ) (w : World) → FreeList (p ∷ rest) w → count p rest ≡ 0
off_list p rest w f = let l = f.inside p (ground arith) in ground (arith, f.exact p l)

headed-Execed :
    (p q : ℕ) (b : Ptcb) (rest : List ℕ) (w : World)
    → FreeList (p ∷ rest) w
    → Execed rest w (headed p q b w)
headed-Execed p q b rest w f =
    changed-Execed p q b _ rest w (orphan p w) (off_list p rest w f) refl (λ i. refl)
      (orphan-Execed p rest w f)

counted-Execed :
    (p q : ℕ) (b b' : Ptcb) (rest : List ℕ) (w : World)
    → FreeList (p ∷ rest) w
    → Execed rest w (counted_thread p q b b' w)
counted-Execed p q b b' rest w f =
    changed-Execed p q b' _ rest w (headed p q b w) (off_list p rest w f) refl (λ i. refl)
      (headed-Execed p q b rest w f)

adopt_first :
    (parent p : ℕ) (w : World)
    → leb p 1 ≡ true
    → adopt parent p w ≡ set_pcb p (record (w.pcb p) { parent = none }) w
unfolding adopt
adopt_first parent p w e = rw e refl

abbrev block : (p argl : ℕ) → (call args : Option ℕ) → (a : ℕ) → Ptcb
block p argl call args a = record (create_ptcb p) {
  main_task = call;
  argl = argl;
  detached = true;
  args = elim args [ none ↦ none | some _ ↦ some a ];
}

-- A call without a task makes a process without a thread.
pub exec_none :
    (c : Cpu) (argl : ℕ) (args : Option ℕ) (q t a p : ℕ) (rest : List ℕ) (w : World)
    → FreeList (p ∷ rest) w
    → leb p 1 ≡ true
    → (w' : World) × (sys_exec c none argl args q t a w ≡ returned (pos p) w')
      × Execed rest w w'
      × (w'.kernel ≡ w.kernel)
unfolding sys_exec exec_acquired get_pid
exec_none c argl args q t a p rest w f e = (
  headed p q (block p argl none args a) w,
  ap (exec_acquired (curproc c w) none argl args q t a) (acquire_pcb-of w (some p) f.chain.0)
      ∙ rw (adopt_first (curproc c w) p (taken w p) e) refl,
  headed-Execed p q _ rest w f,
  refl,
)

-- A call with a task starts its thread.
pub exec_some :
    (c : Cpu) (call argl : ℕ) (args : Option ℕ) (q t a p : ℕ) (rest : List ℕ) (w : World)
    {s : Sched}
    → FreeList (p ∷ rest) w
    → leb p 1 ≡ true
    → start_thread t q p w.kernel.sched ≡ some s
    → (w' : World) × (sys_exec c (some call) argl args q t a w ≡ returned (pos p) w')
      × Execed rest w w'
      × (w'.kernel ≡ record w.kernel { sched = s })
      × RunsTask p q call argl args t a w'
unfolding sys_exec exec_acquired get_pid
exec_some c call argl args q t a p rest w {s} f e g =
    let b = block p argl (some call) args a in
    let w₃ = counted_thread p q b (record b { thread = some t }) w in
    let x = counted-Execed p q b (record b { thread = some t }) rest w f in
    (
      set_kernel (record w₃.kernel { sched = s }) w₃,
      ap (exec_acquired (curproc c w) (some call) argl args q t a)
            (acquire_pcb-of w (some p) f.chain.0)
          ∙ rw (adopt_first (curproc c w) p (taken w p) e) (rw g refl),
      record {
        freelist = FreeList-of rest w₃ _ refl refl refl x.freelist;
        files = x.files;
        free_files = x.free_files;
        fids = x.fids;
      },
      refl,
      record {
        orphan = ground arith;
        one_thread = ground arith;
        main_thread = ground arith;
        thread_block = record b { thread = some t };
        block_at = ground arith;
        thread = refl;
        main_task = refl;
        argl_same = refl;
        copied = copy_args a args;
      },
    )
