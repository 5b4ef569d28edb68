-- ===== src/Proc/Hazards.antt =====
-- Where the threads of one process get in each other's way.
use disasteros.Common.{ℕ, zero, suc, ◌≡◌, ◌≢◌, refl, true, false, none, some, List, ◌∷◌, arith}
use disasteros.Common.Int.{pos, minus_one}
use disasteros.World.{Ptcb, World, returned, Cpu, curthread, curproc}
use disasteros.Proc.Table.{acquire_pcb, release_pcb, is_alive}
use disasteros.Proc.Wait.{cleanup_zombie, await_specific}
use disasteros.Proc.Threads.{is_thread, may_join, sys_thread_join, join_all}

-- A thread of the process that is detached, and not the one that calls.
pub record Detached (c : Cpu) (q t : ℕ) (w : World) : Type 0 where
  pub listed : (rest : List ℕ) × ((w.pcb (curproc c w)).ptcb_list ≡ q ∷ rest)
  pub block : (b : Ptcb) × (w.ptcbs q ≡ some b) × (b.thread ≡ some t) × (b.detached ≡ true)
  pub main :
      (m : ℕ) × (b : Ptcb) × ((w.pcb (curproc c w)).main_thread ≡ some m)
      × (w.ptcbs m ≡ some b)
      × (is_thread b.thread t ≡ false)
  pub live : w.kernel.sched.live t ≡ true
  pub owner : (w.kernel.sched.tcb t).owner_pcb ≡ curproc c w
  pub owner_ptcb : (w.kernel.sched.tcb t).owner_ptcb ≡ some q
  pub other : t ≢ curthread c w

module _ {c : Cpu} {q t : ℕ} {w : World} (d : Detached c q t w) where
  may_join_detached : may_join c t w ≡ some none
  unfolding may_join
  may_join_detached = ground (arith, d.block, d.main, d.live, d.owner, d.owner_ptcb, d.other)

  join_fails : sys_thread_join c (some t) w ≡ returned (minus_one, none) w
  unfolding sys_thread_join
  join_fails = rw may_join_detached refl

  -- The main thread of a process that exits while the first thread on its list is detached never
  -- leaves its loop, however many rounds it is given.
  pub join_all_hangs : (n : ℕ) → join_all n c (curproc c w) w ≡ none
  unfolding join_all
  join_all_hangs zero = refl
  join_all_hangs (suc n) =
      let (rest, l) = d.listed in
      let (b, e, f, g) = d.block in ground (arith, join_fails, join_all_hangs n)

-- Of two calls that wait for the same child, which has exited, the second one succeeds too when
-- the first has collected it: both return the child's pid and exit value, and the next two calls
-- of `acquire_PCB` give the same PCB.
pub await_specific_twice :
    (c c' : Cpu) (parent child : ℕ) (w : World)
    → is_alive (w.pcb child).pstate ≡ false
    → (w₁ : World) × (w₂ : World) × (await_specific c parent child w
        ≡ returned (pos child, some (w.pcb child).exitval) w₁)
      × (await_specific c' parent child w₁ ≡ returned (pos child, some (w.pcb child).exitval) w₂)
      × ((acquire_pcb w₂).0 ≡ some child)
      × ((acquire_pcb (acquire_pcb w₂).1).0 ≡ some child)
unfolding await_specific cleanup_zombie release_pcb acquire_pcb
await_specific_twice c c' parent child w h = (
  cleanup_zombie child w,
  cleanup_zombie child (cleanup_zombie child w),
  ground arith,
  ground arith,
  ground arith,
  ground arith,
)
