-- ===== src/Proc/Spawn.antt =====
-- A new thread: `spawn_thread`, its links, and `wakeup`.
use disasteros.Common.{
  ℕ, zero, suc, ◌<◌, ◌≡◌, ◌≢◌, refl, ◌∙◌, true, false, some, arith, count, inl, inr,
}
use disasteros.Sched.Thread.{
  Sched, ready, init, normal_thread, ctx_clean, spawn_thread, set_tcb, max_cores,
}
use disasteros.Sched.Valid.{IsValid, on_core}
use disasteros.Sched.Waking.{wakeup_lem}
use disasteros.Proc.Exec.{start_thread}

on_core-same :
    (n t : ℕ) (f g : ℕ → ℕ) → ((core : ℕ) → g core ≡ f core) → on_core n t g ≡ on_core n t f
on_core-same zero t f g h = refl
on_core-same (suc n) t f g h = ground (arith, h n, on_core-same n t f g h)

abbrev spawned : (t q pcb : ℕ) → Sched → Sched
spawned t q pcb s =
    set_tcb t (record ((spawn_thread t pcb s).tcb t) { owner_ptcb = some q }) (spawn_thread t pcb s)

module _ {s : Sched} (t q pcb : ℕ) (v : IsValid s) (new : s.live t ≡ false) where
  spawned-IsValid : IsValid (spawned t q pcb s)
  unfolding spawn_thread
  spawned-IsValid = record {
    timed = λ u. ground (arith, v.timed u);
    listed = λ u. ground (arith, v.listed u);
    queued = λ p u. ground (arith, v.queued p u);
    enqueued = λ u. ground (arith, v.enqueued u);
    bounded = λ u. ground (arith, v.bounded u);
    remembered = λ u. ground (arith, v.remembered u);
  }

  spawned_self :
      ((spawned t q pcb s).live t ≡ true)
      × (((spawned t q pcb s).tcb t).type ≡ normal_thread)
      × (((spawned t q pcb s).tcb t).state ≡ init)
      × (((spawned t q pcb s).tcb t).phase ≡ ctx_clean)
      × (((spawned t q pcb s).tcb t).owner_ptcb ≡ some q)
  unfolding spawn_thread
  spawned_self = (ground arith, ground arith, ground arith, ground arith, ground arith)

  spawned-others : (u : ℕ) → u ≢ t → (spawned t q pcb s).tcb u ≡ s.tcb u
  unfolding spawn_thread
  spawned-others u ne = ground arith

  spawned-current : (core : ℕ) → (spawned t q pcb s).current_thread core ≡ s.current_thread core
  unfolding spawn_thread
  spawned-current core = refl

  -- On a valid scheduler, for a block `t` that holds no thread and is on no core, `start_thread`
  -- passes every assertion. The new thread is READY and on the queue of its priority, the
  -- invariant holds, and no other thread has changed.
  pub start_thread_lem :
      on_core max_cores t s.current_thread ≡ false
      → (s' : Sched) × (start_thread t q pcb s ≡ some s')
        × IsValid s'
        × ((s'.tcb t).state ≡ ready)
        × (0 < count t (s'.queue (s'.tcb t).priority))
        × ((u : ℕ) → u ≢ t → s'.tcb u ≡ s.tcb u)
        × ((s'.tcb t).owner_ptcb ≡ some q)
  unfolding start_thread
  start_thread_lem off =
      let (l, ty, st, ph, ow) = spawned_self in
      let ((s', b), e, how) = wakeup_lem t spawned-IsValid l ty in
      elim how [
        | inr (asleep, _, _) ↦ absurd (ground (arith, st))
        | inl (h, f, r) ↦ (
          s',
          rw e refl,
          r.valid,
          r.state,
          r.valid.enqueued t (r.live t ∙ l) r.state (r.phase ∙ ph) (r.type ∙ ty) (
              on_core-same max_cores t s.current_thread s'.current_thread
                (λ core. r.current core ∙ spawned-current core)
              ∙ off),
          λ u ne. r.others u ne ∙ spawned-others u ne,
          r.owner ∙ ow,
        )
      ]
