-- ===== src/Sched/Sleep.antt =====
-- `sched_register_timeout` and `sleep_releasing` on a valid scheduler.
use disasteros.Common.{
  ℕ, ◌+◌, ◌%◌, ◌≤◌, ◌<◌, ◌≡◌, ◌≢◌, inl, inr, Bool, true, some, List, [], ◌∷◌, arith, count, ltb,
  ◌==◌, if◌then◌else◌, Bool-cases, update, subst, ap, ◌∙◌,
}
use disasteros.Sched.Thread.{
  Tcb, Sched, no_timeout, u64_mod, ThreadState, init, ready, running, stopped, exited,
  normal_thread, SchedCause, set_tcb,
}
use disasteros.Sched.Queue.{insert_by_wakeup, sched_register_timeout}
use disasteros.Sched.Switch.{may_sleep, sleep_releasing}
use disasteros.Sched.Valid.{IsValid, Sorted}
use disasteros.Sched.Handoff.{OnCpu, HasIdle, Handoff}
use disasteros.Sched.Yield.{yield-Handoff}

module _ (tcb : ℕ → Tcb) (t : ℕ) where
  count-insert :
      (u : ℕ) (ts : List ℕ)
      → count u (insert_by_wakeup tcb t ts) ≡ count u ts + (if u == t then 1 else 0)
  unfolding insert_by_wakeup
  count-insert u [] = ground arith
  count-insert u (n ∷ ns) = ground (arith, count-insert u ns)

  insert-behind :
      (n : ℕ) (ns : List ℕ)
      → (tcb n).wakeup_time ≤ (tcb t).wakeup_time
      → Sorted tcb (n ∷ ns)
      → Sorted tcb (n ∷ insert_by_wakeup tcb t ns)
  unfolding insert_by_wakeup
  insert-behind n [] h s = (h, tt)
  insert-behind n (m ∷ ms) h s = ground (arith, insert-behind m ms)

  -- The timeout list stays in the order of the wakeup times, and the new thread stands behind those
  -- with the same time.
  insert-Sorted : (ts : List ℕ) → Sorted tcb ts → Sorted tcb (insert_by_wakeup tcb t ts)
  unfolding insert_by_wakeup
  insert-Sorted [] s = tt
  insert-Sorted (n ∷ ns) s = elim (Bool-cases (ltb (tcb t).wakeup_time (tcb n).wakeup_time)) [
    | inl h ↦ rw h (ground arith, s)
    | inr h ↦ rw h (insert-behind n ns (ground arith) s)
  ]

-- A list is sorted by the times of its own threads only.
Sorted-update :
    (tcb : ℕ → Tcb) (t : ℕ) (b : Tcb) (ts : List ℕ)
    → count t ts ≡ 0
    → Sorted tcb ts
    → Sorted (update tcb t b) ts
Sorted-update tcb t b [] h s = tt
Sorted-update tcb t b (n ∷ []) h s = tt
Sorted-update tcb t b (n ∷ m ∷ ms) h s =
    (ground arith, Sorted-update tcb t b (m ∷ ms) (ground arith) s.1)

-- A timeout that does not wrap round, nor falls on the value that means none.
abbrev pub FitsTimeout : (timeout curtime : ℕ) → Type 0
FitsTimeout timeout curtime = timeout ≢ no_timeout → curtime + timeout < no_timeout

-- Registering the timeout of a thread that has none keeps the timeout list sorted by wakeup time,
-- and adds that thread to it, once, unless there is no timeout.
pub sched_register_timeout-Sorted :
    (t timeout curtime : ℕ) (s : Sched)
    → count t s.timeout_list ≡ 0
    → Sorted s.tcb s.timeout_list
    → let s' = sched_register_timeout t timeout curtime s in
      Sorted s'.tcb s'.timeout_list
      × ((u : ℕ)
          → count u s'.timeout_list
            ≡ count u s.timeout_list
              + (if timeout == no_timeout then 0 else if u == t then 1 else 0))
unfolding sched_register_timeout
sched_register_timeout-Sorted t timeout curtime s h sorted =
    elim (Bool-cases (timeout == no_timeout)) [
      | inl e ↦ rw e (sorted, λ u. omega arith)
      | inr e ↦ rw e (
        insert-Sorted _ t s.timeout_list (Sorted-update s.tcb t _ s.timeout_list h sorted),
        λ u. count-insert _ t u s.timeout_list,
      )
    ]

abbrev marked : ℕ → ThreadState → Sched → Sched
marked t st s = set_tcb t (record (s.tcb t) { state = st }) s

-- The thread that is about to sleep: it runs, and is not an idle thread.
pub record MaySleep (core : ℕ) (s : Sched) : Type 0 where
  pub on_cpu : OnCpu core s
  pub running : (s.tcb (s.current_thread core)).state ≡ running
  pub normal : (s.tcb (s.current_thread core)).type ≡ normal_thread

module _ {s : Sched} (core : ℕ) (v : IsValid s) (c : MaySleep core s) where
  marked-IsValid : (st : ThreadState) → st ≢ ready → IsValid (marked (s.current_thread core) st s)
  marked-IsValid st h = record {
    timed = λ u. ground (arith, v.timed u, c.running);
    listed = λ u. ground (arith, v.listed u);
    queued = λ p u. ground (arith, v.queued p u, c.running);
    enqueued = λ u. ground (arith, v.enqueued u);
    bounded = λ u. ground (arith, v.bounded u);
    remembered = λ u. ground (arith, v.remembered u);
  }

  -- A thread that runs has no timeout.
  no_timer_running : (s.tcb (s.current_thread core)).wakeup_time ≡ no_timeout
  no_timer_running = elim (Bool-cases ((s.tcb (s.current_thread core)).wakeup_time == no_timeout)) [
    | inl e ↦ ground arith
    | inr e ↦ ground (arith, v.timed (s.current_thread core), c.on_cpu.live, c.running)
  ]

module _ {s : Sched} (t timeout curtime : ℕ) (v : IsValid s) (l : s.live t ≡ true)
    (st : (s.tcb t).state ≡ stopped) (n : (s.tcb t).type ≡ normal_thread)
    (w : (s.tcb t).wakeup_time ≡ no_timeout) (f : FitsTimeout timeout curtime) where
  registered-IsValid : IsValid (sched_register_timeout t timeout curtime s)
  unfolding sched_register_timeout
  registered-IsValid = elim (Bool-cases (timeout == no_timeout)) [
    | inl e ↦ rw e v
    | inr e ↦
        let fits : curtime + timeout < no_timeout = ground arith in
        let tcb' : ℕ → Tcb =
          update s.tcb t (record (s.tcb t) { wakeup_time = (curtime + timeout) % u64_mod }) in
        rw e (record {
          timed = λ u. ground (arith, v.timed u, v.listed t, count-insert tcb' t u s.timeout_list);
          listed = λ u. ground (arith, v.listed u, count-insert tcb' t u s.timeout_list);
          queued = λ p u. ground (arith, v.queued p u);
          enqueued = λ u. ground (arith, v.enqueued u);
          bounded = λ u. ground (arith, v.bounded u);
          remembered = λ u. ground (arith, v.remembered u);
        })
  ]

  registered-frame :
      (u : ℕ)
      → let s' = sched_register_timeout t timeout curtime s in
        (s'.current_thread ≡ s.current_thread)
        × (s'.live ≡ s.live)
        × (s'.preemption ≡ s.preemption)
        × ((s'.tcb u).phase ≡ (s.tcb u).phase)
        × ((s'.tcb u).type ≡ (s.tcb u).type)
        × ((s'.tcb u).state ≡ (s.tcb u).state)
  unfolding sched_register_timeout
  registered-frame u = ground arith

-- `sleep_releasing`, called by a thread that runs and is no idle thread, on a core with an idle
-- thread, passes every assertion for both of its states, if the timeout does not wrap round. It
-- returns whether preemption was on, and hands the core on in a state that is fit for `gain`: the
-- invariant holds.
pub sleep_releasing-Handoff :
    (core : ℕ) (st : ThreadState) (cause : SchedCause) (timeout curtime later : ℕ) {s : Sched}
    → IsValid s
    → MaySleep core s
    → HasIdle core s
    → may_sleep st ≡ true
    → FitsTimeout timeout curtime
    → (s' : Sched) × (sleep_releasing core st cause timeout curtime later s
        ≡ some (s.preemption core, s'))
      × Handoff core (s.current_thread core) s'
unfolding sleep_releasing
sleep_releasing-Handoff core exited cause timeout curtime later {s} v c i h f =
    yield-Handoff core cause later {s = marked (s.current_thread core) exited s}
      (marked-IsValid core v c exited (ground arith))
      (record {
        is_core = c.on_cpu.is_core;
        live = c.on_cpu.live;
        dirty = ground (arith, c.on_cpu.dirty);
        started = ground arith;
      })
      (record { idle_live = i.idle_live; idle_type = ground (arith, i.idle_type) })
sleep_releasing-Handoff core stopped cause timeout curtime later {s} v c i h f =
    let t = s.current_thread core in
    let m = marked t stopped s in
    let v₁ = marked-IsValid core v c stopped (ground arith) in
    let no_timer : (s.tcb t).wakeup_time ≡ no_timeout = no_timer_running core v c in
    let v₂ =
      registered-IsValid {s = m} t timeout curtime v₁ c.on_cpu.live (ground arith)
        (ground (arith, c.normal)) (ground arith) f in
    let fr =
      registered-frame {s = m} t timeout curtime v₁ c.on_cpu.live (ground arith)
        (ground (arith, c.normal)) (ground arith) f in
    let (a, b, d, _, _, _) = fr t in
    let s₂ = sched_register_timeout t timeout curtime m in
    let (s', e, g) =
      yield-Handoff core cause later {s = s₂} v₂
        (record {
          is_core = c.on_cpu.is_core;
          live = ground (arith, a, b, c.on_cpu.live);
          dirty = ground (arith, a, fr t, c.on_cpu.dirty);
          started = ground (arith, a, fr t);
        })
        (record {
          idle_live = ground (arith, b, i.idle_live);
          idle_type = ground (arith, fr core, i.idle_type);
        }) in
    (
      s',
      e ∙ ap (λ (p : ℕ → Bool). some (p core, s')) d,
      subst (λ (g : ℕ → ℕ). Handoff core (g core) s') a g,
    )
sleep_releasing-Handoff core init cause timeout curtime later v c i h f = cc
sleep_releasing-Handoff core ready cause timeout curtime later v c i h f = cc
sleep_releasing-Handoff core running cause timeout curtime later v c i h f = cc
