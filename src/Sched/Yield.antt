-- ===== src/Sched/Yield.antt =====
-- `yield` on a valid scheduler.
use disasteros.Common.{
  ℕ, ◌≡◌, ◌≢◌, refl, inl, inr, ◌⊎◌, Bool, true, false, Option, none, some, arith, leb, ◌==◌,
  Bool-cases, update, ap, ◌∙◌,
}
use disasteros.Sched.Thread.{
  Sched, mfq_timeslices, no_timeout, ThreadState, init, ready, running, SchedCause, leave_cpu,
}
use disasteros.Sched.Priority.{reprioritise, InRange, reprioritise-InRange, reprioritise-same}
use disasteros.Sched.Switch.{retire, boost_when_due, choose, switch_to, yield}
use disasteros.Sched.Valid.{IsValid}
use disasteros.Sched.Boost.{sched_boost-IsValid, sched_boost-frame}
use disasteros.Sched.Expiry.{Wakened, Popped, sched_queue_select_lem}
use disasteros.Sched.Handoff.{OnCpu, HasIdle, Handoff, Leaving, hand_queued, hand_unqueued}

-- The state in which the thread that yields leaves the CPU.
abbrev left : ThreadState → ThreadState
left running = ready
left st = st

abbrev is_ready : ThreadState → Bool
is_ready ready = true
is_ready _ = false

abbrev retired : ℕ → SchedCause → Sched → Sched
retired core cause s = record s {
  tcb = update s.tcb t (record (reprioritise cause (s.tcb t)) { state = left (s.tcb t).state });
  timer = update s.timer core none;
  preemption = update s.preemption core false;
}
  where
    t : ℕ
    t = s.current_thread core

retire_lem :
    (core : ℕ) (cause : SchedCause) (s : Sched)
    → (s.tcb (s.current_thread core)).state ≢ init
    → retire core cause s
      ≡ some (is_ready (left (s.tcb (s.current_thread core)).state), retired core cause s)
unfolding retire leave_cpu
retire_lem core cause s h = ground arith

module _ {s : Sched} (core : ℕ) (cause : SchedCause) (v : IsValid s) (c : OnCpu core s) where
  range : InRange (s.tcb (s.current_thread core))
  range = record { priority = v.bounded _ c.live; remembered = v.remembered _ c.live }

  retired-IsValid : IsValid (retired core cause s)
  retired-IsValid =
      let t = s.current_thread core in
      let r = reprioritise-InRange cause range in
      let k = reprioritise-same cause (s.tcb t) in
      record {
        timed = λ u. ground (arith, v.timed u, k, c.live);
        listed = λ u. ground (arith, v.listed u, k);
        queued = λ p u. ground (arith, v.queued p u, v.queued p t, k, c.dirty);
        enqueued = λ u. ground (arith, v.enqueued u, k, c.dirty);
        bounded = λ u. ground (arith, v.bounded u, r);
        remembered = λ u. ground (arith, v.remembered u, r.remembered);
      }

-- What the boost and the waking of expired threads keep of a thread.
record Kept (s s' : Sched) : Type 0 where
  valid : IsValid s'
  live : (u : ℕ) → s'.live u ≡ s.live u
  current : (core : ℕ) → s'.current_thread core ≡ s.current_thread core
  phase : (u : ℕ) → (s'.tcb u).phase ≡ (s.tcb u).phase
  type : (u : ℕ) → (s'.tcb u).type ≡ (s.tcb u).type
  state : (u : ℕ) → ((s'.tcb u).state ≡ (s.tcb u).state) ⊎ ((s'.tcb u).state ≡ ready)

boost_when_due-Kept : {s : Sched} → IsValid s → Kept s (boost_when_due s)
unfolding boost_when_due
boost_when_due-Kept {s} v = elim (Bool-cases (leb mfq_timeslices s.timeslices)) [
  | inl h ↦
      let r : Sched = record s { timeslices = 0 } in
      let (a, b, c, d, e, f) = sched_boost-frame r in
      rw h (record {
        valid = sched_boost-IsValid (reset v);
        live = λ u. ap (λ (g : ℕ → Bool). g u) c;
        current = λ u. ap (λ (g : ℕ → ℕ). g u) b;
        phase = d;
        type = e;
        state = λ u. inl (f u);
      })
  | inr h ↦ rw h (record {
    valid = v;
    live = λ u. refl;
    current = λ u. refl;
    phase = λ u. refl;
    type = λ u. refl;
    state = λ u. inl refl;
  })
]
  where
    reset : IsValid s → IsValid (record s { timeslices = 0 })
    reset v = record {
      timed = v.timed;
      listed = v.listed;
      queued = v.queued;
      enqueued = v.enqueued;
      bounded = v.bounded;
      remembered = v.remembered;
    }

Wakened-Kept : {curtime : ℕ} {s s' s'' : Sched} → Kept s s' → Wakened curtime s' s'' → Kept s s''
Wakened-Kept k w = record {
  valid = w.valid;
  live = λ u. w.live u ∙ k.live u;
  current = λ u. w.current u ∙ k.current u;
  phase = λ u. w.phase u ∙ k.phase u;
  type = λ u. w.type u ∙ k.type u;
  state = λ u. ground (arith, w.state u, k.state u);
}

-- The choice of the next thread.
module _ {s : Sched} (core t : ℕ) (ready_now : Bool) (v : IsValid s) (c : Leaving core t s)
    (again : ready_now ≡ true → (s.tcb t).state ≡ ready) (i : HasIdle core s) where
  choose-Handoff :
      (r : Option ℕ × Sched)
      → Popped 0 s r
      → Handoff core t (switch_to core (choose r.0 ready_now t core) r.1)
  choose-Handoff (some n, s') (p, rest, h, e, same, before) =
      rw same (hand_queued core t v c p n rest e)
  choose-Handoff (none, s') (same, empty) = elim (Bool-cases ready_now) [
    | inl yes_ready ↦
        rw (same, yes_ready)
          (hand_unqueued core t v c t c.live (λ p. ground (arith, v.queued p t, c.dirty))
            (elim (Bool-cases ((s.tcb t).wakeup_time == no_timeout)) [
              | inl z ↦ ground arith
              | inr z ↦ ground (arith, v.timed t, c.live, again)
            ]))
    | inr not_ready ↦
        rw (same, not_ready)
          (hand_unqueued core t v c core i.idle_live
            (λ p. ground (arith, v.queued p core, i.idle_type))
            (elim (Bool-cases ((s.tcb core).wakeup_time == no_timeout)) [
              | inl z ↦ ground arith
              | inr z ↦ ground (arith, v.timed core, v.listed core, i.idle_live, i.idle_type)
            ]))
  ]

-- On a valid scheduler, `yield` called by the thread that runs on a core that has its idle thread
-- passes every assertion, whatever the cause, and returns whether preemption was on. It leaves a
-- state that is fit for `gain`: the invariant holds, the thread that gets the core is allocated,
-- is on no queue and has no timeout, and its `prev` is the thread that yielded.
pub yield-Handoff :
    (core : ℕ) (cause : SchedCause) (curtime : ℕ) {s : Sched}
    → IsValid s
    → OnCpu core s
    → HasIdle core s
    → (s' : Sched) × (yield core cause curtime s ≡ some (s.preemption core, s'))
      × Handoff core (s.current_thread core) s'
unfolding yield
yield-Handoff core cause curtime {s} v c i =
    let t = s.current_thread core in
    let s₁ = retired core cause s in
    let k₁ = boost_when_due-Kept (retired-IsValid core cause v c) in
    let (s₂, r, e, w, popped) = sched_queue_select_lem curtime k₁.valid in
    let k = Wakened-Kept k₁ w in
    let same = reprioritise-same cause (s.tcb t) in
    (
      switch_to core (choose r.0 (is_ready (left (s.tcb t).state)) t core) r.1,
      rw (retire_lem core cause s c.started) (rw e refl),
      choose-Handoff core t (is_ready (left (s.tcb t).state)) k.valid
          (record {
            is_core = c.is_core;
            current = k.current core;
            live = k.live t ∙ c.live;
            dirty = ground (arith, k.phase t, same, c.dirty);
            state = (ground (arith, k.state t, c.started), ground (arith, k.state t));
          })
          (λ h. ground (arith, k.state t))
          (record {
            idle_live = k.live core ∙ i.idle_live;
            idle_type = ground (arith, k.type core, same, i.idle_type);
          })
          r popped,
    )
