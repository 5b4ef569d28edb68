-- ===== src/Sched/Gain.antt =====
-- `gain`, in the state that `yield` hands over.
use disasteros.Common.{
  ℕ, ◌+◌, ◌*◌, ◌%◌, ◌≤◌, ◌≡◌, ◌≢◌, refl, inl, inr, ◌⊎◌, Bool, true, ◌||◌, some, [], ◌∷◌, arith,
  count-append, ◌==◌, if◌then◌else◌, Bool-cases, ◌>>=◌, update, subst, ◌∙◌,
}
use disasteros.Sched.Thread.{
  Sched, quantum_usec, u32_mod, ThreadState, init, ready, running, stopped, exited, ctx_clean,
  ctx_dirty, ThreadType, idle_thread, normal_thread, release_tcb, set_tcb,
}
use disasteros.Sched.Queue.{sched_queue_add}
use disasteros.Sched.Switch.{settle, gain}
use disasteros.Sched.Valid.{IsValid}
use disasteros.Sched.Handoff.{Handoff, OnCpu}

-- "Mark current state"
abbrev begun : ℕ → Sched → Sched
begun core s = record s {
  timeslices = (s.timeslices + 1) % u32_mod;
  tcb =
      update s.tcb (s.current_thread core)
        (record (s.tcb (s.current_thread core)) { state = running; phase = ctx_dirty });
}

-- "Take care of the previous thread"
abbrev cleaned : (core t : ℕ) → Sched → Sched
cleaned core t s = set_tcb t (record ((begun core s).tcb t) { phase = ctx_clean }) (begun core s)

-- The threads of the two ends of a switch, once the previous one is settled.
record Settled (core t : ℕ) (s s' : Sched) : Type 0 where
  valid : IsValid s'
  live : s'.live (s.current_thread core) ≡ true
  current : s'.current_thread ≡ s.current_thread
  state : (s'.tcb (s.current_thread core)).state ≡ running
  phase : (s'.tcb (s.current_thread core)).phase ≡ ctx_dirty

module _ {s : Sched} (core t : ℕ) (h : Handoff core t s) where
  open h use {valid as v}

  begun-Settled : s.current_thread core ≡ t → Settled core t s (begun core s)
  begun-Settled e = record {
    valid = record {
      timed = λ u. ground (arith, v.timed u, h.no_timer);
      listed = λ u. ground (arith, v.listed u);
      queued = λ p u. ground (arith, v.queued p u, h.unqueued p);
      enqueued = λ u. ground (arith, v.enqueued u);
      bounded = λ u. ground (arith, v.bounded u);
      remembered = λ u. ground (arith, v.remembered u);
    };
    live = h.live;
    current = refl;
    state = ground arith;
    phase = ground arith;
  }

  module _ (ne : s.current_thread core ≢ t) where
    added-Settled :
        (s.tcb t).state ≡ ready
        → (s.tcb t).type ≡ normal_thread
        → Settled core t s (sched_queue_add t (cleaned core t s))
    unfolding sched_queue_add
    added-Settled st ty = record {
      valid = record {
        timed = λ u. ground (arith, v.timed u, h.no_timer);
        listed = λ u. ground (arith, v.listed u);
        queued = λ p u. ground (
          arith,
          v.queued p u,
          v.queued p t,
          h.unqueued p,
          v.bounded t,
          h.old_live,
          h.old_dirty,
          count-append u (s.queue p) (t ∷ []),
        );
        enqueued = λ u. ground (
          arith,
          v.enqueued u,
          count-append u (s.queue (s.tcb u).priority) (t ∷ []),
          count-append u (s.queue (s.tcb t).priority) (t ∷ []),
        );
        bounded = λ u. ground (arith, v.bounded u);
        remembered = λ u. ground (arith, v.remembered u);
      };
      live = h.live;
      current = refl;
      state = ground arith;
      phase = ground arith;
    }

    kept-Settled :
        ((s.tcb t).state ≢ ready) ⊎ ((s.tcb t).type ≡ idle_thread)
        → Settled core t s (cleaned core t s)
    kept-Settled st = record {
      valid = record {
        timed = λ u. ground (arith, v.timed u, h.no_timer);
        listed = λ u. ground (arith, v.listed u);
        queued = λ p u. ground (arith, v.queued p u, v.queued p t, h.unqueued p, h.old_dirty);
        enqueued = λ u. ground (arith, v.enqueued u);
        bounded = λ u. ground (arith, v.bounded u);
        remembered = λ u. ground (arith, v.remembered u);
      };
      live = h.live;
      current = refl;
      state = ground arith;
      phase = ground arith;
    }

    released-Settled :
        (s.tcb t).state ≡ exited → Settled core t s (release_tcb t (cleaned core t s))
    unfolding release_tcb
    released-Settled st = record {
      valid = record {
        timed = λ u. ground (arith, v.timed u, h.no_timer);
        listed = λ u. ground (arith, v.listed u, v.timed t);
        queued = λ p u. ground (arith, v.queued p u, v.queued p t, h.unqueued p, h.old_dirty);
        enqueued = λ u. ground (arith, v.enqueued u);
        bounded = λ u. ground (arith, v.bounded u);
        remembered = λ u. ground (arith, v.remembered u);
      };
      live = ground (arith, h.live);
      current = refl;
      state = ground arith;
      phase = ground arith;
    }

    -- By the state and the type of the previous thread.
    settle_of :
        (st : ThreadState) (ty : ThreadType)
        → (s.tcb t).state ≡ st
        → (s.tcb t).type ≡ ty
        → (s' : Sched) × (settle t (cleaned core t s) ≡ some s') × Settled core t s s'
    unfolding settle
    settle_of ready normal_thread e f =
        (sched_queue_add t (cleaned core t s), ground arith, added-Settled e f)
    settle_of ready idle_thread e f = (cleaned core t s, ground arith, kept-Settled (inr f))
    settle_of stopped ty e f = (cleaned core t s, ground arith, kept-Settled (inl (ground arith)))
    settle_of exited ty e f = (release_tcb t (cleaned core t s), ground arith, released-Settled e)
    settle_of init ty e f = absurd (h.old_state.0 e)
    settle_of running ty e f = absurd (h.old_state.1 e)

  -- The common end: preemption and the alarm.
  finish : Bool → Sched → Sched
  finish preempt s' = record s' {
    preemption = update s'.preemption core (preempt || s'.preemption core);
    timer =
        update s'.timer core
          (some (quantum_usec * ((s'.tcb (s.current_thread core)).priority + 1)));
  }

  -- The outcome of `gain`: the thread that has the core is RUNNING, with an alarm set.
  pub record Gained (s' : Sched) : Type 0 where
    pub valid : IsValid s'
    pub on_cpu : OnCpu core s'
    pub current : s'.current_thread core ≡ s.current_thread core
    pub running : (s'.tcb (s.current_thread core)).state ≡ running
    pub alarm : (n : ℕ) × (s'.timer core ≡ some n) × (quantum_usec ≤ n) × (n ≤ 15 * quantum_usec)

  finish-Gained : (preempt : Bool) {s' : Sched} → Settled core t s s' → Gained (finish preempt s')
  unfolding finish
  finish-Gained preempt {s'} c = record {
    valid = record {
      timed = c.valid.timed;
      listed = c.valid.listed;
      queued = c.valid.queued;
      enqueued = c.valid.enqueued;
      bounded = c.valid.bounded;
      remembered = c.valid.remembered;
    };
    on_cpu = record {
      is_core = h.is_core;
      live = ground (arith, c.live, c.current);
      dirty = ground (arith, c.phase, c.current);
      started = ground (arith, c.state, c.current);
    };
    current = ground (arith, c.current);
    running = c.state;
    alarm = (
      quantum_usec * ((s'.tcb (s.current_thread core)).priority + 1),
      ground arith,
      omega arith,
      omega (arith, c.valid.bounded (s.current_thread core) c.live),
    );
  }

  gain_of :
      (preempt : Bool)
      → gain core preempt s ≡ (
          (if s.current_thread core == t then some (begun core s) else settle t (cleaned core t s))
          >>= λ s'. some (finish preempt s'))
  unfolding gain finish
  gain_of preempt =
      subst
        (λ p. gain core preempt s ≡ (
          (if s.current_thread core == p then some (begun core s) else settle p (cleaned core p s))
          >>= λ s'. some (finish preempt s')))
        h.prev refl

  -- In a state that `yield` leaves, `gain` passes its assertions, and the invariant of the
  -- scheduler holds again. The thread that got the core is RUNNING on it, and its alarm is set to
  -- between one and fifteen quanta.
  pub gain_lem : (preempt : Bool) → (s' : Sched) × (gain core preempt s ≡ some s') × Gained s'
  gain_lem preempt = elim (Bool-cases (s.current_thread core == t)) [
    | inl e ↦ (
      finish preempt (begun core s),
      gain_of preempt ∙ rw e refl,
      finish-Gained preempt (begun-Settled (ground arith)),
    )
    | inr e ↦
        let (s', r, c) = settle_of (ground arith) (s.tcb t).state (s.tcb t).type refl refl in
        (finish preempt s', gain_of preempt ∙ rw e (rw r refl), finish-Gained preempt c)
  ]
