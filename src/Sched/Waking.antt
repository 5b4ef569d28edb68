-- ===== src/Sched/Waking.antt =====
-- Waking a thread: `cancel_timeout`, `sched_make_ready` and `wakeup` on a valid scheduler.
use disasteros.Common.{
  ℕ, ◌≡◌, ◌≢◌, refl, inl, inr, Bool, true, false, some, [], ◌∷◌, arith, erase, count-erase,
  count-append, update, has_of_count, Bool-cases, ◌==◌, if◌then◌else◌, ◌⊎◌, subst, sym,
}
use disasteros.Sched.Thread.{ready, Sched, no_timeout, normal_thread}
use disasteros.Sched.Queue.{cancel_timeout, enter_ready, sched_make_ready, wakeup, may_wake}
use disasteros.Sched.Valid.{IsValid}

-- A thread that may wake passes the assertions of `cancel_timeout`.
cancel_timeout-total :
    {s : Sched} (t : ℕ)
    → IsValid s
    → s.live t ≡ true
    → may_wake (s.tcb t).state ≡ true
    → (s' : Sched) × (cancel_timeout t s ≡ some s')
unfolding cancel_timeout
cancel_timeout-total {s} t v l h = elim (Bool-cases ((s.tcb t).wakeup_time == no_timeout)) [
  | inl e ↦ (s, ground arith)
  | inr e ↦ (
    record s {
      tcb = update s.tcb t (record (s.tcb t) { wakeup_time = no_timeout });
      timeout_list = erase t s.timeout_list;
      queue = λ i. erase t (s.queue i);
    },
    ground (arith, v.timed t, has_of_count t s.timeout_list),
  )
]

module _ {s s' : Sched} (t : ℕ) (v : IsValid s) (l : s.live t ≡ true)
    (h : may_wake (s.tcb t).state ≡ true) (e : cancel_timeout t s ≡ some s') where
  cancel_timeout-IsValid : IsValid s'
  unfolding cancel_timeout
  cancel_timeout-IsValid = record {
    timed = λ u. ground (arith, v.timed u, v.timed t, count-erase t u s.timeout_list);
    listed = λ u. ground (
      arith,
      v.listed u,
      v.timed t,
      count-erase t u s.timeout_list,
      has_of_count t s.timeout_list,
    );
    queued = λ p u. ground (arith, v.queued p u, v.queued p t, count-erase t u (s.queue p));
    enqueued = λ u. ground (arith, v.enqueued u, count-erase t u (s.queue (s.tcb u).priority));
    bounded = λ u. ground (arith, v.bounded u);
    remembered = λ u. ground (arith, v.remembered u);
  }

  -- Nothing of the thread has changed but its timeout.
  cancel_timeout-tcb : s'.tcb t ≡ record (s.tcb t) { wakeup_time = no_timeout }
  unfolding cancel_timeout
  cancel_timeout-tcb = ground arith

  cancel_timeout-live : s'.live t ≡ true
  unfolding cancel_timeout
  cancel_timeout-live = ground arith

enter_ready-IsValid :
    {s : Sched} (t : ℕ)
    → IsValid s
    → s.live t ≡ true
    → may_wake (s.tcb t).state ≡ true
    → (s.tcb t).wakeup_time ≡ no_timeout
    → (s.tcb t).type ≡ normal_thread
    → IsValid (enter_ready t s)
unfolding enter_ready
enter_ready-IsValid {s} t v l h w n = record {
  timed = λ u. ground (arith, v.timed u);
  listed = λ u. ground (arith, v.listed u);
  queued = λ p u.
      ground (arith, v.queued p u, v.queued p t, v.bounded t, count-append u (s.queue p) (t ∷ []));
  enqueued =
      λ u. ground (arith, v.enqueued u, count-append u (s.queue (s.tcb u).priority) (t ∷ []));
  bounded = λ u. ground (arith, v.bounded u);
  remembered = λ u. ground (arith, v.remembered u);
}

-- What the waking of `t` leaves: a valid scheduler, in which `t` is READY without a timeout, is off
-- the timeout list, and every other thread, and who runs, is as before.
pub record Woken (t : ℕ) (s s' : Sched) : Type 0 where
  pub valid : IsValid s'
  pub state : (s'.tcb t).state ≡ ready
  pub phase : (s'.tcb t).phase ≡ (s.tcb t).phase
  pub owner : (s'.tcb t).owner_ptcb ≡ (s.tcb t).owner_ptcb
  pub type : (s'.tcb t).type ≡ (s.tcb t).type
  pub timeout : (s'.tcb t).wakeup_time ≡ no_timeout
  pub others : (u : ℕ) → u ≢ t → s'.tcb u ≡ s.tcb u
  pub live : (u : ℕ) → s'.live u ≡ s.live u
  pub current : (core : ℕ) → s'.current_thread core ≡ s.current_thread core
  pub off_list :
      s'.timeout_list
      ≡ (if (s.tcb t).wakeup_time == no_timeout then s.timeout_list else erase t s.timeout_list)

module _ (s : Sched) {s' : Sched} (t : ℕ) (e : cancel_timeout t s ≡ some s') where
  enter_ready-others : (u : ℕ) → u ≢ t → (enter_ready t s').tcb u ≡ s.tcb u
  unfolding cancel_timeout enter_ready
  enter_ready-others u h = ground arith

  enter_ready-live : (u : ℕ) → (enter_ready t s').live u ≡ s.live u
  unfolding cancel_timeout enter_ready
  enter_ready-live u = ground arith

  enter_ready-current : (core : ℕ) → (enter_ready t s').current_thread core ≡ s.current_thread core
  unfolding cancel_timeout enter_ready
  enter_ready-current core = ground arith

  enter_ready_self :
      (enter_ready t s').tcb t ≡ record (s.tcb t) { state = ready; wakeup_time = no_timeout }
  unfolding cancel_timeout enter_ready
  enter_ready_self = ground arith

  enter_ready-off_list :
      (enter_ready t s').timeout_list
      ≡ (if (s.tcb t).wakeup_time == no_timeout then s.timeout_list else erase t s.timeout_list)
  unfolding cancel_timeout enter_ready
  enter_ready-off_list = ground arith

-- `sched_make_ready` passes its assertions on a thread that is STOPPED or INIT.
pub sched_make_ready-Woken :
    {s : Sched} (t : ℕ)
    → IsValid s
    → s.live t ≡ true
    → (s.tcb t).type ≡ normal_thread
    → may_wake (s.tcb t).state ≡ true
    → (s' : Sched) × (sched_make_ready t s ≡ some s') × Woken t s s'
unfolding sched_make_ready
sched_make_ready-Woken {s} t v l n h =
    let (s', e) = cancel_timeout-total t v l h in
    let b = cancel_timeout-tcb t v l h e in
    (
      enter_ready t s',
      rw (h, e) refl,
      record {
        valid =
            enter_ready-IsValid t (cancel_timeout-IsValid t v l h e) (cancel_timeout-live t v l h e)
              (rw b h) (rw b refl) (rw b n);
        state = rw (enter_ready_self s t e) refl;
        phase = rw (enter_ready_self s t e) refl;
        owner = rw (enter_ready_self s t e) refl;
        type = rw (enter_ready_self s t e) refl;
        timeout = rw (enter_ready_self s t e) refl;
        others = enter_ready-others s t e;
        live = enter_ready-live s t e;
        current = enter_ready-current s t e;
        off_list = enter_ready-off_list s t e;
      },
    )

-- The two outcomes of `wakeup`.
abbrev pub Wakes : ℕ → Sched → Sched × Bool → Type 0
Wakes t s (s', b) =
    ((may_wake (s.tcb t).state ≡ true) × (b ≡ true) × Woken t s s')
    ⊎ ((may_wake (s.tcb t).state ≡ false) × (b ≡ false) × (s' ≡ s))

-- On an allocated thread, not an idle one, of a valid scheduler `wakeup` passes every assertion. If the thread was
-- STOPPED or INIT it returns 1, and the thread is READY with no timeout, no other thread has
-- changed, and the invariant holds; else it returns 0 and changes nothing.
pub wakeup_lem :
    {s : Sched} (t : ℕ)
    → IsValid s
    → s.live t ≡ true
    → (s.tcb t).type ≡ normal_thread
    → (r : Sched × Bool) × (wakeup t s ≡ some r) × Wakes t s r
unfolding wakeup
wakeup_lem {s} t v l n = elim (Bool-cases (may_wake (s.tcb t).state)) [
  | inl h ↦
      let (s', e, w) = sched_make_ready-Woken t v l n h in
      ((s', true), rw (h, e) refl, inl (h, refl, w))
  | inr h ↦ ((s, false), rw h refl, inr (h, refl, refl))
]

pub wakeup-IsValid : {s : Sched} (t : ℕ) (r : Sched × Bool) → IsValid s → Wakes t s r → IsValid r.0
wakeup-IsValid t r v (inl (_, _, w)) = w.valid
wakeup-IsValid {s} t (s', b) v (inr (_, _, e)) = subst IsValid (sym e) v
