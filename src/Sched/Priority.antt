-- ===== src/Sched/Priority.antt =====
-- The dynamic priority of a thread: `restore_fairness` and `adjust_priority`.
use disasteros.Common.{ℕ, zero, suc, ◌<◌, ◌≡◌, ◌≢◌, refl, true, false, arith}
use disasteros.Sched.Thread.{
  SchedCause, quantum, io, mutex, pipe, poll, idle, user, Tcb, mfq_queues, restore_fairness,
  adjust_priority,
}

-- What `yield` makes of the current TCB before it looks at the state.
abbrev pub reprioritise : SchedCause → Tcb → Tcb
reprioritise cause b = adjust_priority cause (restore_fairness cause b)

-- Priorities that name a queue.
pub record InRange (b : Tcb) : Type 0 where
  pub priority : b.priority < mfq_queues
  pub remembered : b.mutex_contention ≡ true → b.prev_priority < mfq_queues

pub record SameButPriority (b b' : Tcb) : Type 0 where
  pub state : b'.state ≡ b.state
  pub phase : b'.phase ≡ b.phase
  pub type : b'.type ≡ b.type
  pub wakeup_time : b'.wakeup_time ≡ b.wakeup_time
  pub owner_pcb : b'.owner_pcb ≡ b.owner_pcb
  pub owner_ptcb : b'.owner_ptcb ≡ b.owner_ptcb

-- Whatever the cause, the new priority names a queue, and no other part of the TCB changes but the
-- record of a mutex contention.
pub reprioritise-InRange :
    (cause : SchedCause) {b : Tcb} → InRange b → InRange (reprioritise cause b)
unfolding restore_fairness adjust_priority
reprioritise-InRange quantum h = ground arith
reprioritise-InRange io h = ground arith
reprioritise-InRange mutex h = ground arith
reprioritise-InRange pipe h = ground arith
reprioritise-InRange poll h = ground arith
reprioritise-InRange idle h = ground arith
reprioritise-InRange user h = ground arith

pub reprioritise-same : (cause : SchedCause) (b : Tcb) → SameButPriority b (reprioritise cause b)
unfolding restore_fairness adjust_priority
reprioritise-same quantum b = ground arith
reprioritise-same io b = ground arith
reprioritise-same mutex b = ground arith
reprioritise-same pipe b = ground arith
reprioritise-same poll b = ground arith
reprioritise-same idle b = ground arith
reprioritise-same user b = ground arith

-- What `n` yields on a contended mutex make of a TCB.
pub contended : ℕ → Tcb → Tcb
contended zero b = b
contended (suc n) b = contended n (reprioritise mutex b)

contended-remembers :
    (n : ℕ) (b : Tcb)
    → b.mutex_contention ≡ true
    → ((contended n b).mutex_contention ≡ true) × ((contended n b).prev_priority ≡ b.prev_priority)
unfolding contended restore_fairness adjust_priority
contended-remembers zero b h = ground arith
contended-remembers (suc n) b h = ground (arith, contended-remembers n (reprioritise mutex b))

-- Yields on a contended mutex, however many, by a thread that had no contention, are undone by the
-- next yield for another cause: the priority is then that of before the first, moved by that cause
-- alone.
pub contended-restores :
    (n : ℕ) (cause : SchedCause) (b : Tcb)
    → cause ≢ mutex
    → b.mutex_contention ≡ false
    → (reprioritise cause (contended n b)).priority ≡ (reprioritise cause b).priority
unfolding contended restore_fairness adjust_priority
contended-restores zero cause b c h = refl
contended-restores (suc n) cause b c h =
    ground (arith, contended-remembers n (reprioritise mutex b))
