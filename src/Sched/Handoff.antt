-- ===== src/Sched/Handoff.antt =====
-- The core changes hands: what `yield` leaves for `gain`.
use disasteros.Common.{ℕ, ◌<◌, ◌≡◌, ◌≢◌, true, List, ◌∷◌, arith, count, update}
use disasteros.Sched.Thread.{Sched, max_cores, no_timeout, init, running, ctx_dirty, idle_thread}
use disasteros.Sched.Switch.{switch_to}
use disasteros.Sched.Valid.{IsValid, on_core-update, on_core_self}

-- The thread that runs on a core: allocated, with its context on the CPU, and started.
pub record OnCpu (core : ℕ) (s : Sched) : Type 0 where
  pub is_core : core < max_cores
  pub live : s.live (s.current_thread core) ≡ true
  pub dirty : (s.tcb (s.current_thread core)).phase ≡ ctx_dirty
  pub started : (s.tcb (s.current_thread core)).state ≢ init

-- What `yield` on `core`, by the thread `t`, leaves for the `gain` of the thread that has the core
-- then. That thread is allocated, on no queue, and has no timeout; its `prev` is `t`. Unless it is
-- `t` itself, `t` is allocated, its context is still on the CPU, and it is READY, STOPPED or EXITED.
pub record Handoff (core t : ℕ) (s : Sched) : Type 0 where
  pub valid : IsValid s
  pub is_core : core < max_cores
  pub live : s.live (s.current_thread core) ≡ true
  pub unqueued : (p : ℕ) → count (s.current_thread core) (s.queue p) ≡ 0
  pub no_timer : (s.tcb (s.current_thread core)).wakeup_time ≡ no_timeout
  pub prev : (s.tcb (s.current_thread core)).prev ≡ t
  pub old_live : s.live t ≡ true
  pub old_dirty : (s.tcb t).phase ≡ ctx_dirty
  pub old_state : ((s.tcb t).state ≢ init) × ((s.tcb t).state ≢ running)

-- The idle thread of a core: allocated, and marked as idle.
pub record HasIdle (core : ℕ) (s : Sched) : Type 0 where
  pub idle_live : s.live core ≡ true
  pub idle_type : (s.tcb core).type ≡ idle_thread

-- A thread that has left the CPU, before the core is given away.
pub record Leaving (core t : ℕ) (s : Sched) : Type 0 where
  pub is_core : core < max_cores
  pub current : s.current_thread core ≡ t
  pub live : s.live t ≡ true
  pub dirty : (s.tcb t).phase ≡ ctx_dirty
  pub state : ((s.tcb t).state ≢ init) × ((s.tcb t).state ≢ running)

module _ {s : Sched} (core t : ℕ) (v : IsValid s) (c : Leaving core t s) where
  -- The next thread comes from the head of a queue.
  pub hand_queued :
      (p n : ℕ) (rest : List ℕ)
      → s.queue p ≡ n ∷ rest
      → Handoff core t (switch_to core n (record s { queue = update s.queue p rest }))
  unfolding switch_to
  hand_queued p n rest e =
      let q : 0 < count n (s.queue p) = ground arith in
      let (l, ty, pr, st, ph, one) = v.queued p n q in
      record {
        valid = record {
          timed = λ u. ground (arith, v.timed u);
          listed = λ u. ground (arith, v.listed u);
          queued = λ r u. ground (arith, v.queued r u);
          enqueued = λ u. ground (
            arith,
            v.enqueued u,
            c.dirty,
            c.current,
            on_core-update max_cores u core n s.current_thread,
            on_core_self max_cores core n s.current_thread c.is_core,
          );
          bounded = λ u. ground (arith, v.bounded u);
          remembered = λ u. ground (arith, v.remembered u);
        };
        is_core = c.is_core;
        live = ground arith;
        unqueued = λ r. ground (arith, v.queued r n);
        no_timer = ground (arith, v.timed n);
        prev = ground (arith, c.current);
        old_live = c.live;
        old_dirty = ground (arith, c.dirty);
        old_state = (ground (arith, c.state), ground (arith, c.state));
      }

  -- The next thread is on no queue: the same thread again, or the idle thread.
  pub hand_unqueued :
      (n : ℕ)
      → s.live n ≡ true
      → ((p : ℕ) → count n (s.queue p) ≡ 0)
      → (s.tcb n).wakeup_time ≡ no_timeout
      → Handoff core t (switch_to core n s)
  unfolding switch_to
  hand_unqueued n l q w = record {
    valid = record {
      timed = λ u. ground (arith, v.timed u);
      listed = λ u. ground (arith, v.listed u);
      queued = λ r u. ground (arith, v.queued r u);
      enqueued = λ u. ground (
        arith,
        v.enqueued u,
        c.dirty,
        c.current,
        on_core-update max_cores u core n s.current_thread,
        on_core_self max_cores core n s.current_thread c.is_core,
      );
      bounded = λ u. ground (arith, v.bounded u);
      remembered = λ u. ground (arith, v.remembered u);
    };
    is_core = c.is_core;
    live = ground arith;
    unqueued = λ r. ground (arith, q r);
    no_timer = ground arith;
    prev = ground (arith, c.current);
    old_live = c.live;
    old_dirty = ground (arith, c.dirty);
    old_state = (ground (arith, c.state), ground (arith, c.state));
  }
