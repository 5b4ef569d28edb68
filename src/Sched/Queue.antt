-- ===== src/Sched/Queue.antt =====
-- The scheduler queues and the timeout list: registering a timeout, waking, selecting, boosting.
use disasteros.Common.{
  ℕ, zero, suc, ◌+◌, ◌-◌, ◌%◌, Bool, true, false, ◌&&◌, ◌||◌, Option, none, some, List, [], ◌∷◌,
  ◌++◌, ltb, ◌==◌, if◌then◌else◌, update, ◌>>=◌, has, erase, length,
}
use disasteros.Sched.Thread.{
  ThreadState, init, ready, stopped, ThreadPhase, ctx_clean, ctx_dirty, Tcb, Sched, no_timeout,
  u64_mod, mfq_queues, set_tcb, dec32,
}

-- The walk over TIMEOUT_LIST, which skips earlier entries, and the insertion behind them.
unfoldable pub insert_by_wakeup : (ℕ → Tcb) → ℕ → List ℕ → List ℕ
insert_by_wakeup tcb t [] = t ∷ []
insert_by_wakeup tcb t (n ∷ ns) =
    if ltb (tcb t).wakeup_time (tcb n).wakeup_time
    then t ∷ n ∷ ns
    else n ∷ insert_by_wakeup tcb t ns

-- `curtime` is what `bios_clock` returns.
unfoldable pub sched_register_timeout : ℕ → (timeout curtime : ℕ) → Sched → Sched
sched_register_timeout t timeout curtime s =
    if timeout == no_timeout
    then s
    else record s { tcb = tcb; timeout_list = insert_by_wakeup tcb t s.timeout_list }
  where
    tcb : ℕ → Tcb
    tcb = update s.tcb t (record (s.tcb t) { wakeup_time = (curtime + timeout) % u64_mod })

-- `cpu_core_restart_one` wakes a halted core, which is not part of the state.
unfoldable pub sched_queue_add : ℕ → Sched → Sched
sched_queue_add t s = record s { queue = update s.queue p (s.queue p ++ t ∷ []) }
  where
    p : ℕ
    p = (s.tcb t).priority

-- Whether `sched_node` is in a ring: the timeout list, or one of the first `n` queues.
unfoldable pub in_queues : ℕ → ℕ → (ℕ → List ℕ) → Bool
in_queues t zero q = false
in_queues t (suc n) q = has t (q n) || in_queues t n q

abbrev pub is_linked : ℕ → Sched → Bool
is_linked t s = has t s.timeout_list || in_queues t mfq_queues s.queue

abbrev pub is_stopped : ThreadState → Bool
is_stopped stopped = true
is_stopped _ = false

abbrev pub is_clean : ThreadPhase → Bool
is_clean ctx_clean = true
is_clean ctx_dirty = false

-- "Possibly remove from TIMEOUT_LIST", with the assertion that stands there. The node leaves the
-- ring that holds it.
unfoldable pub cancel_timeout : ℕ → Sched → Option Sched
cancel_timeout t s =
    if (s.tcb t).wakeup_time == no_timeout
    then some s
    else if is_linked t s && is_stopped (s.tcb t).state
    then some (record s {
      tcb = update s.tcb t (record (s.tcb t) { wakeup_time = no_timeout });
      timeout_list = erase t s.timeout_list;
      queue = λ i. erase t (s.queue i);
    })
    else none

-- "Mark as ready", and "Possibly add to the scheduler queue".
unfoldable pub enter_ready : ℕ → Sched → Sched
unfolding sched_queue_add
enter_ready t s = if is_clean (s.tcb t).phase then sched_queue_add t marked else marked
  where
    marked : Sched
    marked = set_tcb t (record (s.tcb t) { state = ready }) s

abbrev pub may_wake : ThreadState → Bool
may_wake stopped = true
may_wake init = true
may_wake _ = false

unfoldable pub sched_make_ready : ℕ → Sched → Option Sched
sched_make_ready t s =
    if may_wake (s.tcb t).state then (do s' ← cancel_timeout t s; some (enter_ready t s')) else none

-- `wakeup`: the new state, and whether the thread was woken. Preemption is switched off and back.
unfoldable pub wakeup : ℕ → Sched → Option (Sched × Bool)
wakeup t s =
    if may_wake (s.tcb t).state
    then (do s' ← sched_make_ready t s; some (s', true))
    else some (s, false)

-- "Empty the timeout list up to the current time". Each round takes a thread off the list, so the
-- fuel of `sched_queue_select` is enough; `none` is a failed assertion or fuel that ran out.
unfoldable pub wake_expired : ℕ → ℕ → Sched → Option Sched
wake_expired zero curtime s = none
wake_expired (suc k) curtime s = elim s.timeout_list [
  | [] ↦ some s
  | t ∷ _ ↦
      let woken = (do s' ← sched_make_ready t s; wake_expired k curtime s') in
      if ltb curtime (s.tcb t).wakeup_time then some s else woken
]

-- "Get the head of the SCHED list", from queue `i` on, with `n` rounds left.
unfoldable pub pop_first : (n i : ℕ) → Sched → Option ℕ × Sched
pop_first zero i s = (none, s)
pop_first (suc n) i s = elim (s.queue i) [
  | [] ↦ pop_first n (i + 1) s
  | t ∷ rest ↦ (some t, record s { queue = update s.queue i rest })
]

unfoldable pub sched_queue_select : ℕ → Sched → Option (Option ℕ × Sched)
sched_queue_select curtime s = do
  s' ← wake_expired (suc (length s.timeout_list)) curtime s
  some (pop_first mfq_queues 0 s')

-- One round of `sched_boost`: the head of queue `i + 1` goes to the end of queue `i`.
unfoldable pub boost_one : ℕ → Sched → Sched
boost_one i s = elim (s.queue (i + 1)) [
  | [] ↦ s
  | t ∷ rest ↦ record s {
    tcb = update s.tcb t (record (s.tcb t) { priority = dec32 (s.tcb t).priority });
    queue = update (update s.queue (i + 1) rest) i (s.queue i ++ t ∷ []);
  }
]

unfoldable pub boost_from : (n i : ℕ) → Sched → Sched
boost_from zero i s = s
boost_from (suc n) i s = boost_from n (i + 1) (boost_one i s)

unfoldable pub sched_boost : Sched → Sched
sched_boost s = boost_from (mfq_queues - 1) 0 s
