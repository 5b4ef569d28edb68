-- ===== src/Sched/Boost.antt =====
-- `sched_boost` on a valid scheduler.
use disasteros.Common.{
  ℕ, zero, suc, ◌+◌, ◌-◌, ◌<◌, ◌≡◌, refl, List, [], ◌∷◌, ◌++◌, arith, count, count-append, update,
  ltb, leb, ◌==◌, if◌then◌else◌, append-nil, ◌∙◌,
}
use disasteros.Sched.Thread.{Sched, mfq_queues, dec32}
use disasteros.Sched.Queue.{boost_one, boost_from, sched_boost}
use disasteros.Sched.Valid.{IsValid}

-- The head of a queue has that queue's priority.
module _ {s : Sched} (v : IsValid s) (i t : ℕ) (rest : List ℕ)
    (e : s.queue (i + 1) ≡ t ∷ rest) where
  head_queued : 0 < count t (s.queue (i + 1))
  head_queued = ground arith

  move : Sched
  move = record s {
    tcb = update s.tcb t (record (s.tcb t) { priority = dec32 (s.tcb t).priority });
    queue = update (update s.queue (i + 1) rest) i (s.queue i ++ t ∷ []);
  }

  move-IsValid : IsValid move
  unfolding move
  move-IsValid = record {
    timed = λ u. ground (arith, v.timed u);
    listed = λ u. ground (arith, v.listed u);
    queued = λ p u. ground (
      arith,
      v.queued p u,
      v.queued (i + 1) u,
      v.queued (i + 1) t,
      v.queued i t,
      v.queued p t,
      head_queued,
      v.bounded t,
      count-append u (s.queue i) (t ∷ []),
    );
    enqueued = λ u. ground (
      arith,
      v.enqueued u,
      v.queued (i + 1) t,
      head_queued,
      v.bounded t,
      count-append u (s.queue i) (t ∷ []),
    );
    bounded = λ u. ground (arith, v.bounded u, v.queued (i + 1) t, head_queued);
    remembered = λ u. ground (arith, v.remembered u);
  }

boost_one-cons :
    (s : Sched) (i t : ℕ) (rest : List ℕ) (v : IsValid s) (e : s.queue (i + 1) ≡ t ∷ rest)
    → boost_one i s ≡ move v i t rest e
unfolding boost_one move
boost_one-cons s i t rest v e = rw (e, boost_one) refl

boost_one-nil : (s : Sched) (i : ℕ) → s.queue (i + 1) ≡ [] → boost_one i s ≡ s
unfolding boost_one
boost_one-nil s i e = rw (e, boost_one) refl

boost_one-IsValid_of :
    {s : Sched} (i : ℕ) (q : List ℕ) → IsValid s → s.queue (i + 1) ≡ q → IsValid (boost_one i s)
boost_one-IsValid_of {s} i [] v e = rw (boost_one-nil s i e) v
boost_one-IsValid_of {s} i (t ∷ rest) v e =
    rw (boost_one-cons s i t rest v e) (move-IsValid v i t rest e)

boost_from-IsValid : (n i : ℕ) {s : Sched} → IsValid s → IsValid (boost_from n i s)
unfolding boost_from
boost_from-IsValid zero i v = v
boost_from-IsValid (suc n) i v = boost_from-IsValid n (i + 1) (boost_one-IsValid_of i _ v refl)

-- A boost keeps the invariant of the scheduler: each thread that moves has the priority of the
-- queue that it enters, and no ready thread is lost.
pub sched_boost-IsValid : {s : Sched} → IsValid s → IsValid (sched_boost s)
unfolding sched_boost
sched_boost-IsValid v = boost_from-IsValid _ 0 v

abbrev pub first : List ℕ → List ℕ
first [] = []
first (t ∷ _) = t ∷ []

abbrev pub behind : List ℕ → List ℕ
behind [] = []
behind (_ ∷ ts) = ts

-- What `n` rounds from queue `i` on make of the queues, without the loop.
abbrev boosted : (n i : ℕ) → (ℕ → List ℕ) → ℕ → List ℕ
boosted n i q j =
    if ltb j i
    then q j
    else if j == i
    then q i ++ (if ltb 0 n then first (q (i + 1)) else [])
    else if leb j (i + n)
    then behind (q j) ++ (if ltb j (i + n) then first (q (j + 1)) else [])
    else q j

boost_one-queue :
    (s : Sched) (i j : ℕ)
    → (boost_one i s).queue j ≡ (
        if j == i
        then s.queue i ++ first (s.queue (i + 1))
        else if j == i + 1
        then behind (s.queue j)
        else s.queue j)
unfolding boost_one
boost_one-queue s i j = ground (arith, append-nil (s.queue i))

boost_from-boosted :
    (n i : ℕ) (s : Sched) (j : ℕ) → (boost_from n i s).queue j ≡ boosted n i s.queue j
unfolding boost_from
boost_from-boosted zero i s j = ground (arith, append-nil (s.queue i), append-nil (s.queue j))
boost_from-boosted (suc n) i s j = ground (
  arith,
  boost_from-boosted n (i + 1) (boost_one i s) j,
  boost_one-queue s i j,
  boost_one-queue s i (i + 1),
  boost_one-queue s i (i + 1 + 1),
  boost_one-queue s i (j + 1),
)

-- All the queues move at once, though the loop goes through them in turn: the first thread of every
-- queue but queue 0 goes to the end of the queue above it, and no thread moves by two.
pub sched_boost-queue :
    (s : Sched) (j : ℕ)
    → (sched_boost s).queue j ≡ (
        if j == 0
        then s.queue 0 ++ first (s.queue 1)
        else if ltb j (mfq_queues - 1)
        then behind (s.queue j) ++ first (s.queue (j + 1))
        else if j == mfq_queues - 1
        then behind (s.queue j)
        else s.queue j)
unfolding sched_boost
sched_boost-queue s j = ground (arith, boost_from-boosted 14 0 s j, append-nil (behind (s.queue j)))

boost_one-frame :
    (i : ℕ) (s : Sched)
    → ((boost_one i s).timeout_list ≡ s.timeout_list)
      × ((boost_one i s).current_thread ≡ s.current_thread)
      × ((boost_one i s).live ≡ s.live)
      × ((u : ℕ) → ((boost_one i s).tcb u).phase ≡ (s.tcb u).phase)
      × ((u : ℕ) → ((boost_one i s).tcb u).type ≡ (s.tcb u).type)
      × ((u : ℕ) → ((boost_one i s).tcb u).state ≡ (s.tcb u).state)
unfolding boost_one
boost_one-frame i s = (
  ground arith,
  ground arith,
  ground arith,
  λ u. ground arith,
  λ u. ground arith,
  λ u. ground arith,
)

-- A boost touches neither the timeout list nor the cores.
boost_from-frame :
    (n i : ℕ) (s : Sched)
    → ((boost_from n i s).timeout_list ≡ s.timeout_list)
      × ((boost_from n i s).current_thread ≡ s.current_thread)
      × ((boost_from n i s).live ≡ s.live)
      × ((u : ℕ) → ((boost_from n i s).tcb u).phase ≡ (s.tcb u).phase)
      × ((u : ℕ) → ((boost_from n i s).tcb u).type ≡ (s.tcb u).type)
      × ((u : ℕ) → ((boost_from n i s).tcb u).state ≡ (s.tcb u).state)
unfolding boost_from
boost_from-frame zero i s = (refl, refl, refl, λ u. refl, λ u. refl, λ u. refl)
boost_from-frame (suc n) i s =
    let (a, b, c, d, e, f) = boost_one-frame i s in
    let (a', b', c', d', e', f') = boost_from-frame n (i + 1) (boost_one i s) in
    (a' ∙ a, b' ∙ b, c' ∙ c, λ u. d' u ∙ d u, λ u. e' u ∙ e u, λ u. f' u ∙ f u)

pub sched_boost-frame :
    (s : Sched)
    → ((sched_boost s).timeout_list ≡ s.timeout_list)
      × ((sched_boost s).current_thread ≡ s.current_thread)
      × ((sched_boost s).live ≡ s.live)
      × ((u : ℕ) → ((sched_boost s).tcb u).phase ≡ (s.tcb u).phase)
      × ((u : ℕ) → ((sched_boost s).tcb u).type ≡ (s.tcb u).type)
      × ((u : ℕ) → ((sched_boost s).tcb u).state ≡ (s.tcb u).state)
unfolding sched_boost
sched_boost-frame s = boost_from-frame 14 0 s
