-- ===== src/Cc/Signal.antt =====
-- `Cond_Signal` and `Cond_Broadcast` on threads that wait.
use disasteros.Common.{
  ℕ, zero, suc, ◌<◌, ◌≡◌, refl, sym, inl, inr, Bool, true, false, some, List, [], ◌∷◌, ◌++◌, arith,
  length, update, ◌∙◌, All, All-map, subst, ap, length-append,
}
use disasteros.Sched.Thread.{Sched, ready, normal_thread}
use disasteros.Sched.Queue.{wakeup, may_wake}
use disasteros.Sched.Valid.{IsValid}
use disasteros.Sched.Waking.{Woken, Wakes, wakeup_lem}
use disasteros.Cc.CondVar.{CondVar, Kernel, cv_signal, broadcast_loop, cond_broadcast}

-- A thread that may stand in a ring of waiters.
abbrev pub CanWait : Sched → ℕ → Type 0
CanWait s t = (s.live t ≡ true) × ((s.tcb t).type ≡ normal_thread)

abbrev pub IsAsleep : Sched → ℕ → Type 0
IsAsleep s t = may_wake (s.tcb t).state ≡ true

abbrev pub IsAwake : Sched → ℕ → Type 0
IsAwake s t = may_wake (s.tcb t).state ≡ false

-- What waking threads keeps.
pub record Roused (s s' : Sched) : Type 0 where
  pub valid : IsValid s'
  pub can_wait : (u : ℕ) → CanWait s u → CanWait s' u
  pub awake : (u : ℕ) → IsAwake s u → IsAwake s' u

Roused-trans : {s s' s'' : Sched} → Roused s s' → Roused s' s'' → Roused s s''
Roused-trans a b = record {
  valid = b.valid;
  can_wait = λ u h. b.can_wait u (a.can_wait u h);
  awake = λ u h. b.awake u (a.awake u h);
}

Woken-Roused : {t : ℕ} {s s' : Sched} → Woken t s s' → Roused s s'
Woken-Roused {t} w = record {
  valid = w.valid;
  can_wait = λ u. ground (arith, w.live u, w.type, w.others u);
  awake = λ u. ground (arith, w.state, w.others u);
}

-- The outcome of `cv_signal`: a thread that slept was taken off the ring and woken, behind waiters
-- that were not asleep; or there was none, and the ring is empty.
pub data Signalled (k : Kernel) : List ℕ → CondVar → Kernel → Type 0 where
  nobody :
      {ws : List ℕ} {k' : Kernel}
      → All (IsAwake k.sched) ws
      → k'.sched ≡ k.sched
      → Signalled k ws [] k'
  woke :
      {ws cv : List ℕ} {k' : Kernel} (skipped : List ℕ) (w : ℕ)
      → ws ≡ skipped ++ (w ∷ cv)
      → All (IsAwake k.sched) skipped
      → IsAsleep k.sched w
      → (k'.sched.tcb w).state ≡ ready
      → k'.signalled w ≡ true
      → k'.removed w ≡ true
      → Roused k.sched k'.sched
      → Signalled k ws cv k'

Signalled-cons :
    {k k₁ : Kernel} {ws cv : List ℕ} {k' : Kernel} (w : ℕ)
    → k₁.sched ≡ k.sched
    → IsAwake k.sched w
    → Signalled k₁ ws cv k'
    → Signalled k (w ∷ ws) cv k'
Signalled-cons {ws} w e h (nobody all same) =
    nobody (h, subst (λ s. All (IsAwake s) ws) e all) (same ∙ e)
Signalled-cons {k'} w e h (woke skipped v split all asleep st sg rm r) =
    woke (w ∷ skipped) v (rw split refl) (h, subst (λ s. All (IsAwake s) skipped) e all)
      (subst (λ s. IsAsleep s v) e asleep) st sg rm (subst (λ s. Roused s k'.sched) e r)

-- On a valid scheduler, with waiters that are allocated and no idle threads, `Cond_Signal` passes
-- every assertion and ends. It wakes the first waiter that is asleep, marks it as signalled and
-- leaves the waiters behind it in the ring; waiters before it that are awake already are dropped.
-- With nobody asleep it empties the ring and wakes nobody.
pub cv_signal-Signalled :
    (ws : CondVar) (k : Kernel)
    → IsValid k.sched
    → All (CanWait k.sched) ws
    → (cv : CondVar) × (k' : Kernel) × (cv_signal ws k ≡ some (cv, k')) × Signalled k ws cv k'
unfolding cv_signal
cv_signal-Signalled [] k v all = ([], k, refl, nobody tt refl)
cv_signal-Signalled (w ∷ ws) k v all =
    let ((s, b), e, how) = wakeup_lem w v all.0.0 all.0.1 in
    go s b e how (λ k₁ same.
      cv_signal-Signalled ws k₁ (subst IsValid (sym same) v)
        (subst (λ s. All (CanWait s) ws) (sym same) all.1))
  where
    go :
        (s : Sched) (b : Bool)
        → wakeup w k.sched ≡ some (s, b)
        → Wakes w k.sched (s, b)
        → ((k₁ : Kernel)
            → k₁.sched ≡ k.sched
            → (cv : CondVar) × (k' : Kernel) × (cv_signal ws k₁ ≡ some (cv, k'))
              × Signalled k₁ ws cv k')
        → (cv : CondVar) × (k' : Kernel) × (cv_signal (w ∷ ws) k ≡ some (cv, k'))
          × Signalled k (w ∷ ws) cv k'
    go s b e (inl (asleep, yes_woken, r)) rest = (
      ws,
      record k {
        sched = s;
        removed = update k.removed w true;
        signalled = update k.signalled w true;
      },
      rw e (rw yes_woken refl),
      woke [] w refl tt asleep r.state (ground arith) (ground arith) (Woken-Roused r),
    )
    go s b e (inr (awake, not_woken, same)) rest =
        let (cv, k', f, h) =
          rest (record k { sched = s; removed = update k.removed w true }) same in
        (cv, k', rw e (rw not_woken f), Signalled-cons w same awake h)

Signalled-length :
    {k : Kernel} {ws : List ℕ} {cv : CondVar} {k' : Kernel}
    → Signalled k ws cv k'
    → 0 < length ws
    → length cv < length ws
Signalled-length (nobody all same) h = h
Signalled-length {cv} (woke skipped w split all asleep st sg rm r) h =
    omega (arith, ap length split, length-append skipped (w ∷ cv))

Roused-refl : {s s' : Sched} → IsValid s → s' ≡ s → Roused s s'
Roused-refl {s} v e =
    subst (Roused s) (sym e) (record { valid = v; can_wait = λ u h. h; awake = λ u h. h })

All-append_right : (P : ℕ → Type 0) (xs ys : List ℕ) → All P (xs ++ ys) → All P ys
All-append_right P [] ys h = h
All-append_right P (x ∷ xs) ys h = All-append_right P xs ys h.1

All-append_of : (P : ℕ → Type 0) (xs ys : List ℕ) → All P xs → All P ys → All P (xs ++ ys)
All-append_of P [] ys h g = g
All-append_of P (x ∷ xs) ys h g = (h.0, All-append_of P xs ys h.1 g)

-- What a broadcast needs of each of its signals.
record Progress (s : Sched) (ws cv : List ℕ) (s' : Sched) : Type 0 where
  roused : Roused s s'
  can_wait : All (CanWait s') cv
  awake : (u : Sched) → Roused s' u → All (IsAwake u) cv → All (IsAwake u) ws

Signalled-Progress :
    {k : Kernel} {ws : List ℕ} {cv : CondVar} {k' : Kernel}
    → IsValid k.sched
    → All (CanWait k.sched) ws
    → Signalled k ws cv k'
    → Progress k.sched ws cv k'.sched
Signalled-Progress {ws} v c (nobody all same) = record {
  roused = Roused-refl v same;
  can_wait = tt;
  awake = λ u r h. All-map ws r.awake (subst (λ s. All (IsAwake s) ws) (sym same) all);
}
Signalled-Progress {k} {ws} {cv} {k'} v c (woke skipped w split all asleep st sg rm r) = record {
  roused = r;
  can_wait =
      All-map cv r.can_wait
        (All-append_right (CanWait k.sched) skipped (w ∷ cv)
          (subst (All (CanWait k.sched)) split c)).1;
  awake = λ u q h. subst (All (IsAwake u)) (sym split) (
      All-append_of (IsAwake u) skipped (w ∷ cv)
        (All-map skipped q.awake (All-map skipped r.awake all)) (q.awake w (rw st refl), h));
}

-- What a broadcast leaves.
pub record Broadcasted (cv : CondVar) (k k' : Kernel) : Type 0 where
  pub roused : Roused k.sched k'.sched
  pub nobody_sleeps : All (IsAwake k'.sched) cv

broadcast_loop-Broadcasted :
    (n : ℕ) (cv : CondVar) (k : Kernel)
    → length cv < n
    → IsValid k.sched
    → All (CanWait k.sched) cv
    → (k' : Kernel) × (broadcast_loop n cv k ≡ some ([], k')) × Broadcasted cv k k'
unfolding broadcast_loop
broadcast_loop-Broadcasted zero cv k h v all = absurd (omega arith)
broadcast_loop-Broadcasted (suc n) [] k h v all =
    (k, refl, record { roused = Roused-refl v refl; nobody_sleeps = tt })
broadcast_loop-Broadcasted (suc n) (w ∷ ws) k h v all =
    let (cv, k₁, e, r) = cv_signal-Signalled (w ∷ ws) k v all in
    let p = Signalled-Progress v all r in
    let (k₂, f, b) =
      broadcast_loop-Broadcasted n cv k₁ (omega (arith, Signalled-length r)) p.roused.valid
        p.can_wait in
    (
      k₂,
      rw e f,
      record {
        roused = Roused-trans p.roused b.roused;
        nobody_sleeps = p.awake k₂.sched b.roused b.nobody_sleeps;
      },
    )

-- On a valid scheduler, with waiters that are allocated and no idle threads, `Cond_Broadcast`
-- passes every assertion and ends with an empty ring. No thread that waited is left asleep, and no
-- thread has been put to sleep.
pub cond_broadcast-Broadcasted :
    (cv : CondVar) (k : Kernel)
    → IsValid k.sched
    → All (CanWait k.sched) cv
    → (k' : Kernel) × (cond_broadcast cv k ≡ some ([], k')) × Broadcasted cv k k'
unfolding cond_broadcast
cond_broadcast-Broadcasted cv k = broadcast_loop-Broadcasted (suc (length cv)) cv k (omega arith)
