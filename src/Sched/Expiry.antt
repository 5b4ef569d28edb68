-- ===== src/Sched/Expiry.antt =====
-- `wake_expired` and `sched_queue_select` on a valid scheduler.
use disasteros.Common.{
  ℕ, zero, suc, ◌+◌, ◌≤◌, ◌<◌, ◌≡◌, refl, sym, inl, inr, ◌⊎◌, true, false, Option, none, some, List,
  [], ◌∷◌, arith, length, ltb, ◌==◌, Bool-cases, ◌∙◌, erase, update, subst,
}
use disasteros.Sched.Thread.{Sched, mfq_queues, ready}
use disasteros.Sched.Queue.{wake_expired, pop_first, sched_make_ready, sched_queue_select}
use disasteros.Sched.Valid.{IsValid}
use disasteros.Sched.Waking.{Woken, sched_make_ready-Woken}

-- No thread at the head of the timeout list is due.
abbrev pub NoneDue : ℕ → Sched → List ℕ → Type 0
NoneDue curtime s [] = Unit
NoneDue curtime s (t ∷ _) = curtime < (s.tcb t).wakeup_time

-- What waking the expired threads keeps: who is allocated, who runs, and the phases.
pub record Wakened (curtime : ℕ) (s s' : Sched) : Type 0 where
  pub valid : IsValid s'
  pub none_due : NoneDue curtime s' s'.timeout_list
  pub live : (u : ℕ) → s'.live u ≡ s.live u
  pub current : (core : ℕ) → s'.current_thread core ≡ s.current_thread core
  pub phase : (u : ℕ) → (s'.tcb u).phase ≡ (s.tcb u).phase
  pub type : (u : ℕ) → (s'.tcb u).type ≡ (s.tcb u).type
  pub state : (u : ℕ) → ((s'.tcb u).state ≡ (s.tcb u).state) ⊎ ((s'.tcb u).state ≡ ready)

wake_one :
    {s : Sched} (t : ℕ) (rest : List ℕ)
    → IsValid s
    → s.timeout_list ≡ t ∷ rest
    → (s' : Sched) × (sched_make_ready t s ≡ some s') × Woken t s s' × (s'.timeout_list ≡ rest)
unfolding erase
wake_one {s} t rest v e =
    let due = v.listed t (ground arith) in
    let (s', r, w) = sched_make_ready-Woken t v due.0 due.2 (ground (arith, v.timed t)) in
    (s', r, w, ground (arith, w.off_list))

Woken-phase : {t : ℕ} {s s' : Sched} → Woken t s s' → (u : ℕ) → (s'.tcb u).phase ≡ (s.tcb u).phase
Woken-phase {t} w u = ground (arith, w.phase, w.others u)

Woken-type : {t : ℕ} {s s' : Sched} → Woken t s s' → (u : ℕ) → (s'.tcb u).type ≡ (s.tcb u).type
Woken-type {t} w u = ground (arith, w.type, w.others u)

Woken-state :
    {t : ℕ} {s s' : Sched}
    → Woken t s s'
    → (u : ℕ) → ((s'.tcb u).state ≡ (s.tcb u).state) ⊎ ((s'.tcb u).state ≡ ready)
Woken-state {t} w u = ground (arith, w.state, w.others u)

Wakened-step :
    {curtime t : ℕ} {s s₁ s₂ : Sched} → Woken t s s₁ → Wakened curtime s₁ s₂ → Wakened curtime s s₂
Wakened-step w r = record {
  valid = r.valid;
  none_due = r.none_due;
  live = λ u. r.live u ∙ w.live u;
  current = λ core. r.current core ∙ w.current core;
  phase = λ u. r.phase u ∙ Woken-phase w u;
  type = λ u. r.type u ∙ Woken-type w u;
  state = λ u. ground (arith, r.state u, Woken-state w u);
}

module _ (k curtime : ℕ) (s : Sched) where
  wake_expired-nil : s.timeout_list ≡ [] → wake_expired (suc k) curtime s ≡ some s
  unfolding wake_expired
  wake_expired-nil e = ground arith

  wake_expired-later :
      (t : ℕ) (rest : List ℕ)
      → s.timeout_list ≡ t ∷ rest
      → ltb curtime (s.tcb t).wakeup_time ≡ true
      → wake_expired (suc k) curtime s ≡ some s
  unfolding wake_expired
  wake_expired-later t rest e h = ground arith

  wake_expired-due :
      (t : ℕ) (rest : List ℕ) {s' : Sched}
      → s.timeout_list ≡ t ∷ rest
      → ltb curtime (s.tcb t).wakeup_time ≡ false
      → sched_make_ready t s ≡ some s'
      → wake_expired (suc k) curtime s ≡ wake_expired k curtime s'
  unfolding wake_expired
  wake_expired-due t rest e h r = ground arith

-- The list is a variable here, so that the loop and its list can be taken apart together.
wake_expired-Wakened :
    (k curtime : ℕ) (s : Sched) (ts : List ℕ)
    → s.timeout_list ≡ ts
    → IsValid s
    → length ts < k
    → (s' : Sched) × (wake_expired k curtime s ≡ some s') × Wakened curtime s s'
unfolding wake_expired
wake_expired-Wakened zero curtime s ts e v h = absurd (omega arith)
wake_expired-Wakened (suc k) curtime s [] e v h = (
  s,
  wake_expired-nil k curtime s e,
  record {
    valid = v;
    none_due = subst (NoneDue curtime s) (sym e) tt;
    live = λ u. refl;
    current = λ core. refl;
    phase = λ u. refl;
    type = λ u. refl;
    state = λ u. inl refl;
  },
)
wake_expired-Wakened (suc k) curtime s (t ∷ rest) e v h =
    elim (Bool-cases (ltb curtime (s.tcb t).wakeup_time)) [
      | inl later ↦ (
        s,
        wake_expired-later k curtime s t rest e later,
        record {
          valid = v;
          none_due = subst (NoneDue curtime s) (sym e) (ground arith);
          live = λ u. refl;
          current = λ core. refl;
          phase = λ u. refl;
          type = λ u. refl;
          state = λ u. inl refl;
        },
      )
      | inr due ↦
          let (s₁, r, w, e₁) = wake_one t rest v e in
          let (s₂, r₂, w₂) = wake_expired-Wakened k curtime s₁ rest e₁ w.valid (omega arith) in
          (s₂, wake_expired-due k curtime s t rest e due r ∙ r₂, Wakened-step w w₂)
    ]

-- The search for the first queue that is not empty.
abbrev pub Popped : (i : ℕ) → Sched → Option ℕ × Sched → Type 0
Popped i s (none, s') = (s' ≡ s) × ((p : ℕ) → i ≤ p → p < mfq_queues → s.queue p ≡ [])
Popped i s (some t, s') =
    (p : ℕ) × (rest : List ℕ) × (p < mfq_queues)
    × (s.queue p ≡ t ∷ rest)
    × (s' ≡ record s { queue = update s.queue p rest })
    × ((j : ℕ) → i ≤ j → j < p → s.queue j ≡ [])

Popped-suc :
    (i : ℕ) (s : Sched) (r : Option ℕ × Sched) → s.queue i ≡ [] → Popped (i + 1) s r → Popped i s r
Popped-suc i s (none, s') e (same, all) = (
  same,
  λ p h k. elim (Bool-cases (p == i)) [ inl q ↦ ground arith | inr q ↦ all p (ground arith) k ],
)
Popped-suc i s (some t, s') e (p, rest, h, q, r, before) = (
  p,
  rest,
  h,
  q,
  r,
  λ j a b. elim (Bool-cases (j == i)) [ inl c ↦ ground arith | inr c ↦ before j (ground arith) b ],
)

pop_first-nil :
    (n i : ℕ) (s : Sched) → s.queue i ≡ [] → pop_first (suc n) i s ≡ pop_first n (i + 1) s
unfolding pop_first
pop_first-nil n i s e = ground arith

pop_first-cons :
    (n i : ℕ) (s : Sched) (t : ℕ) (ts : List ℕ)
    → s.queue i ≡ t ∷ ts
    → pop_first (suc n) i s ≡ (some t, record s { queue = update s.queue i ts })
unfolding pop_first
pop_first-cons n i s t ts e = ground arith

pop_first-Popped_of :
    (n i : ℕ) (s : Sched) (q : List ℕ)
    → s.queue i ≡ q
    → i < mfq_queues
    → Popped (i + 1) s (pop_first n (i + 1) s)
    → Popped i s (pop_first (suc n) i s)
pop_first-Popped_of n i s [] e h rest =
    subst (Popped i s) (sym (pop_first-nil n i s e)) (Popped-suc i s (pop_first n (i + 1) s) e rest)
pop_first-Popped_of n i s (t ∷ ts) e h rest =
    subst (Popped i s) (sym (pop_first-cons n i s t ts e))
      (i, ts, h, e, refl, λ j a b. absurd (omega arith))

pop_first-Popped : (n i : ℕ) (s : Sched) → n + i ≡ mfq_queues → Popped i s (pop_first n i s)
unfolding pop_first
pop_first-Popped zero i s h = (refl, λ p a b. absurd (omega arith))
pop_first-Popped (suc n) i s h =
    pop_first-Popped_of n i s (s.queue i) refl (omega arith)
      (pop_first-Popped n (i + 1) s (omega arith))

-- `sched_queue_select` on a valid scheduler passes every assertion, and leaves the loop over the
-- timeout list by its own test: no thread at the head of that list is due. It returns the head of
-- the first queue that is not empty, in order of priority, and NULL if all queues are empty.
pub sched_queue_select_lem :
    (curtime : ℕ) {s : Sched}
    → IsValid s
    → (s₁ : Sched) × (r : Option ℕ × Sched) × (sched_queue_select curtime s ≡ some r)
      × Wakened curtime s s₁
      × Popped 0 s₁ r
unfolding sched_queue_select
sched_queue_select_lem curtime {s} v =
    let (s₁, e, w) =
      wake_expired-Wakened (suc (length s.timeout_list)) curtime s s.timeout_list refl v
        (omega arith) in
    (s₁, pop_first mfq_queues 0 s₁, rw e refl, w, pop_first-Popped mfq_queues 0 s₁ (omega arith))
