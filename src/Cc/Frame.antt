-- ===== src/Cc/Frame.antt =====
-- Waking threads changes neither who runs on a core nor which process a thread belongs to.
use disasteros.Common.{
  ℕ, zero, suc, ◌≡◌, ◌∙◌, Bool, true, some, [], ◌∷◌, arith, update, >>=-eq-some, Bool-cases, inl,
  inr,
}
use disasteros.Sched.Thread.{Sched}
use disasteros.Sched.Queue.{cancel_timeout, enter_ready, sched_make_ready, wakeup}
use disasteros.Cc.CondVar.{CondVar, Kernel, cv_signal, broadcast_loop, cond_broadcast}

pub record SameOwners (s s' : Sched) : Type 0 where
  pub current : (core : ℕ) → s'.current_thread core ≡ s.current_thread core
  pub owner : (u : ℕ) → (s'.tcb u).owner_pcb ≡ (s.tcb u).owner_pcb

pub SameOwners-trans : {s s' s'' : Sched} → SameOwners s s' → SameOwners s' s'' → SameOwners s s''
SameOwners-trans a b = record {
  current = λ core. b.current core ∙ a.current core;
  owner = λ u. b.owner u ∙ a.owner u;
}

wakeup-SameOwners :
    (t : ℕ) (s : Sched) {s' : Sched} {b : Bool} → wakeup t s ≡ some (s', b) → SameOwners s s'
unfolding wakeup sched_make_ready cancel_timeout enter_ready
wakeup-SameOwners t s e = record { current = λ core. ground arith; owner = λ u. ground arith }

cv_signal-SameOwners :
    (ws : CondVar) (k : Kernel) {cv : CondVar} {k' : Kernel}
    → cv_signal ws k ≡ some (cv, k')
    → SameOwners k.sched k'.sched
unfolding cv_signal
cv_signal-SameOwners [] k e = record { current = λ core. ground arith; owner = λ u. ground arith }
cv_signal-SameOwners (w ∷ ws) k {k'} e =
    let ((s, b), f, g) = >>=-eq-some (wakeup w k.sched) _ e in
    let o = wakeup-SameOwners w k.sched f in
    elim (Bool-cases b) [
      | inl h ↦ record {
        current = λ core. ground (arith, o.current core);
        owner = λ u. ground (arith, o.owner u);
      }
      | inr h ↦ SameOwners-trans o (
          cv_signal-SameOwners ws (record k { sched = s; removed = update k.removed w true })
            (rw h at g))
    ]

broadcast_loop-SameOwners :
    (n : ℕ) (cv : CondVar) (k : Kernel) {cv' : CondVar} {k' : Kernel}
    → broadcast_loop n cv k ≡ some (cv', k')
    → SameOwners k.sched k'.sched
unfolding broadcast_loop
broadcast_loop-SameOwners zero cv k e = cc
broadcast_loop-SameOwners (suc n) [] k e = record {
  current = λ core. ground arith;
  owner = λ u. ground arith;
}
broadcast_loop-SameOwners (suc n) (w ∷ ws) k e =
    let ((cv, k₁), f, g) = >>=-eq-some (cv_signal (w ∷ ws) k) _ e in
    SameOwners-trans (cv_signal-SameOwners (w ∷ ws) k f) (broadcast_loop-SameOwners n cv k₁ g)

pub cond_broadcast-SameOwners :
    (cv : CondVar) (k : Kernel) {cv' : CondVar} {k' : Kernel}
    → cond_broadcast cv k ≡ some (cv', k')
    → SameOwners k.sched k'.sched
unfolding cond_broadcast
cond_broadcast-SameOwners cv k e = broadcast_loop-SameOwners _ cv k e
