-- ===== src/Bios/Interrupts.antt =====
-- bios.c: which interrupt `dispatch_interrupts` takes first.
use disasteros.Common.{
  ℕ, zero, suc, ◌+◌, ◌≤◌, ◌<◌, ◌≡◌, refl, true, false, arith, Bool-cases, inl, inr,
}
use disasteros.Bios.{
  Vm, maximum_interrupt_no, call_handler, take_interrupt, dispatch_one, dispatch_from,
  dispatch_interrupts,
}

-- From the state `m`, where the interrupt `j` is pending at the core `c`, the loop of
-- `dispatch_interrupts` comes to `m'`: it takes the lowest of the pending interrupts from `i` on, calls
-- its handler, and goes on behind it.
pub record TakesLowest (run : (handler c : ℕ) → Vm → Vm) (c i j : ℕ) (m m' : Vm) : Type 0 where
  pub lowest : ℕ
  pub others : ℕ
  pub from_first : i ≤ lowest
  pub at_most : lowest ≤ j
  pub up_to_last : lowest + 1 + others ≡ maximum_interrupt_no
  pub was_pending : (m.core c).intpending lowest ≡ true
  pub none_below : (u : ℕ) → i ≤ u → u < lowest → (m.core c).intpending u ≡ false
  pub goes_on :
      m'
      ≡ dispatch_from run others
          (lowest + 1)
          c
          (call_handler run c lowest (take_interrupt c lowest m))

from-TakesLowest :
    (run : (handler c : ℕ) → Vm → Vm) (c n i j : ℕ) (m : Vm)
    → i + n ≡ maximum_interrupt_no
    → (m.core c).int_disabled ≡ false
    → i ≤ j
    → j < maximum_interrupt_no
    → (m.core c).intpending j ≡ true
    → TakesLowest run c i j m (dispatch_from run n i c m)
unfolding dispatch_from dispatch_one
from-TakesLowest run c zero i j m e d l h p = absurd (omega (arith, e, l, h))
from-TakesLowest run c (suc n) i j m e d l h p = elim (Bool-cases ((m.core c).intpending i)) [
  | inl q ↦ record {
    lowest = i;
    others = n;
    from_first = omega arith;
    at_most = l;
    up_to_last = omega (arith, e);
    was_pending = q;
    none_below = λ u a b. absurd (omega (arith, a, b));
    goes_on = rw (d, q) refl;
  }
  | inr q ↦
      let less : i + 1 ≤ j = ground (arith, l, p, q) in
      let r = from-TakesLowest run c n (i + 1) j m (omega (arith, e)) d less h p in
      record {
        lowest = r.lowest;
        others = r.others;
        from_first = omega (arith, r.from_first);
        at_most = r.at_most;
        up_to_last = r.up_to_last;
        was_pending = r.was_pending;
        none_below = λ u a b. ground (arith, q, r.none_below u, a, b);
        goes_on = rw (d, q) r.goes_on;
      }
]

-- With interrupts enabled and one pending, `dispatch_interrupts` first takes the lowest that is
-- pending, and calls its handler, whatever handlers do; then it goes on behind that interrupt.
pub dispatch-TakesLowest :
    (run : (handler c : ℕ) → Vm → Vm) (c j : ℕ) (m : Vm)
    → (m.core c).int_disabled ≡ false
    → j < maximum_interrupt_no
    → (m.core c).intpending j ≡ true
    → TakesLowest run c 0 j m (dispatch_interrupts run c m)
unfolding dispatch_interrupts
dispatch-TakesLowest run c j m d h p =
    from-TakesLowest run c maximum_interrupt_no 0 j m refl d (omega arith) h p
