-- ===== src/Proc/FreeList.antt =====
-- The free list of the process table: which pids it holds, and what `acquire_PCB`, `release_PCB` and
-- `initialize_processes` make of it.
use disasteros.Common.{
  ℕ, ◌+◌, ◌%◌, ◌<◌, ◌≡◌, ◌≢◌, refl, ap, sym, subst, false, Option, none, some, List, [], ◌∷◌, arith,
  count, update, if◌then◌else◌, length,
}
use disasteros.World.{Pcb, free, alive, World, max_proc, set_pcb}
use disasteros.Proc.Table.{is_free, u32_mod, get_pcb, acquire_pcb, release_pcb}

-- The pids that the list holds, by following `parent`.
abbrev pub Chain : (ℕ → Pcb) → Option ℕ → List ℕ → Type 0
Chain pcb o [] = o ≡ none
Chain pcb o (p ∷ ps) = (o ≡ some p) × Chain pcb (pcb p).parent ps

-- The list holds the pids of the FREE PCBs of the table, once each, and `process_count` is the number
-- of the others.
pub record FreeList (pids : List ℕ) (w : World) : Type 0 where
  pub chain : Chain w.pcb w.pcb_freelist pids
  pub exact : (p : ℕ) → p < max_proc → count p pids ≡ (if is_free (w.pcb p).pstate then 1 else 0)
  pub inside : (p : ℕ) → 0 < count p pids → p < max_proc
  pub counted : (w.process_count + length pids) % u32_mod ≡ max_proc

pub Chain-update :
    (pcb : ℕ → Pcb) (o : Option ℕ) (ps : List ℕ) (p : ℕ) (b : Pcb)
    → count p ps ≡ 0
    → Chain pcb o ps
    → Chain (update pcb p b) o ps
Chain-update pcb o [] p b h c = c
Chain-update pcb o (q ∷ ps) p b h (e, c) =
    let u = Chain-update pcb (pcb q).parent ps p b (ground arith) c in
    (
      e,
      subst (λ o. Chain (update pcb p b) o ps) {x = (pcb q).parent} {y = (update pcb p b q).parent}
          (ground arith) u,
    )

-- `acquire_PCB`: with no free PCB it returns NULL and changes nothing; else it returns the head of
-- the list, which was FREE and is ALIVE now, and the other PCBs are as they were.
abbrev pub Acquires : List ℕ → World → Option ℕ × World → Type 0
Acquires [] w (o, w') = (o ≡ none) × (w' ≡ w)
Acquires (p ∷ rest) w (o, w') =
    (o ≡ some p)
    × (p < max_proc)
    × (get_pcb p w ≡ none)
    × (get_pcb p w' ≡ some p)
    × ((q : ℕ) → q ≢ p → w'.pcb q ≡ w.pcb q)
    × FreeList rest w'

abbrev pub taken : World → ℕ → World
taken w p = record (set_pcb p (record (w.pcb p) { pstate = alive }) w) {
  pcb_freelist = (w.pcb p).parent;
  process_count = (w.process_count + 1) % u32_mod;
}

pub acquire_pcb-of :
    (w : World) (o : Option ℕ)
    → w.pcb_freelist ≡ o
    → acquire_pcb w ≡ elim o [ none ↦ (none, w) | some p ↦ (some p, taken w p) ]
unfolding acquire_pcb
acquire_pcb-of w o e =
    ap (λ (o : Option ℕ). elim o [ none ↦ (none, w) | some p ↦ (some p, taken w p) ]) e

pub taken-Acquires :
    (p : ℕ) (rest : List ℕ) (w : World)
    → FreeList (p ∷ rest) w
    → Acquires (p ∷ rest) w (some p, taken w p)
unfolding get_pcb
taken-Acquires p rest w f =
    let h : p < max_proc = f.inside p (ground arith) in
    let fr : count p rest ≡ 0 = ground (arith, f.exact p) in
    (
      refl,
      h,
      ground (arith, f.exact p),
      ground arith,
      λ q ne. ground arith,
      record {
        chain = Chain-update w.pcb (w.pcb p).parent rest p _ fr f.chain.1;
        exact = λ q k. ground (arith, f.exact q);
        inside = λ q k. ground (arith, f.inside q);
        counted = omega (arith, f.counted);
      },
    )

-- On a free list that holds the FREE pids, `acquire_PCB` returns NULL and changes nothing if there
-- is none. Else it returns the first of them, whose PCB was FREE and is not any more; the other
-- PCBs are as they were, and the free list holds the rest.
pub acquire_pcb_lem :
    (pids : List ℕ) (w : World) → FreeList pids w → Acquires pids w (acquire_pcb w)
acquire_pcb_lem [] w f = subst (Acquires [] w) (sym (acquire_pcb-of w none f.chain)) (refl, refl)
acquire_pcb_lem (p ∷ rest) w f =
    subst (Acquires (p ∷ rest) w) (sym (acquire_pcb-of w (some p) f.chain.0))
      (taken-Acquires p rest w f)

-- `release_PCB` of a PCB of the table that is in use puts its pid at the head of the free list,
-- which holds the FREE pids again, and keeps the count of processes.
pub release_pcb-FreeList :
    (p : ℕ) (pids : List ℕ) (w : World)
    → FreeList pids w
    → p < max_proc
    → is_free (w.pcb p).pstate ≡ false
    → FreeList (p ∷ pids) (release_pcb p w)
unfolding release_pcb
release_pcb-FreeList p pids w f h u =
    let b : Pcb = record (w.pcb p) { pstate = free; parent = w.pcb_freelist } in
    let fr : count p pids ≡ 0 = ground (arith, f.exact p) in
    record {
      chain = (
        refl,
        subst (λ o. Chain (update w.pcb p b) o pids) {x = w.pcb_freelist}
            {y = (update w.pcb p b p).parent} (ground arith)
            (Chain-update w.pcb w.pcb_freelist pids p b fr f.chain),
      );
      exact = λ q k. ground (arith, f.exact q);
      inside = λ q k. ground (arith, f.inside q);
      counted = omega (arith, f.counted);
    }

-- A PCB in use is not on the list, so it may change as long as it stays in use.
pub in_use-FreeList :
    (p : ℕ) (b : Pcb) {pids : List ℕ} {w : World}
    → p < max_proc
    → is_free (w.pcb p).pstate ≡ false
    → is_free b.pstate ≡ false
    → FreeList pids w
    → FreeList pids (set_pcb p b w)
in_use-FreeList p b {pids} {w} h u u' f = record {
  chain = Chain-update w.pcb w.pcb_freelist pids p b (ground (arith, f.exact p)) f.chain;
  exact = λ q k. ground (arith, f.exact q, f.exact p);
  inside = f.inside;
  counted = f.counted;
}
