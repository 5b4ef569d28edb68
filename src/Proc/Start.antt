-- ===== src/Proc/Start.antt =====
-- The free list that `initialize_processes` builds.
use disasteros.Common.{
  ℕ, zero, suc, ◌+◌, ◌<◌, ◌≡◌, refl, ap, ◌∙◌, sym, subst, none, some, List, [], ◌∷◌, ◌++◌, arith,
  count, update, if◌then◌else◌, ltb, length, append_assoc, append-nil,
}
use disasteros.World.{Pcb, World, max_proc, set_pcb}
use disasteros.Streams.Table.{range_from}
use disasteros.Streams.Start.{count-range_from}
use disasteros.Proc.Table.{initialize_pcb, build_freelist, initialize_processes}
use disasteros.Proc.FreeList.{Chain, Chain-update, FreeList}

range_from-snoc : (n i : ℕ) → range_from (suc n) i ≡ range_from n i ++ (i + n) ∷ []
unfolding range_from
range_from-snoc zero i = ap (λ (x : ℕ). x ∷ []) (omega arith)
range_from-snoc (suc n) i =
    ap (◌∷◌ i)
      (range_from-snoc n (i + 1) ∙ ap (λ (x : ℕ). range_from n (i + 1) ++ x ∷ []) (omega arith))

length-range_from : (n i : ℕ) → length (range_from n i) ≡ n
unfolding range_from
length-range_from zero i = refl
length-range_from (suc n) i = ap suc (length-range_from n (i + 1))

-- The loop puts the pids below `n` in front of those that the list holds.
build_freelist-Chain :
    (n : ℕ) (pids : List ℕ) (w : World)
    → ((p : ℕ) → p < n → count p pids ≡ 0)
    → Chain w.pcb w.pcb_freelist pids
    → Chain (build_freelist n w).pcb (build_freelist n w).pcb_freelist (range_from n 0 ++ pids)
unfolding build_freelist range_from
build_freelist-Chain zero pids w h c = c
build_freelist-Chain (suc p) pids w h c =
    let b : Pcb = record (w.pcb p) { parent = w.pcb_freelist } in
    let u = Chain-update w.pcb w.pcb_freelist pids p b (h p (omega arith)) c in
    let v =
      build_freelist-Chain p (p ∷ pids) (record (set_pcb p b w) { pcb_freelist = some p })
        (λ q k. ground (arith, h q))
        (
          refl,
          subst (λ o. Chain (update w.pcb p b) o pids) {x = w.pcb_freelist}
              {y = (update w.pcb p b p).parent} (ground arith) u,
        ) in
    subst (Chain (build_freelist (suc p) w).pcb (build_freelist (suc p) w).pcb_freelist)
      (sym (
        ap (λ l. l ++ pids)
          (range_from-snoc p 0
            ∙ ap (λ (x : ℕ). range_from p 0 ++ x ∷ []) {x = 0 + p} {y = p} (omega arith))
        ∙ append_assoc (range_from p 0) (p ∷ []) pids))
      v

build_freelist-frame :
    (n : ℕ) (w : World) (p : ℕ) → ((build_freelist n w).pcb p).pstate ≡ (w.pcb p).pstate
unfolding build_freelist
build_freelist-frame zero w p = refl
build_freelist-frame (suc q) w p = build_freelist-frame q _ p ∙ ground arith

abbrev emptied : World → World
emptied w = record w {
  pcb = λ p. if ltb p max_proc then initialize_pcb (w.pcb p) else w.pcb p;
  pcb_freelist = none;
}

-- `initialize_processes` puts every pid on the free list, in rising order from 0, and the list
-- then holds exactly the FREE pids.
pub initialize_processes-FreeList :
    (w : World) → FreeList (range_from max_proc 0) (initialize_processes w)
unfolding initialize_processes initialize_pcb
initialize_processes-FreeList w = record {
  chain =
      subst
        (Chain (build_freelist max_proc (emptied w)).pcb
          (build_freelist max_proc (emptied w)).pcb_freelist)
        (append-nil (range_from max_proc 0))
        (build_freelist-Chain max_proc [] (emptied w) (λ p h. refl) refl);
  exact = λ p h.
      ground (arith, count-range_from max_proc 0 p, build_freelist-frame max_proc (emptied w) p);
  inside = λ p h. ground (arith, count-range_from max_proc 0 p);
  counted = omega (arith, length-range_from max_proc 0);
}
