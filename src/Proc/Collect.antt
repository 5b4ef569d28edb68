-- ===== src/Proc/Collect.antt =====
-- Collecting a child that has exited.
use disasteros.Common.{
  ℕ, ◌≡◌, ◌≢◌, refl, sym, subst, true, Option, none, some, List, [], ◌∷◌, arith, ◌<◌, erase,
}
use disasteros.Common.Int.{pos, minus_one}
use disasteros.World.{Pcb, World, returned, Cpu, curproc, max_proc}
use disasteros.Proc.Table.{get_pcb, get_pid, release_pcb, is_zombie}
use disasteros.Proc.Wait.{unlink, cleanup_zombie, await_any, wait_for_any_child, sys_wait_child}
use disasteros.Proc.FreeList.{Chain, FreeList, release_pcb-FreeList}

Chain-same :
    (pcb pcb' : ℕ → Pcb) (o : Option ℕ) (ps : List ℕ)
    → ((p : ℕ) → (pcb' p).parent ≡ (pcb p).parent)
    → Chain pcb o ps
    → Chain pcb' o ps
Chain-same pcb pcb' o [] h c = c
Chain-same pcb pcb' o (p ∷ ps) h (e, c) =
    (e, subst (λ o. Chain pcb' o ps) (sym (h p)) (Chain-same pcb pcb' (pcb p).parent ps h c))

unlink-FreeList :
    (child : ℕ) (pids : List ℕ) (w : World) → FreeList pids w → FreeList pids (unlink child w)
unlink-FreeList child pids w f = record {
  chain = Chain-same w.pcb (unlink child w).pcb w.pcb_freelist pids (λ p. refl) f.chain;
  exact = f.exact;
  inside = f.inside;
  counted = f.counted;
}

-- What collecting a child leaves.
pub record Collected (child : ℕ) (pids : List ℕ) (w w' : World) : Type 0 where
  pub free_pids : FreeList (child ∷ pids) w'
  pub gone : get_pcb child w' ≡ none
  pub unlisted :
      (p : ℕ)
      → ((w'.pcb p).children_list ≡ erase child (w.pcb p).children_list)
        × ((w'.pcb p).exited_list ≡ erase child (w.pcb p).exited_list)
  pub others :
      (p : ℕ)
      → p ≢ child
      → ((w'.pcb p).pstate ≡ (w.pcb p).pstate) × ((w'.pcb p).parent ≡ (w.pcb p).parent)

cleanup_zombie-Collected :
    (child : ℕ) (pids : List ℕ) (w : World)
    → FreeList pids w
    → child < max_proc
    → is_zombie (w.pcb child).pstate ≡ true
    → Collected child pids w (cleanup_zombie child w)
unfolding cleanup_zombie release_pcb get_pcb
cleanup_zombie-Collected child pids w f h z = record {
  free_pids =
      release_pcb-FreeList child pids (unlink child w) (unlink-FreeList child pids w f) h
        (ground arith);
  gone = ground arith;
  unlisted = λ p. ground arith;
  others = λ p ne. ground arith;
}

-- On a free list that holds the FREE pids, `WaitChild(NOPROC)` of a process with children, the
-- first exited one of which is a zombie of the table, does not sleep. It returns that child's pid
-- and exit value, and the child is gone: its PCB is free, its pid heads the free list, and it is
-- taken off every list of children and of exited children.
pub sys_wait_child_exited :
    (c : Cpu) (child other : ℕ) (rest others pids : List ℕ) {w : World}
    → FreeList pids w
    → (w.pcb (curproc c w)).children_list ≡ other ∷ others
    → (w.pcb (curproc c w)).exited_list ≡ child ∷ rest
    → child < max_proc
    → is_zombie (w.pcb child).pstate ≡ true
    → (w' : World) × (sys_wait_child c minus_one w
        ≡ returned (pos child, some (w.pcb child).exitval) w')
      × Collected child pids w w'
unfolding sys_wait_child wait_for_any_child await_any get_pid
sys_wait_child_exited c child other rest others pids {w} f e g h z =
    (cleanup_zombie child w, ground arith, cleanup_zombie-Collected child pids w f h z)
