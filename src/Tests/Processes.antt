-- ===== src/Tests/Processes.antt =====
-- The process table, and the threads of a process.
use disasteros.Common.{
  ℕ, ◌≡◌, ◌<◌, refl, true, false, none, some, [], ◌∷◌, ◌==◌, arith, if◌then◌else◌, update,
}
use disasteros.Common.Int.{pos, minus_one}
use disasteros.World.{
  World, Pcb, alive, zombie, returned, max_proc, max_fileid, set_pcb, set_kernel,
}
use disasteros.Streams.Table.{
  range_from, initialize_files, acquire_fcb, acquire_all, next_free, find_fids, install,
  fcb_reserve, fcb_incref,
}
use disasteros.Streams.Refs
use disasteros.Proc.Table.{is_free, get_pcb, acquire_pcb, initialize_processes}
use disasteros.Proc.Exec.{create_ptcb, inherit_fids}
use disasteros.Proc.Wait.{sys_wait_child, await_specific}
use disasteros.Proc.Threads.{join_all}
use disasteros.Proc.FreeList.{FreeList, Acquires, acquire_pcb_lem, in_use-FreeList}
use disasteros.Proc.Start.{initialize_processes-FreeList}
use disasteros.Proc.Collect.{Collected, sys_wait_child_exited}
use disasteros.Proc.Inherit.{inherit_fids_lem}
use disasteros.Proc.Hazards.{Detached, join_all_hangs, await_specific_twice}
use disasteros.Tests.Machine.{machine, kernel, world, cpu, no_process}
use disasteros.Tests.Pipes.{some_bytes}
use disasteros.Tests.Files.{opened, opened-IsValid}

abbrev table : World
table = initialize_processes (world some_bytes)

table-FreeList : FreeList (range_from max_proc 0) table
table-FreeList = initialize_processes-FreeList (world some_bytes)

-- Three processes have started.
abbrev one : World
one = (acquire_pcb table).1

abbrev two : World
two = (acquire_pcb one).1

abbrev three : World
three = (acquire_pcb two).1

one-Acquires : Acquires (0 ∷ range_from 65535 1) table (acquire_pcb table)
unfolding range_from
one-Acquires = acquire_pcb_lem (range_from max_proc 0) table table-FreeList

two-Acquires : Acquires (1 ∷ range_from 65534 2) one (acquire_pcb one)
unfolding range_from
two-Acquires = acquire_pcb_lem (range_from 65535 1) one one-Acquires.5

three-Acquires : Acquires (2 ∷ range_from 65533 3) two (acquire_pcb two)
unfolding range_from
three-Acquires = acquire_pcb_lem (range_from 65534 2) two two-Acquires.5

three-FreeList : FreeList (range_from 65533 3) three
three-FreeList = three-Acquires.5

two_used : is_free (three.pcb 2).pstate ≡ false
unfolding get_pcb
two_used = ground (arith, three-Acquires.3)

one_used : is_free (three.pcb 1).pstate ≡ false
unfolding get_pcb
one_used = ground (arith, two-Acquires.3, three-Acquires.4 1)

-- Process 2 is an exited child of process 1.
abbrev child : Pcb
child = record no_process { pstate = zombie; parent = some 1; exitval = pos 7 }

abbrev parent : Pcb
parent = record no_process { pstate = alive; children_list = 2 ∷ []; exited_list = 2 ∷ [] }

abbrev family : World
family = set_pcb 1 parent (set_pcb 2 child (set_kernel kernel three))

kernel-FreeList : FreeList (range_from 65533 3) (set_kernel kernel three)
kernel-FreeList = record {
  chain = three-FreeList.chain;
  exact = three-FreeList.exact;
  inside = three-FreeList.inside;
  counted = three-FreeList.counted;
}

family-FreeList : FreeList (range_from 65533 3) family
family-FreeList =
    in_use-FreeList 1 parent (omega arith) (ground (arith, one_used)) refl
      (in_use-FreeList 2 child (omega arith) two_used refl kernel-FreeList)

sys_wait_child_exited_example :
    (w' : World) × (sys_wait_child cpu minus_one family ≡ returned (pos 2, some (pos 7)) w')
    × Collected 2 (range_from 65533 3) family w'
sys_wait_child_exited_example =
    sys_wait_child_exited cpu 2 2 [] [] (range_from 65533 3) family-FreeList refl refl (omega arith)
      refl

inherit_fids_example :
    let w' = inherit_fids max_fileid 0 1 2 opened in
    Refs.IsValid w'
    × ((j : ℕ) → j < max_fileid → (w'.pcb 2).fidt j ≡ (opened.pcb 1).fidt j)
    × ((j : ℕ) → (w'.pcb 1).fidt j ≡ (opened.pcb 1).fidt j)
unfolding fcb_reserve acquire_all acquire_fcb install fcb_incref initialize_files range_from
    find_fids next_free
inherit_fids_example =
    inherit_fids_lem 1 2 (omega arith) (omega arith) (omega arith) opened opened-IsValid (λ j. refl)

-- Process 1, whose main thread is 40, with the detached thread 44.
abbrev detaching : World
detaching = record (world some_bytes) {
  kernel = record kernel {
    sched = record machine {
      tcb = update machine.tcb 44 (record (machine.tcb 44) { owner_ptcb = some 7 });
    };
  };
  pcb = λ p. record no_process { pstate = alive; main_thread = some 6; ptcb_list = 7 ∷ [] };
  ptcbs = λ q.
      if q == 7
      then some (record (create_ptcb 1) { thread = some 44; detached = true })
      else some (record (create_ptcb 1) { thread = some 40; detached = true });
}

detaching-Detached : Detached cpu 7 44 detaching
unfolding create_ptcb
detaching-Detached = record {
  listed = ([], refl);
  block = (record (create_ptcb 1) { thread = some 44; detached = true }, refl, refl, refl);
  main = (6, record (create_ptcb 1) { thread = some 40; detached = true }, refl, refl, refl);
  live = refl;
  owner = refl;
  owner_ptcb = refl;
  other = ground arith;
}

join_all_hangs_example : join_all 1000 cpu 1 detaching ≡ none
join_all_hangs_example = join_all_hangs detaching-Detached 1000

abbrev exited_child : World
exited_child = set_pcb 2 child (world some_bytes)

await_specific_twice_example :
    (w₁ : World) × (w₂ : World) × (await_specific cpu 1 2 exited_child
      ≡ returned (pos 2, some (pos 7)) w₁)
    × (await_specific cpu 1 2 w₁ ≡ returned (pos 2, some (pos 7)) w₂)
    × ((acquire_pcb w₂).0 ≡ some 2)
    × ((acquire_pcb (acquire_pcb w₂).1).0 ≡ some 2)
await_specific_twice_example = await_specific_twice cpu cpu 1 2 exited_child refl
