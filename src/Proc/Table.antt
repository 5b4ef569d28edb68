-- ===== src/Proc/Table.antt =====
-- The process table `PT`, whose free list runs through the `parent` fields.
use disasteros.Common.{
  ℕ, zero, suc, ◌+◌, ◌-◌, ◌%◌, ◌^◌, Bool, true, false, Option, none, some, [], ltb, if◌then◌else◌,
}
use disasteros.Common.Int.{ℤ, pos, minus_one}
use disasteros.World.{Pcb, PidState, free, alive, zombie, World, set_pcb, max_proc}

abbrev pub u32_mod : ℕ
u32_mod = 2 ^ 32

abbrev pub is_free : PidState → Bool
is_free free = true
is_free _ = false

abbrev pub is_alive : PidState → Bool
is_alive alive = true
is_alive _ = false

abbrev pub is_zombie : PidState → Bool
is_zombie zombie = true
is_zombie _ = false

unfoldable pub get_pcb : ℕ → World → Option ℕ
get_pcb pid w = if is_free (w.pcb pid).pstate then none else some pid

-- `get_pid`; NULL gives NOPROC, which is -1.
unfoldable pub get_pid : Option ℕ → ℤ
get_pid none = minus_one
get_pid (some p) = pos p

-- `initialize_PCB`
unfoldable pub initialize_pcb : Pcb → Pcb
initialize_pcb b = record b {
  pstate = free;
  fidt = λ i. if ltb i 16 then none else b.fidt i;
  children_list = [];
  exited_list = [];
  ptcb_list = [];
  child_exit = [];
}

-- The loop that builds the free list, from the last PCB to the first.
unfoldable pub build_freelist : ℕ → World → World
build_freelist zero w = w
build_freelist (suc p) w =
    build_freelist p (record (set_pcb p (record (w.pcb p) { parent = w.pcb_freelist }) w) {
      pcb_freelist = some p;
    })

-- `initialize_processes` up to its call of `Exec`.
unfoldable pub initialize_processes : World → World
initialize_processes w =
    record (build_freelist max_proc (record w { pcb = table; pcb_freelist = none })) {
      process_count = 0;
    }
  where
    table : ℕ → Pcb
    table p = if ltb p max_proc then initialize_pcb (w.pcb p) else w.pcb p

unfoldable pub acquire_pcb : World → Option ℕ × World
acquire_pcb w = elim w.pcb_freelist [
  | none ↦ (none, w)
  | some p ↦ (
    some p,
    record (set_pcb p (record (w.pcb p) { pstate = alive }) w) {
      pcb_freelist = (w.pcb p).parent;
      process_count = (w.process_count + 1) % u32_mod;
    },
  )
]

unfoldable pub release_pcb : ℕ → World → World
release_pcb p w =
    record (set_pcb p (record (w.pcb p) { pstate = free; parent = w.pcb_freelist }) w) {
      pcb_freelist = some p;
      process_count = (w.process_count + u32_mod - 1) % u32_mod;
    }
