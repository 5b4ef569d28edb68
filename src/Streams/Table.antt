-- ===== src/Streams/Table.antt =====
-- The FCB table `FT`, its free list, and the reservation of file ids.
use disasteros.Common.{
  ℕ, zero, suc, ◌+◌, ◌-◌, ◌%◌, ◌^◌, Bool, true, false, ◌&&◌, Option, none, some, List, [], ◌∷◌,
  ◌++◌, ltb, ◌==◌, if◌then◌else◌, update, is_some,
}
use disasteros.Common.Int.{ℤ, pos, negsuc}
use disasteros.World.{World, Cpu, curproc, max_fileid, max_proc, set_fcb, set_pcb}

abbrev pub u32_mod : ℕ
u32_mod = 2 ^ 32

-- MAX_FILES
abbrev pub max_files : ℕ
max_files = max_proc

-- The numbers from `i` on, `n` of them.
unfoldable pub range_from : (n i : ℕ) → List ℕ
range_from zero i = []
range_from (suc n) i = i ∷ range_from n (i + 1)

-- `initialize_files`: every FCB goes to the back of the free list, in the order of the table.
unfoldable pub initialize_files : World → World
initialize_files w = record w {
  fcb = λ f. if ltb f max_files then record (w.fcb f) { refcount = 0 } else w.fcb f;
  fcb_freelist = range_from max_files 0;
}

unfoldable pub acquire_fcb : World → Option ℕ × World
acquire_fcb w = elim w.fcb_freelist [
  | [] ↦ (none, w)
  | f ∷ rest ↦
      (some f, set_fcb f (record (w.fcb f) { refcount = 0 }) (record w { fcb_freelist = rest }))
]

abbrev pub release_fcb : ℕ → World → World
release_fcb f w = record w { fcb_freelist = w.fcb_freelist ++ f ∷ [] }

abbrev pub set_refcount : ℕ → ℕ → World → World
set_refcount f n w = set_fcb f (record (w.fcb f) { refcount = n }) w

unfoldable pub fcb_incref : ℕ → World → World
fcb_incref f w = set_refcount f (((w.fcb f).refcount + 1) % u32_mod) w

-- The decrement at the start of `FCB_decref`.
unfoldable pub drop_ref : ℕ → World → World
drop_ref f w = set_refcount f (((w.fcb f).refcount + u32_mod - 1) % u32_mod) w

abbrev pub set_fidt : (p i : ℕ) → Option ℕ → World → World
set_fidt p i o w = set_pcb p (record (w.pcb p) { fidt = update (w.pcb p).fidt i o }) w

-- `while (f < MAX_FILEID && FIDT[f] != NULL) f++`, with `n` rounds left.
unfoldable pub next_free : (n f : ℕ) → (ℕ → Option ℕ) → ℕ
next_free zero f fidt = f
next_free (suc n) f fidt =
    let rest = next_free n (f + 1) fidt in if ltb f max_fileid && is_some (fidt f) then rest else f

-- "Find distinct fids": `num` free ones from `f` on, in order.
unfoldable pub find_fids : (num f : ℕ) → (ℕ → Option ℕ) → Option (List ℕ)
find_fids zero f fidt = some []
find_fids (suc num) f fidt =
    let g = next_free (max_fileid - f) f fidt in
    let rest = find_fids num (g + 1) fidt in
    if g == max_fileid then none else elim rest [ none ↦ none | some gs ↦ some (g ∷ gs) ]

-- "Allocate FCBs": those acquired, in order, and whether there were `num` of them.
unfoldable pub acquire_all : (num : ℕ) → World → List ℕ × Bool × World
acquire_all zero w = ([], true, w)
acquire_all (suc num) w =
    let (o, w') = acquire_fcb w in
    elim o [
      | none ↦ ([], false, w')
      | some f ↦ let (fs, done, w'') = acquire_all num w' in (f ∷ fs, done, w'')
    ]

-- "Roll back": the FCBs are released, the last one first.
unfoldable pub release_back : List ℕ → World → World
release_back [] w = w
release_back (f ∷ fs) w = release_fcb f (release_back fs w)

-- "Found all": the file ids get their FCBs.
unfoldable pub install : ℕ → (fids fcbs : List ℕ) → World → World
install p (i ∷ is) (f ∷ fs) w = install p is fs (fcb_incref f (set_fidt p i (some f) w))
install p [] fs w = w
install p (i ∷ is) [] w = w

-- `FCB_reserve`, for the process `p`, which is CURPROC: the two arrays, or `none` for a failure.
unfoldable pub fcb_reserve : ℕ → (num : ℕ) → World → Option (List ℕ × List ℕ) × World
fcb_reserve p num w = elim (find_fids num 0 (w.pcb p).fidt) [
  | none ↦ (none, w)
  | some fids ↦
      let (fcbs, done, w') = acquire_all num w in
      if done then (some (fids, fcbs), install p fids fcbs w') else (none, release_back fcbs w')
]

abbrev pub holds : Option ℕ → ℕ → Bool
holds none f = false
holds (some g) f = g == f

-- `FCB_unreserve`; `none` is its failed assertion.
unfoldable pub fcb_unreserve : ℕ → (fids fcbs : List ℕ) → World → Option World
fcb_unreserve p (i ∷ is) (f ∷ fs) w =
    let rest = fcb_unreserve p is fs (release_fcb f (set_fidt p i none w)) in
    if holds ((w.pcb p).fidt i) f then rest else none
fcb_unreserve p [] fs w = some w
fcb_unreserve p (i ∷ is) [] w = some w

-- `get_fcb`
unfoldable pub get_fcb : Cpu → ℤ → World → Option ℕ
get_fcb c (negsuc n) w = none
get_fcb c (pos i) w = if ltb i max_fileid then (w.pcb (curproc c w)).fidt i else none
