-- ===== src/Streams/Rest.antt =====
-- What reserving FCBs leaves alone: all but the FCB table and the fileid tables.
use disasteros.Common.{
  ℕ, zero, suc, ◌≡◌, refl, ◌∙◌, true, false, Option, none, some, List, [], ◌∷◌, Bool, if◌then◌else◌,
}
use disasteros.World.{World, set_fcb}
use disasteros.Streams.Table.{
  acquire_fcb, acquire_all, release_back, install, find_fids, fcb_incref, set_fidt, fcb_reserve,
}

pub record SameRest (w w' : World) : Type 0 where
  pub kernel : w'.kernel ≡ w.kernel
  pub scbs : w'.scbs ≡ w.scbs
  pub requests : w'.requests ≡ w.requests
  pub pipes : w'.pipes ≡ w.pipes

same : (w : World) → SameRest w w
same w = record { kernel = refl; scbs = refl; requests = refl; pipes = refl }

SameRest-trans : {w w' w'' : World} → SameRest w w' → SameRest w' w'' → SameRest w w''
SameRest-trans a b = record {
  kernel = b.kernel ∙ a.kernel;
  scbs = b.scbs ∙ a.scbs;
  requests = b.requests ∙ a.requests;
  pipes = b.pipes ∙ a.pipes;
}

-- What the three functions do with a list of FCBs, with one of them, and with file ids.
abbrev popped : World → List ℕ → Option ℕ × World
popped w l = elim l [
  | [] ↦ (none, w)
  | f ∷ rest ↦
      (some f, set_fcb f (record (w.fcb f) { refcount = 0 }) (record w { fcb_freelist = rest }))
]

popped-SameRest : (w : World) (l : List ℕ) → SameRest w (popped w l).1
popped-SameRest w [] = same w
popped-SameRest w (f ∷ rest) = record { kernel = refl; scbs = refl; requests = refl; pipes = refl }

acquire_fcb-SameRest : (w : World) → SameRest w (acquire_fcb w).1
unfolding acquire_fcb
acquire_fcb-SameRest w = popped-SameRest w w.fcb_freelist

abbrev carried : ℕ → Option ℕ → World → List ℕ × Bool × World
carried num o w = elim o [
  | none ↦ ([], false, w)
  | some f ↦ let (fs, done, w') = acquire_all num w in (f ∷ fs, done, w')
]

carried-SameRest :
    (num : ℕ) (o : Option ℕ) (w : World)
    → ((u : World) → SameRest u (acquire_all num u).2)
    → SameRest w (carried num o w).2
carried-SameRest num none w rest = same w
carried-SameRest num (some f) w rest = rest w

acquire_all-SameRest : (num : ℕ) (w : World) → SameRest w (acquire_all num w).2
unfolding acquire_all
acquire_all-SameRest zero w = same w
acquire_all-SameRest (suc num) w =
    SameRest-trans (acquire_fcb-SameRest w)
      (carried-SameRest num (acquire_fcb w).0 (acquire_fcb w).1 (acquire_all-SameRest num))

release_back-SameRest : (fs : List ℕ) (w : World) → SameRest w (release_back fs w)
unfolding release_back
release_back-SameRest [] w = same w
release_back-SameRest (f ∷ fs) w =
    SameRest-trans (release_back-SameRest fs w)
      (record { kernel = refl; scbs = refl; requests = refl; pipes = refl })

install-SameRest : (p : ℕ) (fids fcbs : List ℕ) (w : World) → SameRest w (install p fids fcbs w)
unfolding install fcb_incref
install-SameRest p [] fcbs w = same w
install-SameRest p (i ∷ is) [] w = same w
install-SameRest p (i ∷ is) (f ∷ fs) w =
    let w' = fcb_incref f (set_fidt p i (some f) w) in
    SameRest-trans (record { kernel = refl; scbs = refl; requests = refl; pipes = refl })
      (install-SameRest p is fs w')

abbrev ended : (p : ℕ) (fids fcbs : List ℕ) → Bool → World → Option (List ℕ × List ℕ) × World
ended p fids fcbs done w =
    if done then (some (fids, fcbs), install p fids fcbs w) else (none, release_back fcbs w)

ended-SameRest :
    (p : ℕ) (fids fcbs : List ℕ) (done : Bool) (w : World) → SameRest w (ended p fids fcbs done w).1
ended-SameRest p fids fcbs true w = install-SameRest p fids fcbs w
ended-SameRest p fids fcbs false w = release_back-SameRest fcbs w

abbrev reserved : (p num : ℕ) → Option (List ℕ) → World → Option (List ℕ × List ℕ) × World
reserved p num o w = elim o [
  | none ↦ (none, w)
  | some fids ↦ let (fcbs, done, w') = acquire_all num w in ended p fids fcbs done w'
]

reserved-SameRest :
    (p num : ℕ) (o : Option (List ℕ)) (w : World) → SameRest w (reserved p num o w).1
reserved-SameRest p num none w = same w
reserved-SameRest p num (some fids) w =
    let (fcbs, done, w') = acquire_all num w in
    SameRest-trans (acquire_all-SameRest num w) (ended-SameRest p fids fcbs done w')

pub fcb_reserve-SameRest : (p num : ℕ) (w : World) → SameRest w (fcb_reserve p num w).1
unfolding fcb_reserve
fcb_reserve-SameRest p num w = reserved-SameRest p num (find_fids num 0 (w.pcb p).fidt) w
