-- ===== src/Streams/Acquire.antt =====
-- The first half of `FCB_reserve`: the search for file ids, and the FCBs that are acquired.
use disasteros.Common.{
  ℕ, zero, suc, ◌+◌, ◌-◌, ◌≤◌, ◌<◌, ◌≡◌, ◌≢◌, refl, ap, ◌∙◌, subst, inl, inr, Bool, true, false,
  Option, none, some, List, [], ◌∷◌, ◌++◌, arith, count, count-append, count_of_has, if◌then◌else◌,
  Option-cases, length, has,
}
use disasteros.World.{Fcb, World, max_fileid, max_proc, set_fcb}
use disasteros.Streams.Table.{
  fcb_incref, acquire_fcb, acquire_all, release_back, set_fidt, next_free, find_fids,
}
use disasteros.Streams.Refs.{refs-set_fidt, refs-of_pcb, IsValid}

-- File ids from `f` on, in order, that stand for nothing.
abbrev pub FreeFids : (ℕ → Option ℕ) → ℕ → List ℕ → Type 0
FreeFids fidt f [] = Unit
FreeFids fidt f (i ∷ is) = (f ≤ i) × (i < max_fileid) × (fidt i ≡ none) × FreeFids fidt (i + 1) is

next_free_lem :
    (n f : ℕ) (fidt : ℕ → Option ℕ)
    → n + f ≡ max_fileid
    → let g = next_free n f fidt in (f ≤ g) × (g ≤ max_fileid) × (g ≢ max_fileid → fidt g ≡ none)
unfolding next_free
next_free_lem zero f fidt h = (omega arith, omega arith, λ k. absurd (omega arith))
next_free_lem (suc n) f fidt h = ground (arith, next_free_lem n (f + 1) fidt)

pub find_fids_lem :
    (num f : ℕ) (fidt : ℕ → Option ℕ) (fids : List ℕ)
    → f ≤ max_fileid
    → find_fids num f fidt ≡ some fids
    → (length fids ≡ num) × FreeFids fidt f fids
unfolding find_fids
find_fids_lem zero f fidt fids h e =
    subst (λ l. (length l ≡ 0) × FreeFids fidt f l) {x = []} (ground arith) (refl, tt)
find_fids_lem (suc num) f fidt fids h e =
    let g = next_free (max_fileid - f) f fidt in
    let (a, b, c) = next_free_lem (max_fileid - f) f fidt (omega arith) in
    elim (Option-cases (find_fids num (g + 1) fidt)) [
      | inl n ↦ ground arith
      | inr (gs, o) ↦
          let d : g ≢ max_fileid = ground arith in
          let (x, y) = find_fids_lem num (g + 1) fidt gs (omega arith) o in
          subst (λ l. (length l ≡ suc num) × FreeFids fidt f l) {x = g ∷ gs} (ground arith)
            (ap suc x, (a, omega arith, c d, y))
    ]

-- What `acquire_all` has taken.
pub record Acquired (fcbs : List ℕ) (w w' : World) : Type 0 where
  pub taken : w.fcb_freelist ≡ fcbs ++ w'.fcb_freelist
  pub pcb : w'.pcb ≡ w.pcb
  pub refcount : (g : ℕ) → (w'.fcb g).refcount ≡ (if has g fcbs then 0 else (w.fcb g).refcount)

abbrev popped : World → (f : ℕ) → List ℕ → World
popped w f rest = set_fcb f (record (w.fcb f) { refcount = 0 }) (record w { fcb_freelist = rest })

acquire_fcb-of :
    (w : World) (free : List ℕ)
    → w.fcb_freelist ≡ free
    → acquire_fcb w ≡ elim free [ [] ↦ (none, w) | f ∷ rest ↦ (some f, popped w f rest) ]
unfolding acquire_fcb
acquire_fcb-of w free e =
    ap (λ (l : List ℕ). elim l [ [] ↦ (none, w) | f ∷ rest ↦ (some f, popped w f rest) ]) e

-- What `acquire_all` does with the outcome of `acquire_fcb`.
abbrev carry_on : ℕ → Option ℕ × World → List ℕ × Bool × World
carry_on num r = elim r.0 [
  | none ↦ ([], false, r.1)
  | some f ↦ let (fs, done, w') = acquire_all num r.1 in (f ∷ fs, done, w')
]

acquire_all-cons :
    (num : ℕ) (w : World) (f : ℕ) (rest : List ℕ)
    → w.fcb_freelist ≡ f ∷ rest
    → let (fs, done, w') = acquire_all num (popped w f rest) in
      acquire_all (suc num) w ≡ (f ∷ fs, done, w')
unfolding acquire_all
acquire_all-cons num w f rest e = ap (carry_on num) (acquire_fcb-of w (f ∷ rest) e)

acquire_all-nil :
    (num : ℕ) (w : World) → w.fcb_freelist ≡ [] → acquire_all (suc num) w ≡ ([], false, w)
unfolding acquire_all
acquire_all-nil num w e = ap (carry_on num) (acquire_fcb-of w [] e)

pub acquire_all-Acquired :
    (num : ℕ) (w : World) (free : List ℕ)
    → w.fcb_freelist ≡ free
    → let (fcbs, done, w') = acquire_all num w in
      Acquired fcbs w w' × (done ≡ true → length fcbs ≡ num)
unfolding acquire_all
acquire_all-Acquired zero w free e =
    (record { taken = refl; pcb = refl; refcount = λ g. refl }, λ _. refl)
acquire_all-Acquired (suc num) w [] e =
    rw (acquire_all-nil num w e)
      (record { taken = refl; pcb = refl; refcount = λ g. refl }, λ h. absurd (ground arith))
acquire_all-Acquired (suc num) w (f ∷ rest) e =
    let (a, n) = acquire_all-Acquired num (popped w f rest) rest refl in
    rw (acquire_all-cons num w f rest e) (
      record {
        taken = e ∙ ap (◌∷◌ f) a.taken;
        pcb = a.pcb;
        refcount = λ g. ground (arith, a.refcount g);
      },
      λ h. ap suc (n h),
    )

-- A free file id takes the first free FCB.
module _ {w : World} (p i f : ℕ) (rest : List ℕ) (v : IsValid w) (h : p < max_proc)
    (k : i < max_fileid) where
  pub take_first-IsValid :
      w.fcb_freelist ≡ f ∷ rest
      → (w.pcb p).fidt i ≡ none
      → IsValid (fcb_incref f (set_fidt p i (some f) (record w { fcb_freelist = rest })))
  unfolding fcb_incref
  take_first-IsValid e o =
      let w' = record w { fcb_freelist = rest } in
      let r = λ (u : ℕ). refs-set_fidt p i u (some f) w' h k in
      let t = set_fidt p i (some f) w' in
      let same = λ (u : ℕ). refs-of_pcb t (fcb_incref f t) u refl in
      let before = λ (u : ℕ). refs-of_pcb w w' u refl in
      record {
        counted = λ u. ground (arith, v.counted u, v.unused f, r u, same u, before u);
        unused = λ u. ground (arith, v.unused u, v.unused f, r u, same u, before u);
        no_leak = λ u. ground (arith, v.no_leak u, r u, same u, before u);
      }

-- The invariant with the acquired FCBs counted as free.
pub Acquired-IsValid :
    {fcbs : List ℕ} {w w' : World}
    → IsValid w
    → Acquired fcbs w w'
    → IsValid (record w' { fcb_freelist = fcbs ++ w'.fcb_freelist })
Acquired-IsValid {fcbs} {w} {w'} v a =
    let same =
      λ (u : ℕ). refs-of_pcb w (record w' { fcb_freelist = fcbs ++ w'.fcb_freelist }) u a.pcb in
    record {
      counted = λ u. ground (
        arith,
        v.counted u,
        v.unused u,
        a.refcount u,
        a.taken,
        same u,
        count_of_has u fcbs,
        count-append u fcbs w'.fcb_freelist,
      );
      unused = λ u. ground (arith, v.unused u, a.taken, same u);
      no_leak = λ u. ground (arith, v.no_leak u, a.taken, same u);
    }

pub release_back-frame :
    (fcbs : List ℕ) (w : World)
    → ((release_back fcbs w).fcb ≡ w.fcb)
      × ((release_back fcbs w).pcb ≡ w.pcb)
      × ((u : ℕ) → count u (release_back fcbs w).fcb_freelist ≡ count u (fcbs ++ w.fcb_freelist))
unfolding release_back
release_back-frame [] w = (refl, refl, λ u. refl)
release_back-frame (f ∷ fs) w =
    let (a, b, c) = release_back-frame fs w in
    (a, b, λ u. ground (arith, c u, count-append u (release_back fs w).fcb_freelist (f ∷ [])))

pub rolled_back-IsValid :
    (fcbs : List ℕ) (w : World)
    → IsValid (record w { fcb_freelist = fcbs ++ w.fcb_freelist })
    → IsValid (release_back fcbs w)
rolled_back-IsValid fcbs w v =
    let (a, b, c) = release_back-frame fcbs w in
    let same = λ (u : ℕ).
      refs-of_pcb (record w { fcb_freelist = fcbs ++ w.fcb_freelist }) (release_back fcbs w) u b in
    let ref = λ (u : ℕ). ap (λ (t : ℕ → Fcb). (t u).refcount) a in
    record {
      counted = λ u. ground (arith, v.counted u, same u, ref u);
      unused = λ u. ground (arith, v.unused u, same u, c u);
      no_leak = λ u. ground (arith, v.no_leak u, same u, c u);
    }

pub FreeFids-same :
    (fidt fidt' : ℕ → Option ℕ) (f : ℕ) (fids : List ℕ)
    → ((j : ℕ) → f ≤ j → fidt' j ≡ fidt j)
    → FreeFids fidt f fids
    → FreeFids fidt' f fids
FreeFids-same fidt fidt' f [] same h = tt
FreeFids-same fidt fidt' f (i ∷ is) same (a, b, c, d) =
    (a, b, same i a ∙ c, FreeFids-same fidt fidt' (i + 1) is (λ j k. same j (omega arith)) d)
