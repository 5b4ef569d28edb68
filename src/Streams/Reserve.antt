-- ===== src/Streams/Reserve.antt =====
-- `FCB_reserve`: which file ids and FCBs it takes, and the reference counts.
use disasteros.Common.{
  ℕ, ◌+◌, ◌<◌, ◌≡◌, refl, ap, ◌∙◌, sym, inl, inr, Option, none, some, List, [], ◌∷◌, ◌++◌, arith,
  count, if◌then◌else◌, Bool-cases, Option-cases, length,
}
use disasteros.World.{Pcb, World, max_proc}
use disasteros.Streams.Table.{
  fcb_incref, acquire_all, release_back, set_fidt, find_fids, install, fcb_reserve,
}
use disasteros.Streams.Refs.{IsValid}
use disasteros.Streams.Acquire.{
  FreeFids, find_fids_lem, acquire_all-Acquired, take_first-IsValid, Acquired-IsValid,
  release_back-frame, rolled_back-IsValid, FreeFids-same,
}

-- The new file ids stand for the new FCBs, one each.
abbrev pub Opened : ℕ → (fids fcbs : List ℕ) → World → Type 0
Opened p (i ∷ is) (f ∷ fs) w = ((w.pcb p).fidt i ≡ some f) × Opened p is fs w
Opened p [] fs w = Unit
Opened p (i ∷ is) [] w = Unit

module _ (p : ℕ) (h : p < max_proc) where
  install-IsValid :
      (fids fcbs : List ℕ) (w : World) (f : ℕ)
      → length fids ≡ length fcbs
      → FreeFids (w.pcb p).fidt f fids
      → IsValid (record w { fcb_freelist = fcbs ++ w.fcb_freelist })
      → IsValid (install p fids fcbs w)
  unfolding install fcb_incref
  install-IsValid [] [] w f l free v = v
  install-IsValid [] (g ∷ gs) w f l free v = absurd (omega (arith, l))
  install-IsValid (i ∷ is) [] w f l free v = absurd (omega (arith, l))
  install-IsValid (i ∷ is) (g ∷ gs) w f l (a, b, c, d) v =
      install-IsValid is gs (fcb_incref g (set_fidt p i (some g) w)) (i + 1) (omega (arith, l))
        (FreeFids-same (w.pcb p).fidt _ (i + 1) is (λ j k. ground arith) d)
        (take_first-IsValid p i g (gs ++ w.fcb_freelist) v h b refl c)

install-frame :
    (p : ℕ) (fids fcbs : List ℕ) (w : World) (f j : ℕ)
    → FreeFids (w.pcb p).fidt f fids
    → j < f
    → ((install p fids fcbs w).pcb p).fidt j ≡ (w.pcb p).fidt j
unfolding install fcb_incref
install-frame p [] fcbs w f j free h = refl
install-frame p (i ∷ is) [] w f j free h = refl
install-frame p (i ∷ is) (g ∷ gs) w f j (a, b, c, d) h =
    let w' = fcb_incref g (set_fidt p i (some g) w) in
    let free = FreeFids-same (w.pcb p).fidt (w'.pcb p).fidt (i + 1) is (λ j k. ground arith) d in
    install-frame p is gs w' (i + 1) j free (omega arith) ∙ ground arith

install-freelist :
    (p : ℕ) (fids fcbs : List ℕ) (w : World) → (install p fids fcbs w).fcb_freelist ≡ w.fcb_freelist
unfolding install fcb_incref
install-freelist p [] fcbs w = refl
install-freelist p (i ∷ is) [] w = refl
install-freelist p (i ∷ is) (g ∷ gs) w = install-freelist p is gs _

install-Opened :
    (p : ℕ) (fids fcbs : List ℕ) (w : World) (f : ℕ)
    → FreeFids (w.pcb p).fidt f fids
    → Opened p fids fcbs (install p fids fcbs w)
unfolding install fcb_incref
install-Opened p [] fcbs w f free = tt
install-Opened p (i ∷ is) [] w f free = tt
install-Opened p (i ∷ is) (g ∷ gs) w f (a, b, c, d) =
    let w' = fcb_incref g (set_fidt p i (some g) w) in
    let free = FreeFids-same (w.pcb p).fidt (w'.pcb p).fidt (i + 1) is (λ j k. ground arith) d in
    (
      install-frame p is gs w' (i + 1) i free (omega arith) ∙ ground arith,
      install-Opened p is gs w' (i + 1) free,
    )

-- What `FCB_reserve` answers.
abbrev pub Reserved : (p num : ℕ) → World → Option (List ℕ × List ℕ) × World → Type 0
Reserved p num w (none, w') =
    (w'.pcb ≡ w.pcb) × ((u : ℕ) → count u w'.fcb_freelist ≡ count u w.fcb_freelist)
Reserved p num w (some (fids, fcbs), w') =
    (length fids ≡ num)
    × (length fcbs ≡ num)
    × FreeFids (w.pcb p).fidt 0 fids
    × (w.fcb_freelist ≡ fcbs ++ w'.fcb_freelist)
    × Opened p fids fcbs w'

fcb_reserve-none :
    (p num : ℕ) (w : World)
    → find_fids num 0 (w.pcb p).fidt ≡ none
    → fcb_reserve p num w ≡ (none, w)
unfolding fcb_reserve
fcb_reserve-none p num w e = rw (e, fcb_reserve) refl

fcb_reserve-found :
    (p num : ℕ) (w : World) (fids : List ℕ)
    → find_fids num 0 (w.pcb p).fidt ≡ some fids
    → let (fcbs, done, w') = acquire_all num w in
      fcb_reserve p num w
      ≡ (if done then (some (fids, fcbs), install p fids fcbs w') else (none, release_back fcbs w'))
unfolding fcb_reserve
fcb_reserve-found p num w fids e = rw (e, fcb_reserve) refl

-- For a process of the table, `FCB_reserve` keeps the reference counts right on both branches. If
-- it succeeds, it has taken `num` file ids that were free, in rising order, and the first `num`
-- FCBs of the free list, and the file ids stand for those FCBs. If it fails, no fileid table has
-- changed, and the free list holds the same FCBs, though perhaps in another order.
pub fcb_reserve_lem :
    (p num : ℕ) {w : World}
    → IsValid w
    → p < max_proc
    → IsValid (fcb_reserve p num w).1 × Reserved p num w (fcb_reserve p num w)
fcb_reserve_lem p num {w} v h =
    let (a, n) = acquire_all-Acquired num w w.fcb_freelist refl in
    let (fcbs, done, w') = acquire_all num w in
    let valid = Acquired-IsValid v a in
    elim (Option-cases (find_fids num 0 (w.pcb p).fidt)) [
      | inl e ↦ rw (fcb_reserve-none p num w e) (v, (refl, λ u. refl))
      | inr (fids, e) ↦
          let (l, free) = find_fids_lem num 0 (w.pcb p).fidt fids (omega arith) e in
          elim (Bool-cases done) [
            | inl d ↦
                let free' =
                  FreeFids-same (w.pcb p).fidt (w'.pcb p).fidt 0 fids
                    (λ j k. ap (λ (t : ℕ → Pcb). (t p).fidt j) a.pcb) free in
                rw (fcb_reserve-found p num w fids e) (
                  rw d (
                    install-IsValid p h fids fcbs w' 0 (l ∙ sym (n d)) free' valid,
                    (
                      l,
                      n d,
                      free,
                      a.taken ∙ ap (◌++◌ fcbs) (sym (install-freelist p fids fcbs w')),
                      install-Opened p fids fcbs w' 0 free',
                    ),
                  ))
            | inr d ↦
                let (x, y, z) = release_back-frame fcbs w' in
                rw (fcb_reserve-found p num w fids e) (
                  rw d (
                    rolled_back-IsValid fcbs w' valid,
                    (y ∙ a.pcb, λ u. z u ∙ ap (count u) (sym a.taken)),
                  ))
          ]
    ]
